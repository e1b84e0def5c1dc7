-- ===== src/Client/Batch.antt =====
-- batch.go: BatchPut, BatchDelete and BatchGet with chunks, retries and progress. The backend, and
-- the moment at which the context ends, are parameters. MaxConcurrency is 1, the default: a chunk
-- begins when the one before it has ended.
pub mod Chunks
pub mod Retries
pub mod Writes
pub mod Applied
pub mod Complete
pub mod Gets
pub mod InMemory

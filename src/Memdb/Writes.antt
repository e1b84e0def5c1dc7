-- ===== src/Memdb/Writes.antt =====
-- memdb/memdb.go: the handlers that write.
pub mod Single
pub mod Batch
pub mod Transact
pub mod Stored
pub mod Consistency
pub mod Calls
pub mod Effects
pub mod Atomic

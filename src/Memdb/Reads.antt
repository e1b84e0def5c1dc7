-- ===== src/Memdb/Reads.antt =====
-- memdb/memdb.go: the handlers that read.
pub mod Project
pub mod Sort
pub mod Page
pub mod Get
pub mod Query
pub mod Scan
pub mod Distinct
pub mod Paging

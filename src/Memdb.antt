-- ===== src/Memdb.antt =====
-- memdb: the in-memory backend.
pub mod Schema
pub mod Keys
pub mod Partitions
pub mod Gsi
pub mod Tokens
pub mod Parsing
pub mod Conditions
pub mod Updates
pub mod KeyCondition
pub mod Reads
pub mod Writes

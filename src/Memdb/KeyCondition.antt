-- ===== src/Memdb/KeyCondition.antt =====
-- memdb/memdb.go: key condition expressions, "#pk = :pk AND begins_with(#sk, :sk)".
pub mod Pieces
pub mod Parse
pub mod Match

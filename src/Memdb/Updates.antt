-- ===== src/Memdb/Updates.antt =====
-- memdb/expression.go: update expressions. Sets and nested writes are in Changes, the values in
-- Values, the parser in Parse; here the operations are applied.
pub mod Changes
pub mod Values
pub mod Parse
pub mod Apply
pub mod Writing
pub mod StringSets
pub mod Agrees

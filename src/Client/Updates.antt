-- ===== src/Client/Updates.antt =====
-- update.go: the options of an update, its request, and the two calls.
pub mod Clauses
pub mod Stored

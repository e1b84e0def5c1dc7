-- ===== src/Middleware.antt =====
-- middleware.go, logging.go, dynagotel/dynagotel.go: backends that wrap a backend.
pub mod Interface
pub mod Observers
pub mod Transparent
pub mod Spans

-- ===== src/Client.antt =====
-- The client: what the package builds from its options and sends to a Backend.
pub mod Values
pub mod Keys
pub mod Batch
pub mod Pages
pub mod Conditions
pub mod Updates
pub mod Requests
pub mod Translation
pub mod ReadModifyWrite
pub mod Registry
pub mod Builder
pub mod Errors

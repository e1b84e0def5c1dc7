-- ===== src/Codec.antt =====
-- codec.go, marshal.go, unmarshal.go: Go structs as items and back.
pub mod Types
pub mod Tags
pub mod Numbers
pub mod Marshal
pub mod Unmarshal
pub mod Kept
pub mod RoundTrip
pub mod Read

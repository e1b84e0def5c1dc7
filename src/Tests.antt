-- ===== src/Tests.antt =====
-- Runs at concrete inputs, and the theorems at inputs that meet their hypotheses.
mod Numbers
mod Parsing
mod Store
mod Writes
mod Indexes
mod Values
mod Pages
mod Batch
mod PageLoops
mod Requests
mod Answers
mod Writers
mod Types
mod Codec
mod Builder
mod Middleware
mod Aws

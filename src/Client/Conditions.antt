-- ===== src/Client/Conditions.antt =====
-- condition.go: condition texts with ? placeholders, as expression text with aliases and values.
pub mod Placeholder
pub mod Tokens
pub mod Build
pub mod Steps
pub mod Aliases
pub mod Values

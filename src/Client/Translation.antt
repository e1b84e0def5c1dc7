-- ===== src/Client/Translation.antt =====
-- internal/expr/translate.go: expression trees as expression text with aliases and values.
pub mod Translate
pub mod Named
pub mod Values
pub mod Updates

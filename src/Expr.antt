-- ===== src/Expr.antt =====
-- internal/expr: the expression AST and its evaluation against an item.
pub mod Ast
pub mod Floats
pub mod Paths
pub mod Eval
pub mod Update

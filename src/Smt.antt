-- ===== src/Smt.antt =====
-- The SMT expressions that llreve generates, and the passes over them.
pub mod Sort
pub mod Expr
pub mod Options
pub mod Pieces
pub mod ToSexpr
pub mod Visitor
pub mod Uses
pub mod Meaning
pub mod Split
pub mod Merge
pub mod Lets
pub mod Inline

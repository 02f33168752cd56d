-- ===== src/Semantic.antt =====
-- The semantic interpreter: from a parse tree to the internal form of a query.
mod Tests
pub mod Query
pub mod Scope
pub mod Exprs
pub mod Windows
pub mod Clauses

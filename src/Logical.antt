-- ===== src/Logical.antt =====
-- The logical query plans: operators, expressions, and the plan of a query.
mod Tests
pub mod Plan
pub mod Pool
pub mod Operators
pub mod Joins
pub mod Naive
pub mod Generate
pub mod Rewrites

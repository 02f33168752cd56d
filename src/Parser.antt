-- ===== src/Parser.antt =====
-- The parse trees of src/parser that the semantic interpreter reads.
pub mod Nodes

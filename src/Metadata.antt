-- ===== src/Metadata.antt =====
-- The metadata managers of src/metadata that the query compiler uses.
pub mod Types
pub mod Tables
pub mod Queries

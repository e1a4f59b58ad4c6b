-- ===== src/Indexer.antt =====
-- src/indexer/index.ts: the client of the public indexer.
pub mod Types
pub mod Query
pub mod Operations
pub mod Conversion
pub mod Waiting
pub mod Node

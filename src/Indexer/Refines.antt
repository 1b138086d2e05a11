-- ===== src/Indexer/Refines.antt =====
-- The code of the indexer runs as steps of the ledger.
pub mod Writes
pub mod Process
pub mod Handlers
pub mod Blocks

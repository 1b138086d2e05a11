-- ===== src/Store.antt =====
-- indexerstore/indexer_store.go: the persistent state of the indexer, over kvdb.
pub mod Word
pub mod Record
pub mod Buckets
pub mod Tvl
pub mod Height
pub mod Staking
pub mod Unbonding
pub mod Interface
pub mod Reads
pub mod Exists
pub mod Implements

-- ===== src/Indexer.antt =====
-- indexer/indexer.go
pub mod Types
pub mod Exec
pub mod StartHeight
pub mod Staking
pub mod Spending
pub mod Hex
pub mod Spent
pub mod Process
pub mod Block
pub mod Ledger
pub mod Refines
pub mod Tally
pub mod Unconfirmed
pub mod Stream
pub mod Settled
pub mod History

-- ===== src/Tests.antt =====
-- A concrete node, and the theorems applied to it.
pub mod Codec
pub mod Db
pub mod Node
pub mod Storing
pub mod Indexing
pub mod Scanning
pub mod Unconfirmed
pub mod Lifecycle
pub mod Client
pub mod Configuration
pub mod Whole
pub mod Restart
pub mod Starting
pub mod Launched

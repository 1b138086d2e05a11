-- ===== src/Indexer/Stream.antt =====
-- The confirmed blocks as one stream: how they are cut into updates, and what the unconfirmed blocks
-- and the events are, makes no difference to the database.
pub mod Blocks
pub mod Updates
pub mod Height

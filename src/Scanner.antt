-- ===== src/Scanner.antt =====
-- The scanner of btcscanner/, which follows the chain and hands on the confirmed blocks.
pub mod Notifier
pub mod Cache
pub mod Poller
pub mod Chain
pub mod EventLoop

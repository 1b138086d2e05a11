-- ===== src/Command.antt =====
-- cmd/sid/cli/: `initHome` of init.go, `start` of start.go, up to the run of the server, and
-- `btcHeaders` of btc_headers.go.
pub mod Init
pub mod Host
pub mod Assemble
pub mod Start
pub mod Roundtrip
pub mod Launched
pub mod Headers
pub mod Whole

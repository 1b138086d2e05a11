-- ===== src/Scanner/EventLoop.antt =====
-- The life of the poller: `NewBTCScanner`, `Start` and `waitUntilActivation` of
-- btcscanner/btc_scanner.go, and `blockEventLoop` of block_handler.go over the block epochs that the
-- notifier delivers. `Stop` and the shutdown are left out.
pub mod Linkage
pub mod Activation
pub mod Extension
use staking_indexer.Prelude.{
  ℕ, ◌+◌, ◌%◌, u64_mod, Bool, true, false, Option, none, some, List, [], ◌∷◌, leb, ◌==◌,
  if◌then◌else◌,
}
use staking_indexer.Prelude.Result.{Result, ok, err, panic, already_started, no_tip_height, ◌>>=◌}
use staking_indexer.Wire.{Codec}
use staking_indexer.Scanner.Cache.{new_btc_cache}
use staking_indexer.Scanner.Poller.{
  BtcPoller, Client, BlockEpoch, Act, continue, bootstrap, handle_new_block, last_confirmed_height,
}

abbrev pub default_max_entries : ℕ
default_max_entries = 100

-- The poller and `isStarted`.
pub record Scanner : Type 0 where
  pub poller : BtcPoller
  pub is_started : Bool

unfoldable pub new_btc_scanner : ℕ → Result Scanner
unfolding new_btc_cache
new_btc_scanner confirmation_depth = do
  unconfirmed_block_cache ← new_btc_cache default_max_entries
  ok (record {
    poller = record {
      unconfirmed_block_cache = unconfirmed_block_cache;
      confirmation_depth = confirmation_depth;
      confirmed_tip_block = none;
      sent = [];
    };
    is_started = false;
  })

-- The polls of the tip height, as long as it is too low: `none` if all of them were.
unfoldable pub wait_until_activation : ℕ → List (Result ℕ) → Option (Result (Unit {0}))
wait_until_activation activation_height [] = none
wait_until_activation activation_height (ok tip_height ∷ polls) =
    let rest = wait_until_activation activation_height polls in
    if leb activation_height tip_height then some (ok tt) else rest
wait_until_activation activation_height (err e ∷ polls) = some (err no_tip_height)
wait_until_activation activation_height (panic ∷ polls) = some panic

-- Where the bootstrap after a block that does not join the cache starts.
abbrev pub bootstrap_height : ℕ → BtcPoller → ℕ
bootstrap_height start_height s =
    if last_confirmed_height s == 0 then start_height else (last_confirmed_height s + 1) % u64_mod

-- A block epoch, with the answers of the Bitcoin client while it is handled, and while the bootstrap
-- runs that may follow.
pub record Round : Type 0 where
  pub block_epoch : BlockEpoch
  pub at_block : Client
  pub at_bootstrap : Client

-- An error is logged only.
abbrev or_logged : Result (Unit {0}) → Result (Unit {0})
or_logged (ok u) = ok tt
or_logged (err e) = ok tt
or_logged panic = panic

module _ (c : Codec) where
  -- The bootstrap after a block that does not join the cache.
  abbrev pub recover : ℕ → Client → Result (Unit {0}) → Act (Unit {0})
  recover start_height client (ok u) s = (ok tt, s)
  recover start_height client panic s = (panic, s)
  recover start_height client (err e) s =
      let (r, s') = bootstrap c client (bootstrap_height start_height s) s in (or_logged r, s')

  unfoldable pub on_block_epoch : ℕ → Round → Act (Unit {0})
  on_block_epoch start_height e s =
      let (r, s') = handle_new_block c e.at_block e.block_epoch s in
      recover start_height e.at_bootstrap r s'

  -- The loop, until the epochs end or a panic.
  unfoldable pub block_event_loop : ℕ → List Round → Act (Unit {0})
  unfolding on_block_epoch
  block_event_loop start_height [] s = (ok tt, s)
  block_event_loop start_height (e ∷ es) s =
      let (r, s') = on_block_epoch start_height e s in
      continue r (λ _. block_event_loop start_height es) s'

  -- `none` while the activation height is not reached.
  abbrev pub begin :
      ℕ → Client → Scanner → Option (Result (Unit {0})) → Option (Result (Unit {0})) × Scanner
  begin start_height client s none = (none, s)
  begin start_height client s (some (err e)) = (some (err e), s)
  begin start_height client s (some panic) = (some panic, s)
  begin start_height client s (some (ok u)) =
      let (r, poller') = bootstrap c client start_height s.poller in
      (some r, record s { poller = poller' })

  unfoldable pub start :
      ℕ → ℕ → List (Result ℕ) → Client → Scanner → Option (Result (Unit {0})) × Scanner
  unfolding wait_until_activation
  start start_height activation_height polls client s =
      if s.is_started
      then (some (err already_started), s)
      else begin start_height client (record s { is_started = true })
          (wait_until_activation activation_height polls)

  -- The loop runs once the scanner has started.
  abbrev pub run_loop :
      ℕ → List Round → Option (Result (Unit {0})) × Scanner → Option (Result (Unit {0})) × Scanner
  run_loop start_height es (some (ok u), s) =
      let (r, poller') = block_event_loop start_height es s.poller in
      (some r, record s { poller = poller' })
  run_loop start_height es (some (err e), s) = (some (err e), s)
  run_loop start_height es (some panic, s) = (some panic, s)
  run_loop start_height es (none, s) = (none, s)

  unfoldable pub run :
      ℕ → ℕ → List (Result ℕ) → Client → List Round → Scanner → Option (Result (Unit {0})) × Scanner
  run start_height activation_height polls client es s =
      run_loop start_height es (start start_height activation_height polls client s)

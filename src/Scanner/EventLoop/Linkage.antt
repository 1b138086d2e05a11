-- ===== src/Scanner/EventLoop/Linkage.antt =====
-- The blocks that the poller hands on as confirmed are one chain, whatever the node answers.
use staking_indexer.Prelude.{
  ℕ, ◌-◌, ◌≤◌, ◌<◌, true, false, Option, none, some, List, [], ◌∷◌, ◌++◌, All, ◌≡◌, ◌∙◌, refl, sym,
  inl, inr, arith, Bool-cases,
}
use staking_indexer.Prelude.Result.{Result, ok, err, panic}
use staking_indexer.Wire.{Codec, BlockHeader}
use staking_indexer.Wire.Blocks.{IndexedBlock, block_hash}
use staking_indexer.Scanner.Cache.{tip, new_btc_cache}
use staking_indexer.Scanner.Poller.{
  BtcPoller, Client, BlockEpoch, continue, handle_new_block, accept_block,
}
use staking_indexer.Scanner.Poller.Commits.{confirmed_stream}
use staking_indexer.Scanner.Poller.Rounds.{with_blocks}
use staking_indexer.Scanner.Chain.{
  Linked, Linked-append, Linked-left, Linked-right, LinkedFrom-Linked, get_last?-last_from,
  last_from,
}
use staking_indexer.Scanner.Chain.Outcomes.{accept_cases, new_block_cases}
use staking_indexer.Scanner.Chain.Kept.{IsChain, trimmed-IsChain, commit-IsChain}
use staking_indexer.Scanner.Chain.Kept.Bootstrap.{bootstrap-IsChain}
use staking_indexer.Scanner.EventLoop.{
  Round, Scanner, begin, recover, on_block_epoch, block_event_loop, new_btc_scanner, start,
  run_loop, run, wait_until_activation, bootstrap_height,
}

-- The header of the epoch is that of its hash, as the notifier documents.
abbrev pub IsAuthentic : Codec → BlockEpoch → Type 0
IsAuthentic c e = c.block_hash e.block_header ≡ e.hash

-- A block's hash fixes its parent, as long as the hash function has no collision.
abbrev pub FixesParent : Codec → Type 0
FixesParent c =
    (h h' : BlockHeader) → c.block_hash h ≡ c.block_hash h' → h.prev_block ≡ h'.prev_block

module _ (c : Codec) (fixes : FixesParent c) (k : ℕ) (deep : 0 < k) where
  accept-IsChain :
      (client : Client) (b : BlockEpoch) (s : BtcPoller) (t : IndexedBlock)
      → IsChain c k s
      → IsAuthentic c b
      → tip s.unconfirmed_block_cache ≡ some t
      → b.block_header.prev_block ≡ block_hash c t
      → IsChain c k (accept_block c client b s).1
  unfolding tip
  accept-IsChain client b s t ch auth at parent = elim (accept_cases c k s ch.has_room client b) [
    | inl (fails, same) ↦ rw same ch
    | inr (ib, p, got, hash, q) ↦
        let blocks = s.unconfirmed_block_cache.blocks in
        let end : last_from none blocks ≡ some t = sym (get_last?-last_from blocks) ∙ at in
        let joins : block_hash c t ≡ ib.header.prev_block =
          sym (fixes ib.header b.block_header (hash ∙ sym auth) ∙ parent) in
        let whole = Linked-append c none blocks (ib ∷ []) ch.cache (rw end (joins, tt)) in
        let split : Linked c (p.confirmed ++ p.rest) = rw (p.split) whole in
        let room =
          trimmed-IsChain c k ib s ch p
            (LinkedFrom-Linked c _ p.rest (Linked-right c none p.confirmed p.rest split)) in
        rw q
          (commit-IsChain c k p.confirmed (with_blocks s p.rest) room
            (Linked-left c none p.confirmed p.rest split)).0
  ]

  handle_new_block-IsChain :
      (client : Client) (b : BlockEpoch) (s : BtcPoller)
      → IsChain c k s
      → IsAuthentic c b
      → IsChain c k (handle_new_block c client b s).1
  handle_new_block-IsChain client b s ch auth = elim (new_block_cases c client b s) [
    | inl (t, e, low, q) ↦ rw q ch
    | inr (inl (x, q)) ↦ rw q ch
    | inr (inr (t, e, next, parent, q)) ↦ rw q (accept-IsChain client b s t ch auth e parent)
  ]

  recover-IsChain :
      (start_height : ℕ) (client : Client) (p : Result (Unit {0}) × BtcPoller)
      → IsChain c k p.1
      → IsChain c k (recover c start_height client p.0 p.1).1
  recover-IsChain start_height client (ok u, s) ch = ch
  recover-IsChain start_height client (panic, s) ch = ch
  recover-IsChain start_height client (err e, s) ch =
      bootstrap-IsChain c k client (bootstrap_height start_height s) s deep ch

  pub block_event_loop-IsChain :
      (start_height : ℕ) (es : List Round) (s : BtcPoller)
      → IsChain c k s
      → All (λ e. IsAuthentic c e.block_epoch) es
      → IsChain c k (block_event_loop c start_height es s).1
  unfolding block_event_loop on_block_epoch
  block_event_loop-IsChain start_height [] s ch auth = ch
  block_event_loop-IsChain start_height (e ∷ es) s ch (a, auth) =
      next (on_block_epoch c start_height e s)
        (λ t ch'. block_event_loop-IsChain start_height es t ch' auth)
        (recover-IsChain start_height e.at_bootstrap (handle_new_block c e.at_block e.block_epoch s)
          (handle_new_block-IsChain e.at_block e.block_epoch s ch a))
    where
      next :
          (p : Result (Unit {0}) × BtcPoller)
          → ((t : BtcPoller) → IsChain c k t → IsChain c k (block_event_loop c start_height es t).1)
          → IsChain c k p.1
          → IsChain c k (continue p.0 (λ _. block_event_loop c start_height es) p.1).1
      next (ok u, t) ih ch = ih t ch
      next (err x, t) ih ch = ch
      next (panic, t) ih ch = ch

  start-IsChain :
      (start_height activation_height : ℕ) (polls : List (Result ℕ)) (client : Client) (s : Scanner)
      → IsChain c k s.poller
      → IsChain c k (start c start_height activation_height polls client s).1.poller
  unfolding start
  start-IsChain start_height activation_height polls client s ch = elim (Bool-cases s.is_started) [
    | inl e ↦ rw e ch
    | inr e ↦ rw e (go (wait_until_activation activation_height polls))
  ]
    where
      go :
          (o : Option (Result (Unit {0})))
          → IsChain c k (begin c start_height client (record s { is_started = true }) o).1.poller
      go none = ch
      go (some (ok u)) = bootstrap-IsChain c k client start_height s.poller deep ch
      go (some (err x)) = ch
      go (some panic) = ch

  run_loop-IsChain :
      (start_height : ℕ) (es : List Round) (p : Option (Result (Unit {0})) × Scanner)
      → IsChain c k p.1.poller
      → All (λ e. IsAuthentic c e.block_epoch) es
      → IsChain c k (run_loop c start_height es p).1.poller
  run_loop-IsChain start_height es (some (ok u), s) ch auth =
      block_event_loop-IsChain start_height es s.poller ch auth
  run_loop-IsChain start_height es (some (err x), s) ch auth = ch
  run_loop-IsChain start_height es (some panic, s) ch auth = ch
  run_loop-IsChain start_height es (none, s) ch auth = ch

abbrev pub new_scanner : ℕ → Scanner
new_scanner depth = record {
  poller = record {
    unconfirmed_block_cache = record { blocks = []; max_entries = 100 };
    confirmation_depth = depth;
    confirmed_tip_block = none;
    sent = [];
  };
  is_started = false;
}

-- A new scanner with a confirmation depth from 2 to 100, which is started and handles block epochs
-- whose headers have their hashes, hands on confirmed blocks each of which is the parent of the next,
-- and its confirmed tip is the last of them: whatever the Bitcoin client answers, also where it forks
-- or fails, and whether the run ends with an error or a panic. A block's hash fixes its parent.
pub run-Linked :
    (c : Codec) (depth : ℕ) (s : Scanner) (start_height activation_height : ℕ)
    (polls : List (Result ℕ)) (client : Client) (es : List Round)
    → FixesParent c
    → 2 ≤ depth
    → depth ≤ 100
    → new_btc_scanner depth ≡ ok s
    → All (λ e. IsAuthentic c e.block_epoch) es
    → let t = (run c start_height activation_height polls client es s).1.poller in
      Linked c (confirmed_stream t.sent)
      × (t.confirmed_tip_block ≡ last_from none (confirmed_stream t.sent))
unfolding run new_btc_scanner new_btc_cache
run-Linked c depth s start_height activation_height polls client es fixes low high new auth =
    let same : new_scanner depth ≡ s = cc in
    let ch : IsChain c (depth - 1) s.poller = rw (sym same) (record {
      has_room = record {
        depth = omega (arith, low);
        room = omega (arith, low, high);
        few = omega arith;
      };
      cache = tt;
      stream = tt;
      at_tip = refl;
    }) in
    let end =
      run_loop-IsChain c fixes (depth - 1) (omega (arith, low)) start_height es
        (start c start_height activation_height polls client s)
        (start-IsChain c fixes (depth - 1) (omega (arith, low)) start_height activation_height polls
          client s ch)
        auth in
    (end.stream, end.at_tip)

-- ===== src/System.antt =====
-- The indexer over the scanner: `Start` of indexer/indexer.go, which starts the scanner, and the
-- updates of the scanner, which the indexer handles.
use staking_indexer.Prelude.{
  ℕ, suc, ◌+◌, ◌≤◌, ◌<◌, ◌^◌, pos, Bool, false, Option, some, List, [], ◌∷◌, ◌++◌, All, length,
  if◌then◌else◌, ◌≡◌, ◌⊎◌, ◌∙◌, refl, sym, ap, inl, inr,
}
use staking_indexer.Prelude.Result.{Result, ok, err, panic, Result-cases}
use staking_indexer.Wire.{MsgBlock}
use staking_indexer.Wire.Blocks.{IndexedBlock}
use staking_indexer.Indexer.Types.{StakingIndexer, World}
use staking_indexer.Indexer.Exec.Blind.{Accepts}
use staking_indexer.Indexer.StartHeight.{validate_start_height}
use staking_indexer.Indexer.Block.{handle_confirmed_blocks}
use staking_indexer.Indexer.Unconfirmed.{handle_updates}
use staking_indexer.Indexer.Stream.Updates.{handle_updates-confirmed_stream}
use staking_indexer.Scanner.Cache.{new_btc_cache}
use staking_indexer.Scanner.Poller.{BtcPoller, ChainUpdateInfo, Client, bootstrap}
use staking_indexer.Scanner.Poller.Commits.{confirmed_stream}
use staking_indexer.Scanner.Poller.Complete.{bootstrap_complete}
use staking_indexer.Scanner.Chain.{Linked, LinkedFrom}
use staking_indexer.Scanner.EventLoop.{Scanner, Round, new_btc_scanner, start, run_loop, run}
use staking_indexer.Scanner.EventLoop.Linkage.{new_scanner, IsAuthentic, FixesParent, run-Linked}
use staking_indexer.BtcClient.{BtcClient, RetryLaws, Answers, scanner_client}
use staking_indexer.BtcClient.Bootstraps.{Serves, indexed, bootstrap-Serves}

module _ (si : StakingIndexer) where
  -- The function that `startOnce` runs, after the verdict on the start height.
  abbrev started_with :
      ℕ
      → List (Result ℕ)
      → Client
      → Scanner
      → Result (Unit {0})
      → Option (Result (Unit {0})) × Scanner
  started_with start_height polls client s (ok u) =
      start si.codec start_height si.first_activation_height polls client s
  started_with start_height polls client s (err e) = (some (err e), s)
  started_with start_height polls client s panic = (some panic, s)

  -- The first call starts the scanner, if the start height is valid.
  unfoldable pub start_indexer :
      Bool
      → ℕ
      → List (Result ℕ)
      → Client
      → si.store.Db
      → Scanner
      → Option (Result (Unit {0})) × Scanner
  start_indexer is_started start_height polls client db s =
      if is_started
      then (some (ok tt), s)
      else started_with start_height polls client s (validate_start_height si start_height db)

  -- The scanner after the start of the indexer and some block epochs.
  unfoldable pub run_indexer :
      ℕ
      → List (Result ℕ)
      → Client
      → List Round
      → si.store.Db
      → Scanner
      → Option (Result (Unit {0})) × Scanner
  unfolding start_indexer
  run_indexer start_height polls client es db s =
      run_loop si.codec start_height es (start_indexer false start_height polls client db s)

module _ {si : StakingIndexer} (accepts : Accepts si) where
  handled :
      (us : List ChainUpdateInfo) (w : World si)
      → ((handle_updates si us w).0 ≡ panic)
        ⊎ (((handle_updates si us w).0 ≡ (handle_confirmed_blocks si (confirmed_stream us) w).0)
            × ((handle_updates si us w).1.db
                ≡ (handle_confirmed_blocks si (confirmed_stream us) w).1.db))
  handled us w = elim (Result-cases (handle_updates si us w).0) [
    | inr (inr e) ↦ inl e
    | inr (inl (x, e)) ↦ inr (handle_updates-confirmed_stream accepts us w w refl (λ p. cc))
    | inl (u, e) ↦ inr (handle_updates-confirmed_stream accepts us w w refl (λ p. cc))
  ]

  ran :
      (start_height : ℕ) (polls : List (Result ℕ)) (client : Client) (es : List Round) (s : Scanner)
      (r : Result (Unit {0}))
      → Linked si.codec (confirmed_stream s.poller.sent)
      → Linked si.codec (
          confirmed_stream
            (run si.codec start_height si.first_activation_height polls client es s).1.poller.sent)
      → Linked si.codec (
          confirmed_stream
            (run_loop si.codec start_height es
              (started_with si start_height polls client s r)).1.poller.sent)
  unfolding run
  ran start_height polls client es s (ok u) before after = after
  ran start_height polls client es s (err e) before after = before
  ran start_height polls client es s panic before after = before

  -- A new scanner with a confirmation depth from 2 to 100 is run by the indexer, with block epochs whose
  -- headers have their hashes, where a block's hash fixes its parent and the consumer takes every event.
  -- Whatever the Bitcoin client answers, the confirmed blocks of all the updates are one chain, each the
  -- parent of the next, and handling the updates, unless it panics, returns and leaves in the database
  -- what handling that chain as one list does.
  pub run_indexer-Linked :
      (depth : ℕ) (s : Scanner) (start_height : ℕ) (polls : List (Result ℕ)) (client : Client)
      (es : List Round) (w : World si)
      → FixesParent si.codec
      → 2 ≤ depth
      → depth ≤ 100
      → new_btc_scanner depth ≡ ok s
      → All (λ e. IsAuthentic si.codec e.block_epoch) es
      → let updates = (run_indexer si start_height polls client es w.db s).1.poller.sent in
        Linked si.codec (confirmed_stream updates)
        × (((handle_updates si updates w).0 ≡ panic)
            ⊎ (((handle_updates si updates w).0
                  ≡ (handle_confirmed_blocks si (confirmed_stream updates) w).0)
                × ((handle_updates si updates w).1.db
                    ≡ (handle_confirmed_blocks si (confirmed_stream updates) w).1.db)))
  unfolding run_indexer start_indexer new_btc_scanner new_btc_cache
  run_indexer-Linked depth s start_height polls client es w fixes low high new auth =
      let (l, at_tip) =
        run-Linked si.codec depth s start_height si.first_activation_height polls client es fixes
          low high new auth in
      let fresh : Linked si.codec (confirmed_stream s.poller.sent) =
        let q : new_scanner depth ≡ s = cc in rw (sym q) tt in
      let updates = (run_indexer si start_height polls client es w.db s).1.poller.sent in
      (
        ran start_height polls client es s (validate_start_height si start_height w.db) fresh l,
        handled updates w,
      )

  -- Where a node serves a chain of blocks from the start height to its tip, as the Bitcoin client needs
  -- it: the bootstrap of a poller that has sent nothing succeeds, and handling the updates that it sent,
  -- unless it panics, returns and leaves in the database what handling the blocks of the node in order
  -- does, all but the last of them, fewer than the confirmation depth; where the consumer takes every
  -- event and the retry function keeps its laws.
  pub bootstrap-handled :
      (c : BtcClient) (k start_height : ℕ) (b : MsgBlock) (bs : List MsgBlock) (s : BtcPoller)
      (w : World si)
      → RetryLaws c.retry
      → s.confirmation_depth ≡ suc k
      → k < s.unconfirmed_block_cache.max_entries
      → s.sent ≡ []
      → Answers c.max_retry_times c.client.get_block_count (pos (start_height + length bs))
      → start_height + length (b ∷ bs) ≤ 2 ^ 31
      → Serves c start_height (b ∷ bs)
      → LinkedFrom si.codec s.confirmed_tip_block (indexed start_height (b ∷ bs))
      → (t : BtcPoller) × (confirmed : List IndexedBlock) × (rest : List IndexedBlock) × (bootstrap
            si.codec
            (scanner_client c)
            start_height
            s
          ≡ (ok tt, t))
        × (confirmed ++ rest ≡ indexed start_height (b ∷ bs))
        × (length rest ≤ k)
        × (((handle_updates si t.sent w).0 ≡ panic)
            ⊎ (((handle_updates si t.sent w).0 ≡ (handle_confirmed_blocks si confirmed w).0)
                × ((handle_updates si t.sent w).1.db
                    ≡ (handle_confirmed_blocks si confirmed w).1.db)))
  bootstrap-handled c k start_height b bs s w laws depth room fresh count low serves linked =
      let (t, e, all) =
        bootstrap-Serves c laws si.codec k start_height b bs s depth room count low serves linked in
      let (tip, got, at_tip, range, f, kept, few) =
        bootstrap_complete si.codec (scanner_client c) k start_height s t depth room e in
      (
        t,
        confirmed_stream t.sent,
        t.unconfirmed_block_cache.blocks,
        e,
        all ∙ ap (λ us. confirmed_stream us ++ indexed start_height (b ∷ bs)) fresh,
        few,
        handled t.sent w,
      )

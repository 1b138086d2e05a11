-- ===== src/BtcClient/Bootstraps.antt =====
-- The scanner over the Bitcoin client: a node that serves a chain, where calls may fail and are
-- retried, is synced without loss.
use staking_indexer.Prelude.{
  ℕ, zero, suc, ◌+◌, ◌-◌, ◌<◌, ◌≤◌, ◌^◌, pos, List, [], ◌∷◌, ◌++◌, ◌≡◌, ◌∙◌, refl, sym, arith,
  length,
}
use staking_indexer.Prelude.Result.{ok}
use staking_indexer.Wire.{Codec, MsgBlock}
use staking_indexer.Wire.Blocks.{IndexedBlock, new_indexed_block_from_msg_block}
use staking_indexer.Scanner.Poller.{BtcPoller, Client, bootstrap}
use staking_indexer.Scanner.Poller.Commits.{confirmed_stream}
use staking_indexer.Scanner.Poller.Complete.{Fetched, bootstrap_complete}
use staking_indexer.Scanner.Chain.{LinkedFrom}
use staking_indexer.Scanner.Chain.Syncs.{bootstrap_succeeds}
use staking_indexer.BtcClient.{BtcClient, RetryLaws, Answers, scanner_client}
use staking_indexer.BtcClient.Retried.{Has, get_block_by_height-Has, get_tip_height-Answers}

Fetched-unique :
    (client : Client) (n height : ℕ) (bs cs : List IndexedBlock)
    → Fetched client n height bs
    → Fetched client n height cs
    → bs ≡ cs
Fetched-unique client zero height bs cs f g = f ∙ sym g
Fetched-unique client (suc n) height bs cs (b, bs', p, e, f) (b', cs', p', e', f') =
    let same : b ≡ b' = cc in
    let rest = Fetched-unique client n (height + 1) bs' cs' f f' in rw (e, e', same, rest) refl

-- The blocks of consecutive heights, as the client wraps them.
abbrev pub indexed : ℕ → List MsgBlock → List IndexedBlock
indexed height [] = []
indexed height (b ∷ bs) = new_indexed_block_from_msg_block (pos height) b ∷ indexed (height + 1) bs

module _ (c : BtcClient) where
  -- The node has the blocks, at consecutive heights.
  abbrev pub Serves : ℕ → List MsgBlock → Type 0
  Serves height [] = Unit
  Serves height (b ∷ bs) = Has c height b × Serves (height + 1) bs

  module _ (laws : RetryLaws c.retry) where
    Serves-Fetched :
        (height : ℕ) (bs : List MsgBlock)
        → height + length bs ≤ 2 ^ 31
        → Serves height bs
        → Fetched (scanner_client c) (length bs) height (indexed height bs)
    unfolding scanner_client
    Serves-Fetched height [] low s = refl
    Serves-Fetched height (b ∷ bs) low (h, s) = (
      new_indexed_block_from_msg_block (pos height) b,
      indexed (height + 1) bs,
      get_block_by_height-Has c laws height b (omega (arith, low)) h,
      refl,
      Serves-Fetched (height + 1) bs (omega (arith, low)) s,
    )

    -- Where the node answers every call at one of the attempts, the tip is the last of some blocks from
    -- the start height on, below 2 ^ 31, and they follow one another and the confirmed tip, if there is
    -- one: a bootstrap succeeds, and the poller holds these blocks behind those that it sent as
    -- confirmed before, as sent or in the cache; for a confirmation depth of at most the cache's size.
    pub bootstrap-Serves :
        (codec : Codec) (k start_height : ℕ) (b : MsgBlock) (bs : List MsgBlock) (s : BtcPoller)
        → s.confirmation_depth ≡ suc k
        → k < s.unconfirmed_block_cache.max_entries
        → Answers c.max_retry_times c.client.get_block_count (pos (start_height + length bs))
        → start_height + length (b ∷ bs) ≤ 2 ^ 31
        → Serves start_height (b ∷ bs)
        → LinkedFrom codec s.confirmed_tip_block (indexed start_height (b ∷ bs))
        → (t : BtcPoller) × (bootstrap codec (scanner_client c) start_height s ≡ (ok tt, t))
          × (confirmed_stream t.sent ++ t.unconfirmed_block_cache.blocks
              ≡ confirmed_stream s.sent ++ indexed start_height (b ∷ bs))
    unfolding scanner_client
    bootstrap-Serves codec k start_height b bs s depth room count low serves linked =
        let at_tip =
          get_tip_height-Answers c laws (start_height + length bs) (omega (arith, low)) count in
        let n : start_height + length bs + 1 - start_height ≡ length (b ∷ bs) = omega arith in
        let fetched : Fetched (scanner_client c) (start_height + length bs + 1 - start_height)
            start_height (indexed start_height (b ∷ bs)) =
          rw n (Serves-Fetched start_height (b ∷ bs) low serves) in
        let (t, e) =
          bootstrap_succeeds codec k (scanner_client c) start_height (start_height + length bs)
            (indexed start_height (b ∷ bs)) s depth room at_tip (omega arith) fetched linked in
        let (tip, got, at_tip', range, f, all, few) =
          bootstrap_complete codec (scanner_client c) k start_height s t depth room e in
        let same : tip ≡ start_height + length bs = cc in
        let blocks =
          Fetched-unique (scanner_client c) (start_height + length bs + 1 - start_height)
            start_height got (indexed start_height (b ∷ bs)) (rw (same) at f) fetched in
        (t, e, rw (sym blocks) all)

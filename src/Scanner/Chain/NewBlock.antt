-- ===== src/Scanner/Chain/NewBlock.antt =====
-- What `HandleNewBlock` does to the blocks that the poller holds.
use staking_indexer.Prelude.{
  ℕ, ◌≤◌, some, List, [], ◌∷◌, ◌++◌, ◌≡◌, ◌≢◌, ◌⊎◌, ◌∙◌, sym, ap, inl, inr, to_u64, ◌≤ℤ◌, length,
  append_assoc,
}
use staking_indexer.Prelude.Result.{pair-eq, Error, ok, err, panic}
use staking_indexer.Wire.{Codec}
use staking_indexer.Wire.Blocks.{IndexedBlock, block_hash}
use staking_indexer.Scanner.Cache.{tip}
use staking_indexer.Scanner.Poller.{BtcPoller, Client, BlockEpoch, handle_new_block}
use staking_indexer.Scanner.Poller.Commits.{confirmed_stream, confirmed_stream-append}
use staking_indexer.Scanner.Poller.Rounds.{HasRoom, with_blocks}
use staking_indexer.Scanner.Chain.Outcomes.{commit_cases, accept_cases, new_block_cases}
use staking_indexer.Prelude.Result.{Result-cases}

module _ (c : Codec) (client : Client) (k : ℕ) (b : BlockEpoch) (s : BtcPoller) where
  -- The block that the client has at the height of the epoch has its hash, follows the tip of the
  -- cache, and lies behind the blocks that were sent as confirmed, or in the cache, and at most `k`
  -- blocks are in the cache.
  pub record HasJoined (t : BtcPoller) : Type 0 where
    pub ib : IndexedBlock
    pub cache_tip : IndexedBlock
    pub at_height : client.get_block_by_height (to_u64 b.height) ≡ ok ib
    pub same_hash : block_hash c ib ≡ b.hash
    pub at_tip : tip s.unconfirmed_block_cache ≡ some cache_tip
    pub parent : b.block_header.prev_block ≡ block_hash c cache_tip
    pub kept :
        confirmed_stream t.sent ++ t.unconfirmed_block_cache.blocks
        ≡ (confirmed_stream s.sent ++ s.unconfirmed_block_cache.blocks) ++ ib ∷ []
    pub few : length t.unconfirmed_block_cache.blocks ≤ k

  pub kept-lists :
      (stream blocks confirmed rest : List IndexedBlock) (ib : IndexedBlock)
      → confirmed ++ rest ≡ blocks ++ ib ∷ []
      → (stream ++ confirmed) ++ rest ≡ (stream ++ blocks) ++ ib ∷ []
  kept-lists stream blocks confirmed rest ib e =
      append_assoc stream confirmed rest
      ∙ ap (λ l. stream ++ l) e
      ∙ sym (append_assoc stream blocks (ib ∷ []))

  -- Where the cache has room for the confirmation depth and handling a block epoch does not panic: the
  -- epoch is not above the cache's tip and is passed over, or its block joins the blocks that the
  -- poller holds, and none of those is lost, or an error is returned and nothing has changed.
  pub handle_new_block_lem :
      HasRoom k s
      → (handle_new_block c client b s).0 ≢ panic
      → ((t : IndexedBlock) × (tip s.unconfirmed_block_cache ≡ some t)
          × (b.height ≤ℤ t.height)
          × (handle_new_block c client b s ≡ (ok tt, s)))
        ⊎ (((handle_new_block c client b s).0 ≡ ok tt)
            × HasJoined (handle_new_block c client b s).1)
        ⊎ ((x : Error) × (handle_new_block c client b s ≡ (err x, s)))
  unfolding with_blocks
  handle_new_block_lem room calm = elim (new_block_cases c client b s) [
    | inl low ↦ inl low
    | inr (inl (x, q)) ↦ inr (inr (x, q))
    | inr (inr (t, e, next, parent, q)) ↦ elim (accept_cases c k s room client b) [
      | inl (fails, same) ↦ elim (Result-cases (handle_new_block c client b s).0) [
        | inl (u, r) ↦ absurd (fails (ap (λ p. p.0) (sym q) ∙ r))
        | inr (inl (x, r)) ↦ inr (inr (x, pair-eq _ (err x) s r (ap (λ p. p.1) q ∙ same)))
        | inr (inr r) ↦ absurd (calm r)
      ]
      | inr (ib, p, got, hash, a) ↦
          elim (commit_cases c k p.confirmed (with_blocks s p.rest) room.depth) [
            | inl (f, m) ↦ absurd (calm (ap (λ p. p.0) (q ∙ a ∙ m)))
            | inr (f, un, m) ↦
                let total = q ∙ a ∙ m in
                inr (
                  inl (
                    ap (λ p. p.0) total,
                    rw total (record {
                      ib = ib;
                      cache_tip = t;
                      at_height = got;
                      same_hash = hash;
                      at_tip = e;
                      parent = parent;
                      kept =
                          rw
                            (confirmed_stream-append s.sent
                              (record { confirmed_blocks = p.confirmed; unconfirmed_blocks = un }))
                            (kept-lists (confirmed_stream s.sent) s.unconfirmed_block_cache.blocks
                              p.confirmed p.rest ib p.split);
                      few = p.few;
                    }),
                  ))
          ]
    ]
  ]

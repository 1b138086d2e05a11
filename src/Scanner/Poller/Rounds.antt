-- ===== src/Scanner/Poller/Rounds.antt =====
-- One round of the loop of `Bootstrap`, where the cache has room for what trimming keeps: the new
-- block joins the blocks that were sent, wait, or lie in the cache, and none of those is lost.
use staking_indexer.Prelude.{
  ℕ, suc, ◌<◌, ◌≤◌, pos, List, [], ◌∷◌, ◌++◌, ◌≡◌, ◌∙◌, sym, ap, arith, length, append_assoc,
}
use staking_indexer.Prelude.Result.{ok}
use staking_indexer.Wire.{Codec}
use staking_indexer.Wire.Blocks.{IndexedBlock}
use staking_indexer.Scanner.Cache.{add, trim_confirmed_blocks}
use staking_indexer.Scanner.Cache.Bounds.{add-eq, trim_confirmed_blocks_lem}
use staking_indexer.Scanner.Poller.{
  BtcPoller, Client, ◌>>=◌, lift, on_cache, commit_batch, bootstrap_block,
}
use staking_indexer.Scanner.Poller.Commits.{
  act-ok, fst-eq, snd-eq, confirmed_stream, Batched, commit_batch-Batched,
}

-- The cache has room for the `k` blocks that trimming keeps and one more, and holds `k` at most.
pub record HasRoom (k : ℕ) (s : BtcPoller) : Type 0 where
  pub depth : s.confirmation_depth ≡ suc k
  pub room : k < s.unconfirmed_block_cache.max_entries
  pub few : length s.unconfirmed_block_cache.blocks ≤ k

unfoldable pub with_blocks : BtcPoller → List IndexedBlock → BtcPoller
with_blocks s bs = record s {
  unconfirmed_block_cache = record s.unconfirmed_block_cache { blocks = bs };
}

on_add :
    (k : ℕ) (ib : IndexedBlock) (s t : BtcPoller) (u : Unit {0})
    → HasRoom k s
    → on_cache (add ib) s ≡ (ok u, t)
    → t ≡ with_blocks s (s.unconfirmed_block_cache.blocks ++ ib ∷ [])
unfolding on_cache with_blocks
on_add k ib s t u r h =
    let a = r.room in
    let b = r.few in
    let (n, e, z, _, l) =
      add-eq ib s.unconfirmed_block_cache (omega (arith, a), omega (arith, a, b)) in
    let zero_n = z (omega (arith, a, b)) in sym (snd-eq (rw (e, zero_n) at h))

on_trim :
    (k : ℕ) (s t : BtcPoller) (more : List IndexedBlock)
    → on_cache (trim_confirmed_blocks (pos k)) s ≡ (ok more, t)
    → (rest : List IndexedBlock) × (t ≡ with_blocks s rest)
      × (more ++ rest ≡ s.unconfirmed_block_cache.blocks)
      × (length rest ≤ k)
unfolding on_cache with_blocks
on_trim k s t more h =
    let (res, rest, e, split, few, exact) = trim_confirmed_blocks_lem k s.unconfirmed_block_cache in
    let h' = rw e at h in
    let same : res ≡ more = cc (fst-eq h') in (rest, sym (snd-eq h'), rw (sym same) split, few)

module _ (c : Codec) where
  -- Everything that was handed on or waits: sent, gathered, or in the cache.
  abbrev pub all_blocks : BtcPoller → List IndexedBlock → List IndexedBlock
  all_blocks s acc = confirmed_stream s.sent ++ (acc ++ s.unconfirmed_block_cache.blocks)

  list_step :
      (sent sent' acc acc' more rest cache new : List IndexedBlock)
      → sent' ++ acc' ≡ sent ++ (acc ++ more)
      → more ++ rest ≡ cache ++ new
      → sent' ++ (acc' ++ rest) ≡ (sent ++ (acc ++ cache)) ++ new
  list_step sent sent' acc acc' more rest cache new p q =
      sym (append_assoc sent' acc' rest)
      ∙ ap (λ l. l ++ rest) p
      ∙ append_assoc sent (acc ++ more) rest
      ∙ ap (λ l. sent ++ l)
          (append_assoc acc more rest ∙ ap (λ l. acc ++ l) q ∙ sym (append_assoc acc cache new))
      ∙ sym (append_assoc sent (acc ++ cache) new)

  round_end :
      (k : ℕ) (ib : IndexedBlock) (acc more acc' rest : List IndexedBlock) (s t : BtcPoller)
      → HasRoom k s
      → more ++ rest ≡ s.unconfirmed_block_cache.blocks ++ ib ∷ []
      → length rest ≤ k
      → Batched (acc ++ more) acc' (with_blocks s rest) t
      → HasRoom k t × (all_blocks t acc' ≡ all_blocks s acc ++ ib ∷ [])
  unfolding with_blocks
  round_end k ib acc more acc' rest s t r split few b =
      let cache = b.same_cache in
      (
        record { depth = b.same_depth ∙ r.depth; room = rw cache r.room; few = rw cache few },
        rw cache (
            list_step (confirmed_stream s.sent) (confirmed_stream t.sent) acc acc' more rest
              s.unconfirmed_block_cache.blocks (ib ∷ []) b.kept split),
      )

  round_trim :
      (k : ℕ) (ib : IndexedBlock) (acc acc' : List IndexedBlock) (s t : BtcPoller)
      → HasRoom k s
      → (on_cache (trim_confirmed_blocks (pos k)) >>= λ more. commit_batch c (acc ++ more))
          (with_blocks s (s.unconfirmed_block_cache.blocks ++ ib ∷ []))
        ≡ (ok acc', t)
      → HasRoom k t × (all_blocks t acc' ≡ all_blocks s acc ++ ib ∷ [])
  unfolding with_blocks
  round_trim k ib acc acc' s t r h =
      let (more, s5, e5, h5) =
        act-ok (on_cache (trim_confirmed_blocks (pos k))) (λ more. commit_batch c (acc ++ more))
          (with_blocks s (s.unconfirmed_block_cache.blocks ++ ib ∷ [])) t acc' h in
      let (rest, q, split, few) =
        on_trim k (with_blocks s (s.unconfirmed_block_cache.blocks ++ ib ∷ [])) s5 more e5 in
      round_end k ib acc more acc' rest s t r split few
        (commit_batch-Batched c (acc ++ more) acc' _ t (rw q at h5))

  pub round_lem :
      (client : Client) (k height : ℕ) (acc acc' : List IndexedBlock) (s t : BtcPoller)
      → HasRoom k s
      → bootstrap_block c client height acc s ≡ (ok acc', t)
      → HasRoom k t
        × (ib : IndexedBlock) × (client.get_block_by_height height ≡ ok ib)
        × (all_blocks t acc' ≡ all_blocks s acc ++ ib ∷ [])
  unfolding bootstrap_block lift with_blocks
  round_lem client k height acc acc' s t r h =
      let (ib, s1, e1, h1) = act-ok (lift (client.get_block_by_height height)) _ s t acc' h in
      let (x2, s2, e2, h2) = act-ok _ _ s1 t acc' h1 in
      let (x3, s3, e3, h3) = act-ok (on_cache (add ib)) _ s2 t acc' h2 in
      let q2 : s2 ≡ s = sym (snd-eq e2) ∙ sym (snd-eq e1) in
      let q3 = on_add k ib s s3 x3 r (rw q2 at e3) in
      let (d, s4, e4, h4) =
        act-ok (λ (x : BtcPoller). (ok x.confirmation_depth, x)) _ s3 t acc' h3 in
      let q4 : s4 ≡ s3 = sym (snd-eq e4) in
      let d3 : s3.confirmation_depth ≡ d = cc (fst-eq e4) in
      let depth : d ≡ suc k = sym d3 ∙ ap (λ (x : BtcPoller). x.confirmation_depth) q3 ∙ r.depth in
      let (room, total) = round_trim k ib acc acc' s t r (rw (q4, q3, depth) at h4) in
      (room, ib, fst-eq e1, total)

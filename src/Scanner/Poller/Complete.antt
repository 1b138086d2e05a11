-- ===== src/Scanner/Poller/Complete.antt =====
-- A bootstrap that succeeds loses no block: what was sent as confirmed, and what the cache holds.
use staking_indexer.Prelude.{
  ℕ, zero, suc, ◌+◌, ◌-◌, ◌<◌, ◌≤◌, List, [], ◌∷◌, ◌++◌, ◌≡◌, ◌∙◌, refl, sym, ap, inl, inr, arith,
  length, Bool-cases, append-nil, append_assoc, ltb, not, ◌==◌,
}
use staking_indexer.Prelude.Result.{
  ok, guard, guard-ok, start_above_tip, or_fail, or_fail-ok, no_tip_height,
}
use staking_indexer.Wire.{Codec}
use staking_indexer.Wire.Blocks.{IndexedBlock}
use staking_indexer.Scanner.Cache.{remove_all}
use staking_indexer.Scanner.Poller.{
  BtcPoller, Client, lift, on_cache, done, bootstrap_block, bootstrap_loop, commit_rest, bootstrap,
  get_unconfirmed_blocks,
}
use staking_indexer.Scanner.Poller.Commits.{
  act-ok, fst-eq, snd-eq, confirmed_stream, Committed, commit-Committed,
}
use staking_indexer.Scanner.Poller.Rounds.{HasRoom, all_blocks, round_lem}

-- The client answered with `bs` for the `n` heights from `height` on.
abbrev pub Fetched : Client → ℕ → ℕ → List IndexedBlock → Type 0
Fetched client zero height bs = bs ≡ []
Fetched client (suc n) height bs =
    (ib : IndexedBlock) × (rest : List IndexedBlock) × (client.get_block_by_height height ≡ ok ib)
    × (bs ≡ ib ∷ rest)
    × Fetched client n (height + 1) rest

module _ (c : Codec) where
  loop_lem :
      (client : Client) (k n height : ℕ) (acc acc' : List IndexedBlock) (s t : BtcPoller)
      → HasRoom k s
      → bootstrap_loop c client n height acc s ≡ (ok acc', t)
      → HasRoom k t
        × (bs : List IndexedBlock) × Fetched client n height bs
        × (all_blocks c t acc' ≡ all_blocks c s acc ++ bs)
  unfolding bootstrap_loop done
  loop_lem client k zero height acc acc' s t r h =
      let q = snd-eq h in
      let a : acc ≡ acc' = cc (fst-eq h) in rw (sym q, sym a) (r, [], refl, sym (append-nil _))
  loop_lem client k (suc n) height acc acc' s t r h =
      let (acc1, s1, e1, h1) = act-ok (bootstrap_block c client height acc) _ s t acc' h in
      let (r1, ib, got, total) = round_lem c client k height acc acc1 s s1 r e1 in
      let (r2, bs, fetched, more) = loop_lem client k n (height + 1) acc1 acc' s1 t r1 h1 in
      (
        r2,
        ib ∷ bs,
        (ib, bs, got, refl, fetched),
        more ∙ ap (λ l. l ++ bs) total ∙ append_assoc (all_blocks c s acc) (ib ∷ []) bs,
      )

  rest-Committed :
      (acc : List IndexedBlock) (s t : BtcPoller)
      → commit_rest c acc s ≡ (ok tt, t)
      → Committed acc s t
  unfolding commit_rest done
  rest-Committed (b ∷ bs) s t h = commit-Committed c (b ∷ bs) s t tt h
  rest-Committed [] s t h =
      let (un, s1, e1, h1) = act-ok (λ (x : BtcPoller). (get_unconfirmed_blocks x, x)) _ s t tt h in
      let q : s1 ≡ s = sym (snd-eq e1) in
      elim (Bool-cases (length un == 0)) [
        | inl e ↦
            rw (sym (snd-eq (rw (e, q) at h1)))
              (record { same_cache = refl; same_depth = refl; sent = sym (append-nil _) })
        | inr e ↦ commit-Committed c [] s t tt (rw (e, q) at h1)
      ]

  -- The loop from an empty cache, and the last commit.
  boot_end :
      (client : Client) (k n start : ℕ) (acc : List IndexedBlock) (s s4 t : BtcPoller)
      → HasRoom k s
      → s.unconfirmed_block_cache.blocks ≡ []
      → bootstrap_loop c client n start [] s ≡ (ok acc, s4)
      → commit_rest c acc s4 ≡ (ok tt, t)
      → (bs : List IndexedBlock) × Fetched client n start bs
        × (confirmed_stream t.sent ++ t.unconfirmed_block_cache.blocks
            ≡ confirmed_stream s.sent ++ bs)
        × (length t.unconfirmed_block_cache.blocks ≤ k)
  boot_end client k n start acc s s4 t r empty e h =
      let (r4, bs, fetched, total) = loop_lem client k n start [] acc s s4 r e in
      let d = rest-Committed acc s4 t h in
      let same = d.same_cache in
      let blocks = s4.unconfirmed_block_cache.blocks in
      (
        bs,
        fetched,
        rw (same, d.sent)
            (append_assoc (confirmed_stream s4.sent) acc blocks
              ∙ total
              ∙ ap (λ l. (confirmed_stream s.sent ++ l) ++ bs) empty
              ∙ ap (λ l. l ++ bs) (append-nil (confirmed_stream s.sent))),
        rw same r4.few,
      )

  -- For a confirmation depth of `k + 1` at most the size of the cache, a bootstrap that succeeds from a
  -- start height fetched the blocks from there to the tip, and lost none: the confirmed blocks sent
  -- afterwards, with those in the cache behind them, are the confirmed blocks sent before, with the
  -- fetched blocks behind them, in order. At most `k` blocks stay in the cache.
  pub bootstrap_complete :
      (client : Client) (k start : ℕ) (s t : BtcPoller)
      → s.confirmation_depth ≡ suc k
      → k < s.unconfirmed_block_cache.max_entries
      → bootstrap c client start s ≡ (ok tt, t)
      → (tip_height : ℕ) × (bs : List IndexedBlock) × (client.get_tip_height ≡ ok tip_height)
        × (start ≤ tip_height)
        × Fetched client (tip_height + 1 - start) start bs
        × (confirmed_stream t.sent ++ t.unconfirmed_block_cache.blocks
            ≡ confirmed_stream s.sent ++ bs)
        × (length t.unconfirmed_block_cache.blocks ≤ k)
  unfolding bootstrap remove_all lift on_cache
  bootstrap_complete client k start s t depth room h =
      let (x1, s1, e1, h1) = act-ok (on_cache (λ b. (ok tt, remove_all b))) _ s t tt h in
      let (tip_height, s2, e2, h2) =
        act-ok (lift (or_fail client.get_tip_height no_tip_height)) _ s1 t tt h1 in
      let (x3, s3, e3, h3) =
        act-ok (lift (guard (not (ltb tip_height start)) start_above_tip)) _ s2 t tt h2 in
      let (acc, s4, e4, h4) =
        act-ok (bootstrap_loop c client (tip_height + 1 - start) start []) (commit_rest c) s3 t tt
          h3 in
      let q3 : s3 ≡ s1 = sym (snd-eq e3) ∙ sym (snd-eq e2) in
      let q1 = sym (snd-eq e1) in
      let in_range = guard-ok _ _ (fst-eq e3) in
      let r : HasRoom k s1 = rw q1 (record { depth = depth; room = room; few = omega arith }) in
      let (bs, fetched, all, few) =
        boot_end client k (tip_height + 1 - start) start acc s1 s4 t r
          (ap (λ (x : BtcPoller). x.unconfirmed_block_cache.blocks) q1) (rw q3 at e4) h4 in
      let sent : confirmed_stream s1.sent ≡ confirmed_stream s.sent =
        ap (λ (x : BtcPoller). confirmed_stream x.sent) q1 in
      (
        tip_height,
        bs,
        or_fail-ok client.get_tip_height no_tip_height (fst-eq e2),
        ground (arith, in_range),
        fetched,
        all ∙ ap (λ l. l ++ bs) sent,
        few,
      )

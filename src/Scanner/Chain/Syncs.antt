-- ===== src/Scanner/Chain/Syncs.antt =====
-- A bootstrap over blocks that follow the confirmed tip and one another does not fail.
use staking_indexer.Prelude.{
  ℕ, zero, suc, ◌+◌, ◌-◌, ◌<◌, ◌≤◌, true, false, Option, none, List, [], ◌∷◌, ◌++◌, ◌≡◌, ◌∙◌, refl,
  sym, ap, inl, inr, arith, length, leb, ltb, ◌==◌, Bool-cases, append_assoc,
}
use staking_indexer.Prelude.Result.{ok}
use staking_indexer.Wire.{Codec}
use staking_indexer.Wire.Blocks.{IndexedBlock}
use staking_indexer.Scanner.Cache.{tip, remove_all}
use staking_indexer.Scanner.Poller.{
  BtcPoller, Client, ◌>>=◌, done, lift, on_cache, connects, commit_chain_update, commit_batch,
  commit_rest, bootstrap_block, bootstrap_loop, bootstrap, confirmed_block_batch_size,
}
use staking_indexer.Scanner.Poller.Rounds.{HasRoom, with_blocks}
use staking_indexer.Scanner.Poller.Complete.{Fetched}
use staking_indexer.Scanner.Chain.{
  Follows, LinkedFrom, Linked-left, Linked-right, LinkedFrom-follows, Follows-connects, last_from,
  new_tip-last_from, get_last?-last_from,
}
use staking_indexer.Scanner.Chain.Outcomes.{
  pushed, commit_cases, round_cases, get_unconfirmed_blocks-ok,
}

module _ (c : Codec) (k : ℕ) where
  -- The blocks that wait, those in the cache and those to come follow the confirmed tip.
  pub record IsAhead (acc bs : List IndexedBlock) (s : BtcPoller) : Type 0 where
    pub has_room : HasRoom k s
    pub linked :
        LinkedFrom c s.confirmed_tip_block (acc ++ (s.unconfirmed_block_cache.blocks ++ bs))

  commit_syncs :
      (acc bs : List IndexedBlock) (s : BtcPoller)
      → IsAhead acc bs s
      → (t : BtcPoller) × (commit_chain_update c acc s ≡ (ok tt, t)) × IsAhead [] bs t
  commit_syncs acc bs s a =
      let rest = s.unconfirmed_block_cache.blocks ++ bs in
      let f =
        LinkedFrom-follows c s.confirmed_tip_block acc
          (Linked-left c s.confirmed_tip_block acc rest a.linked) in
      elim (commit_cases c k acc s a.has_room.depth) [
        | inl (e, q) ↦ absurd (cc (e, f))
        | inr (e, un, q) ↦ (
          pushed c s acc un,
          q,
          record {
            has_room = record {
              depth = a.has_room.depth;
              room = a.has_room.room;
              few = a.has_room.few;
            };
            linked =
                rw (new_tip-last_from c s.confirmed_tip_block acc)
                  (Linked-right c s.confirmed_tip_block acc rest a.linked);
          },
        )
      ]

  batch_syncs :
      (acc bs : List IndexedBlock) (s : BtcPoller)
      → IsAhead acc bs s
      → (acc' : List IndexedBlock) × (t : BtcPoller) × (commit_batch c acc s ≡ (ok acc', t))
        × IsAhead acc' bs t
  unfolding commit_batch ◌>>=◌ done
  batch_syncs acc bs s a = elim (Bool-cases (leb confirmed_block_batch_size (length acc))) [
    | inr e ↦ (acc, s, rw e refl, a)
    | inl e ↦ let (t, q, a') = commit_syncs acc bs s a in ([], t, rw (e, q) refl, a')
  ]

  Follows-nearer :
      (o : Option IndexedBlock) (xs : List IndexedBlock) (b : IndexedBlock)
      → Follows c (last_from o xs) b
      → Follows c (last_from none xs) b
  Follows-nearer o [] b f = tt
  Follows-nearer o (x ∷ xs) b f = f

  ahead-connects :
      (acc bs : List IndexedBlock) (ib : IndexedBlock) (s : BtcPoller)
      → IsAhead acc (ib ∷ bs) s
      → connects c (tip s.unconfirmed_block_cache) ib ≡ true
  unfolding tip
  ahead-connects acc bs ib s a =
      let blocks = s.unconfirmed_block_cache.blocks in
      let o = s.confirmed_tip_block in
      let (f, l) =
        Linked-right c (last_from o acc) blocks (ib ∷ bs)
          (Linked-right c o acc (blocks ++ ib ∷ bs) a.linked) in
      rw (get_last?-last_from blocks) (
        Follows-connects c (last_from none blocks) ib
          (Follows-nearer (last_from o acc) blocks ib f))

  trimmed-lists :
      (acc confirmed rest blocks bs : List IndexedBlock) (ib : IndexedBlock)
      → confirmed ++ rest ≡ blocks ++ ib ∷ []
      → acc ++ (blocks ++ ib ∷ bs) ≡ (acc ++ confirmed) ++ (rest ++ bs)
  trimmed-lists acc confirmed rest blocks bs ib e =
      ap (λ l. acc ++ l)
        (sym (append_assoc blocks (ib ∷ []) bs)
          ∙ ap (λ l. l ++ bs) (sym e)
          ∙ append_assoc confirmed rest bs)
      ∙ sym (append_assoc acc confirmed (rest ++ bs))

  round_syncs :
      (client : Client) (height : ℕ) (acc bs : List IndexedBlock) (ib : IndexedBlock)
      (s : BtcPoller)
      → IsAhead acc (ib ∷ bs) s
      → client.get_block_by_height height ≡ ok ib
      → (acc' : List IndexedBlock) × (t : BtcPoller) × (bootstrap_block c client height acc s
          ≡ (ok acc', t))
        × IsAhead acc' bs t
  unfolding with_blocks
  round_syncs client height acc bs ib s a got =
      elim (round_cases c k s a.has_room client height acc) [
        | inl (fails, same, unless) ↦ absurd (cc (unless ib got, ahead-connects acc bs ib s a))
        | inr (ib', p, got', joins, q) ↦
            let same : ib' ≡ ib = cc in
            let e =
              trimmed-lists acc p.confirmed p.rest s.unconfirmed_block_cache.blocks bs ib
                (p.split ∙ ap (λ b. s.unconfirmed_block_cache.blocks ++ b ∷ []) same) in
            let (acc', t, r, a') =
              batch_syncs (acc ++ p.confirmed) bs (with_blocks s p.rest) (record {
                has_room = record { depth = a.has_room.depth; room = a.has_room.room; few = p.few };
                linked = rw (sym e) a.linked;
              }) in
            (acc', t, q ∙ r, a')
      ]

  loop_syncs :
      (client : Client) (n height : ℕ) (acc bs : List IndexedBlock) (s : BtcPoller)
      → IsAhead acc bs s
      → Fetched client n height bs
      → (acc' : List IndexedBlock) × (t : BtcPoller) × (bootstrap_loop c client n height acc s
          ≡ (ok acc', t))
        × IsAhead acc' [] t
  unfolding bootstrap_loop ◌>>=◌ done
  loop_syncs client zero height acc bs s a f = (acc, s, refl, rw (sym f) a)
  loop_syncs client (suc n) height acc bs s a (ib, rest, got, e, f) =
      let (acc1, s1, q, a1) = round_syncs client height acc rest ib s (rw e at a) got in
      let (acc2, t, q2, a2) = loop_syncs client n (height + 1) acc1 rest s1 a1 f in
      (acc2, t, rw (q, q2) refl, a2)

  rest_syncs :
      (acc : List IndexedBlock) (s : BtcPoller)
      → IsAhead acc [] s
      → (t : BtcPoller) × (commit_rest c acc s ≡ (ok tt, t))
  unfolding commit_rest ◌>>=◌ done
  rest_syncs (b ∷ bs) s a = let (t, q, x) = commit_syncs (b ∷ bs) [] s a in (t, q)
  rest_syncs [] s a =
      let (un, e) = get_unconfirmed_blocks-ok k s a.has_room.depth in
      elim (Bool-cases (length un == 0)) [
        | inl l ↦ (s, rw (e, l) refl)
        | inr l ↦ let (t, q, x) = commit_syncs [] [] s a in (t, rw (e, l) q)
      ]

  bootstrap_runs :
      (client : Client) (start_height tip_height : ℕ) (acc : List IndexedBlock) (s u t : BtcPoller)
      → client.get_tip_height ≡ ok tip_height
      → start_height ≤ tip_height
      → bootstrap_loop c client (tip_height + 1 - start_height) start_height [] (with_blocks s [])
        ≡ (ok acc, u)
      → commit_rest c acc u ≡ (ok tt, t)
      → bootstrap c client start_height s ≡ (ok tt, t)
  unfolding bootstrap with_blocks ◌>>=◌ lift on_cache remove_all
  bootstrap_runs client start_height tip_height acc s u t at_tip low q1 q2 =
      let high : ltb tip_height start_height ≡ false = ground arith in
      rw (at_tip, high, q1, q2) refl

  -- A bootstrap succeeds if the Bitcoin client has the tip height, not below the start height, and all
  -- the blocks from the start height to the tip, and each of them follows the one before it, and the
  -- first the confirmed tip, if there is one; for a confirmation depth of at most the size of the cache.
  pub bootstrap_succeeds :
      (client : Client) (start_height tip_height : ℕ) (bs : List IndexedBlock) (s : BtcPoller)
      → s.confirmation_depth ≡ suc k
      → k < s.unconfirmed_block_cache.max_entries
      → client.get_tip_height ≡ ok tip_height
      → start_height ≤ tip_height
      → Fetched client (tip_height + 1 - start_height) start_height bs
      → LinkedFrom c s.confirmed_tip_block bs
      → (t : BtcPoller) × (bootstrap c client start_height s ≡ (ok tt, t))
  unfolding with_blocks
  bootstrap_succeeds client start_height tip_height bs s depth room at_tip low f l =
      let start : IsAhead [] bs (with_blocks s []) = record {
        has_room = record { depth = depth; room = room; few = omega arith };
        linked = l;
      } in
      let (acc, s1, q1, a) =
        loop_syncs client (tip_height + 1 - start_height) start_height [] bs (with_blocks s [])
          start f in
      let (t, q2) = rest_syncs acc s1 a in
      (t, bootstrap_runs client start_height tip_height acc s s1 t at_tip low q1 q2)

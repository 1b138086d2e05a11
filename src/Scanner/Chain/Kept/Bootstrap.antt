-- ===== src/Scanner/Chain/Kept/Bootstrap.antt =====
-- The invariant is kept by `Bootstrap`, round by round.
use staking_indexer.Prelude.{
  ℕ, zero, suc, ◌+◌, ◌<◌, true, none, List, [], ◌∷◌, ◌++◌, ◌≡◌, ◌∙◌, refl, sym, inl, inr, arith,
  length, ltb, ◌-◌, ◌==◌, Bool-cases, append_assoc,
}
use staking_indexer.Prelude.Result.{Result, ok, err, panic, Result-cases}
use staking_indexer.Wire.{Codec}
use staking_indexer.Wire.Blocks.{IndexedBlock}
use staking_indexer.Scanner.Cache.{tip, remove_all}
use staking_indexer.Scanner.Poller.{
  BtcPoller, Client, connects, ◌>>=◌, continue, done, bootstrap_block, bootstrap_loop, commit_rest,
  bootstrap, get_unconfirmed_blocks, lift, on_cache,
}
use staking_indexer.Scanner.Poller.Rounds.{with_blocks}
use staking_indexer.Scanner.Chain.{
  Linked, Linked-append, Linked-left, Linked-right, LinkedFrom-Linked, connects-Follows, last_from,
  last_from-append, last_from-nonempty, Follows, get_last?-last_from,
}
use staking_indexer.Scanner.Chain.Outcomes.{round_cases}
use staking_indexer.Scanner.Chain.Kept.{
  IsChain, IsLoop, trimmed-IsChain, commit-IsChain, bind-IsLoop, commit_batch-IsLoop,
}

module _ (c : Codec) (k : ℕ) where
  joined-Linked :
      (ib : IndexedBlock) (acc : List IndexedBlock) (s : BtcPoller)
      → IsLoop c k (ok acc, s)
      → connects c (tip s.unconfirmed_block_cache) ib ≡ true
      → Linked c (acc ++ (s.unconfirmed_block_cache.blocks ++ ib ∷ []))
  unfolding tip
  joined-Linked ib acc s l joins =
      let blocks = s.unconfirmed_block_cache.blocks in
      let f : Follows c (last_from none blocks) ib =
        connects-Follows c (last_from none blocks) ib
          (rw (sym (get_last?-last_from blocks)) joins) in
      rw (sym (append_assoc acc blocks (ib ∷ []))) (
        Linked-append c none (acc ++ blocks) (ib ∷ []) (l.waiting acc refl)
          (rw (l.same_tip acc refl) (f, tt)))

  round-IsLoop :
      (client : Client) (height : ℕ) (acc : List IndexedBlock) (s : BtcPoller)
      → 0 < k
      → IsLoop c k (ok acc, s)
      → IsLoop c k (bootstrap_block c client height acc s)
  unfolding with_blocks
  round-IsLoop client height acc s deep l =
      elim (round_cases c k s l.chain.has_room client height acc) [
        | inl (fails, same, _) ↦ record {
          chain = rw same l.chain;
          waiting = λ xs h. absurd (fails xs h);
          same_tip = λ xs h. absurd (fails xs h);
        }
        | inr (ib, p, got, joins, q) ↦
            let whole = joined-Linked ib acc s l joins in
            let split : Linked c (acc ++ (p.confirmed ++ p.rest)) = rw (p.split) whole in
            let assoc : Linked c ((acc ++ p.confirmed) ++ p.rest) =
              rw (append_assoc acc p.confirmed p.rest) split in
            rw q (
              commit_batch-IsLoop c k (acc ++ p.confirmed) (with_blocks s p.rest) (record {
                chain = trimmed-IsChain c k ib s l.chain p (
                    LinkedFrom-Linked c _ p.rest
                      (Linked-right c none (acc ++ p.confirmed) p.rest assoc));
                waiting = λ xs h. let e : acc ++ p.confirmed ≡ xs = cc in rw (sym e) assoc;
                same_tip = λ xs h.
                    last_from-append none xs p.rest ∙ last_from-nonempty _ p.rest (p.tip_kept deep);
              }))
      ]

  pub bootstrap_loop-IsLoop :
      (client : Client) (n height : ℕ) (acc : List IndexedBlock) (s : BtcPoller)
      → 0 < k
      → IsLoop c k (ok acc, s)
      → IsLoop c k (bootstrap_loop c client n height acc s)
  unfolding bootstrap_loop done
  bootstrap_loop-IsLoop client zero height acc s deep l = l
  bootstrap_loop-IsLoop client (suc n) height acc s deep l =
      bind-IsLoop c k (bootstrap_block c client height acc) _ s
        (round-IsLoop client height acc s deep l)
        λ acc' t l'. bootstrap_loop-IsLoop client n (height + 1) acc' t deep l'

  -- From a cache that was emptied on.
  rest-IsChain :
      (p : Result (List IndexedBlock) × BtcPoller)
      → IsLoop c k p
      → IsChain c k (continue p.0 (commit_rest c) p.1).1
  unfolding commit_rest ◌>>=◌ done
  rest-IsChain (err e, s) l = l.chain
  rest-IsChain (panic, s) l = l.chain
  rest-IsChain (ok (b ∷ bs), s) l =
      (commit-IsChain c k (b ∷ bs) s l.chain
        (Linked-left c none (b ∷ bs) s.unconfirmed_block_cache.blocks (l.waiting _ refl))).0
  rest-IsChain (ok [], s) l = elim (Result-cases (get_unconfirmed_blocks s)) [
    | inr (inl (x, e)) ↦ rw e l.chain
    | inr (inr e) ↦ rw e l.chain
    | inl (un, e) ↦ elim (Bool-cases (length un == 0)) [
      | inl q ↦ rw (e, q) l.chain
      | inr q ↦ rw (e, q) (commit-IsChain c k [] s l.chain tt).0
    ]
  ]

  emptied-IsChain : (s : BtcPoller) → IsChain c k s → IsChain c k (with_blocks s [])
  unfolding with_blocks
  emptied-IsChain s ch = record {
    has_room = record { depth = ch.has_room.depth; room = ch.has_room.room; few = omega arith };
    cache = tt;
    stream = ch.stream;
    at_tip = ch.at_tip;
  }

  pub bootstrap-IsChain :
      (client : Client) (start_height : ℕ) (s : BtcPoller)
      → 0 < k
      → IsChain c k s
      → IsChain c k (bootstrap c client start_height s).1
  unfolding bootstrap with_blocks ◌>>=◌ lift on_cache remove_all
  bootstrap-IsChain client start_height s deep ch =
      let empty = emptied-IsChain s ch in
      let start : IsLoop c k (ok [], with_blocks s []) = record {
        chain = empty;
        waiting = λ acc h. let q : [] ≡ acc = cc in rw (sym q) tt;
        same_tip = λ acc h. let q : [] ≡ acc = cc in rw (sym q) refl;
      } in
      elim (Result-cases client.get_tip_height) [
        | inr (inl (x, e)) ↦ rw e empty
        | inr (inr e) ↦ rw e empty
        | inl (tip_height, e) ↦ elim (Bool-cases (ltb tip_height start_height)) [
          | inl q ↦ rw (e, q) empty
          | inr q ↦
              rw (e, q)
                (rest-IsChain _ (
                  bootstrap_loop-IsLoop client (tip_height + 1 - start_height) start_height []
                    (with_blocks s []) deep start))
        ]
      ]

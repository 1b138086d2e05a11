-- ===== src/Scanner/Chain/Kept.antt =====
-- The invariant of the poller: what was sent as confirmed is one chain that ends at the confirmed tip,
-- and so is the cache. Every operation keeps it, whether it succeeds, fails or panics.
pub mod Bootstrap
use staking_indexer.Prelude.{
  ℕ, zero, suc, ◌+◌, ◌<◌, ◌≤◌, true, false, Option, none, some, List, [], ◌∷◌, ◌++◌, ◌≡◌, ◌∙◌, refl,
  sym, ap, inl, inr, arith, length, leb, ltb, ◌-◌, ◌==◌, Bool-cases, append_assoc, append-nil,
}
use staking_indexer.Prelude.Result.{Result, ok, err, panic, Result-cases}
use staking_indexer.Wire.{Codec}
use staking_indexer.Wire.Blocks.{IndexedBlock}
use staking_indexer.Scanner.Cache.{tip, remove_all}
use staking_indexer.Scanner.Poller.{
  BtcPoller, Client, connects, Act, ◌>>=◌, continue, done, commit_chain_update, commit_batch,
  bootstrap_block, bootstrap_loop, commit_rest, bootstrap, get_unconfirmed_blocks, lift, on_cache,
  confirmed_block_batch_size,
}
use staking_indexer.Scanner.Poller.Commits.{confirmed_stream, confirmed_stream-append}
use staking_indexer.Scanner.Poller.Rounds.{HasRoom, with_blocks}
use staking_indexer.Scanner.Chain.{
  Linked, LinkedFrom, Linked-append, Linked-left, Linked-right, LinkedFrom-Linked, connects-Follows,
  follows-LinkedFrom, last_from, last_from-append, last_from-nonempty, Follows, new_tip-last_from,
  get_last?-last_from,
}
use staking_indexer.Scanner.Chain.Outcomes.{IsTrimmed, pushed, commit_cases, round_cases}

module _ (c : Codec) (k : ℕ) where
  pub record IsChain (s : BtcPoller) : Type 0 where
    pub has_room : HasRoom k s
    pub cache : Linked c s.unconfirmed_block_cache.blocks
    pub stream : Linked c (confirmed_stream s.sent)
    pub at_tip : s.confirmed_tip_block ≡ last_from none (confirmed_stream s.sent)

  -- The invariant, and on success the confirmed blocks that wait and the cache are one chain.
  pub record IsLoop (p : Result (List IndexedBlock) × BtcPoller) : Type 0 where
    pub chain : IsChain p.1
    pub waiting :
        (acc : List IndexedBlock)
        → p.0 ≡ ok acc
        → Linked c (acc ++ p.1.unconfirmed_block_cache.blocks)
    pub same_tip :
        (acc : List IndexedBlock)
        → p.0 ≡ ok acc
        → last_from none (acc ++ p.1.unconfirmed_block_cache.blocks)
          ≡ last_from none p.1.unconfirmed_block_cache.blocks

  pub trimmed-IsChain :
      (ib : IndexedBlock) (s : BtcPoller) (ch : IsChain s) (p : IsTrimmed k ib s ch.has_room)
      → Linked c p.rest
      → IsChain (with_blocks s p.rest)
  unfolding with_blocks
  trimmed-IsChain ib s ch p l = record {
    has_room = record { depth = ch.has_room.depth; room = ch.has_room.room; few = p.few };
    cache = l;
    stream = ch.stream;
    at_tip = ch.at_tip;
  }

  pushed-IsChain :
      (bs un : List IndexedBlock) (s : BtcPoller)
      → IsChain s
      → LinkedFrom c s.confirmed_tip_block bs
      → IsChain (pushed c s bs un)
  pushed-IsChain bs un s ch l =
      let e =
        confirmed_stream-append s.sent
          (record { confirmed_blocks = bs; unconfirmed_blocks = un }) in
      record {
        has_room = record {
          depth = ch.has_room.depth;
          room = ch.has_room.room;
          few = ch.has_room.few;
        };
        cache = ch.cache;
        stream =
            rw e
              (Linked-append c none (confirmed_stream s.sent) bs ch.stream (rw (sym ch.at_tip) l));
        at_tip =
            new_tip-last_from c s.confirmed_tip_block bs
            ∙ ap (λ o. last_from o bs) ch.at_tip
            ∙ sym (last_from-append none (confirmed_stream s.sent) bs)
            ∙ ap (last_from none) (sym e);
      }

  pub commit-IsChain :
      (bs : List IndexedBlock) (s : BtcPoller)
      → IsChain s
      → Linked c bs
      → IsChain (commit_chain_update c bs s).1
        × ((commit_chain_update c bs s).1.unconfirmed_block_cache ≡ s.unconfirmed_block_cache)
  commit-IsChain bs s ch l = elim (commit_cases c k bs s ch.has_room.depth) [
    | inl (e, q) ↦ rw q (ch, refl)
    | inr (e, un, q) ↦
        rw q (pushed-IsChain bs un s ch (follows-LinkedFrom c s.confirmed_tip_block bs e l), refl)
  ]

  -- What the invariant says of a chain of actions.
  pub bind-IsLoop :
      (m : Act (List IndexedBlock)) (f : List IndexedBlock → Act (List IndexedBlock))
      (s : BtcPoller)
      → IsLoop (m s)
      → ((acc : List IndexedBlock) (t : BtcPoller) → IsLoop (ok acc, t) → IsLoop (f acc t))
      → IsLoop ((m >>= f) s)
  unfolding ◌>>=◌
  bind-IsLoop m f s l next = go (m s) l
    where
      go : (p : Result (List IndexedBlock) × BtcPoller) → IsLoop p → IsLoop (continue p.0 f p.1)
      go (ok acc, t) l = next acc t l
      go (err e, t) l = record { chain = l.chain; waiting = λ acc h. cc; same_tip = λ acc h. cc }
      go (panic, t) l = record { chain = l.chain; waiting = λ acc h. cc; same_tip = λ acc h. cc }

  emptied-IsLoop :
      (p : Result (Unit {0}) × BtcPoller) → IsChain p.1 → IsLoop (continue p.0 (λ _. done []) p.1)
  unfolding done
  emptied-IsLoop (ok u, t) ch = record {
    chain = ch;
    waiting = λ acc h. let q : [] ≡ acc = cc in rw (sym q) ch.cache;
    same_tip = λ acc h. let q : [] ≡ acc = cc in rw (sym q) refl;
  }
  emptied-IsLoop (err e, t) ch = record {
    chain = ch;
    waiting = λ acc h. cc;
    same_tip = λ acc h. cc;
  }
  emptied-IsLoop (panic, t) ch = record {
    chain = ch;
    waiting = λ acc h. cc;
    same_tip = λ acc h. cc;
  }

  pub commit_batch-IsLoop :
      (acc : List IndexedBlock) (s : BtcPoller) → IsLoop (ok acc, s) → IsLoop (commit_batch c acc s)
  unfolding commit_batch ◌>>=◌ done
  commit_batch-IsLoop acc s l = elim (Bool-cases (leb confirmed_block_batch_size (length acc))) [
    | inr e ↦ rw e l
    | inl e ↦ rw e (
        emptied-IsLoop (commit_chain_update c acc s)
          (commit-IsChain acc s l.chain
            (Linked-left c none acc s.unconfirmed_block_cache.blocks (l.waiting acc refl))).0)
  ]

-- ===== src/Scanner/EventLoop/Extension.antt =====
-- A chain that grows block by block is followed without a bootstrap and without loss.
use staking_indexer.Prelude.{
  ℕ, ◌<◌, ◌≤ℤ◌, true, false, Option, none, some, List, [], ◌∷◌, ◌++◌, ◌≡◌, ◌∙◌, refl, sym, ap, inl,
  inr, arith, to_u64, Bool-cases, bytes_eq, bytes_eq_refl, leb→le, leb_ℤ, ltb_ℤ, append-nil,
  append_assoc,
}
use staking_indexer.Prelude.Result.{Result, ok}
use staking_indexer.Wire.{Codec}
use staking_indexer.Wire.Blocks.{IndexedBlock, block_hash}
use staking_indexer.Scanner.Cache.{tip}
use staking_indexer.Scanner.Poller.{
  BtcPoller, ◌>>=◌, lift, next_height, handle_new_block, accept_block, commit_chain_update,
}
use staking_indexer.Scanner.Poller.Commits.{confirmed_stream, confirmed_stream-append}
use staking_indexer.Scanner.Poller.Rounds.{HasRoom, with_blocks}
use staking_indexer.Scanner.Chain.{
  LinkedFrom, Linked-append, Linked-left, Linked-right, LinkedFrom-follows, last_from,
  last_from-append, last_from-nonempty, get_last?-last_from, new_tip-last_from,
}
use staking_indexer.Scanner.Chain.NewBlock.{kept-lists}
use staking_indexer.Scanner.Chain.Outcomes.{IsTrimmed, add_and_trim, pushed, commit_cases}
use staking_indexer.Scanner.EventLoop.{Round, recover, on_block_epoch, block_event_loop}

last_from-some :
    (o : Option IndexedBlock) (xs : List IndexedBlock) (t : IndexedBlock)
    → last_from none xs ≡ some t
    → last_from o xs ≡ some t
last_from-some o [] t h = cc
last_from-some o (x ∷ xs) t h = h

module _ (c : Codec) where
  -- The epoch announces the block `ib` behind `t`, and the client has it at its height.
  pub record IsNext (t : IndexedBlock) (e : Round) (ib : IndexedBlock) : Type 0 where
    pub above : (e.block_epoch.height ≤ℤ t.height) → ⊥
    pub next : e.block_epoch.height ≤ℤ next_height t.height
    pub header : e.block_epoch.block_header ≡ ib.header
    pub hash : block_hash c ib ≡ e.block_epoch.hash
    pub parent : ib.header.prev_block ≡ block_hash c t
    pub served : e.at_block.get_block_by_height (to_u64 e.block_epoch.height) ≡ ok ib

  -- The epochs announce the blocks, one behind the other.
  abbrev pub AreNext : IndexedBlock → List Round → List IndexedBlock → Type 0
  AreNext t [] ibs = ibs ≡ []
  AreNext t (e ∷ es) [] = ⊥
  AreNext t (e ∷ es) (ib ∷ ibs) = IsNext t e ib × AreNext ib es ibs

  -- The cache has room, and follows the confirmed tip; `t` is its tip.
  pub record IsSynced (k : ℕ) (t : IndexedBlock) (s : BtcPoller) : Type 0 where
    pub has_room : HasRoom k s
    pub linked : LinkedFrom c s.confirmed_tip_block s.unconfirmed_block_cache.blocks
    pub at_tip : tip s.unconfirmed_block_cache ≡ some t

  module _ (k : ℕ) (deep : 0 < k) where
    handled-next :
        (t : IndexedBlock) (e : Round) (ib : IndexedBlock) (s : BtcPoller)
        → IsNext t e ib
        → tip s.unconfirmed_block_cache ≡ some t
        → handle_new_block c e.at_block e.block_epoch s ≡ accept_block c e.at_block e.block_epoch s
    unfolding handle_new_block
    handled-next t e ib s n at =
        let high : leb_ℤ e.block_epoch.height t.height ≡ false =
          elim (Bool-cases (leb_ℤ e.block_epoch.height t.height)) [
            | inl l ↦ absurd (n.above (leb→le _ _ l))
            | inr l ↦ l
          ] in
        let near : ltb_ℤ (next_height t.height) e.block_epoch.height ≡ false =
          ground (arith, n.next) in
        let same : bytes_eq e.block_epoch.block_header.prev_block (block_hash c t) ≡ true =
          rw (n.header, n.parent) (bytes_eq_refl (block_hash c t)) in
        rw (at, high, near, same, handle_new_block) refl

    accepted :
        (e : Round) (ib : IndexedBlock) (s : BtcPoller) (r : HasRoom k s)
        → e.at_block.get_block_by_height (to_u64 e.block_epoch.height) ≡ ok ib
        → block_hash c ib ≡ e.block_epoch.hash
        → (p : IsTrimmed k ib s r) × (accept_block c e.at_block e.block_epoch s
            ≡ commit_chain_update c p.confirmed (with_blocks s p.rest))
    unfolding accept_block lift ◌>>=◌
    accepted e ib s r got hash =
        let (p, q) = add_and_trim k ib s r (commit_chain_update c) in
        let same : bytes_eq (block_hash c ib) e.block_epoch.hash ≡ true =
          rw hash (bytes_eq_refl e.block_epoch.hash) in
        (p, rw (got, same) q)

    -- The state behind the commit of what trimming returned.
    trimmed-IsSynced :
        (t : IndexedBlock) (ib : IndexedBlock) (s : BtcPoller) (r : HasRoom k s)
        (p : IsTrimmed k ib s r) (un : List IndexedBlock)
        → LinkedFrom c s.confirmed_tip_block (p.confirmed ++ p.rest)
        → IsSynced k ib (pushed c (with_blocks s p.rest) p.confirmed un)
    unfolding with_blocks tip
    trimmed-IsSynced t ib s r p un l = record {
      has_room = record { depth = r.depth; room = r.room; few = p.few };
      linked =
          rw (new_tip-last_from c s.confirmed_tip_block p.confirmed)
            (Linked-right c s.confirmed_tip_block p.confirmed p.rest l);
      at_tip =
          get_last?-last_from p.rest
          ∙ sym (last_from-nonempty (last_from none p.confirmed) p.rest (p.tip_kept deep))
          ∙ sym (last_from-append none p.confirmed p.rest)
          ∙ ap (last_from none) p.split
          ∙ last_from-append none s.unconfirmed_block_cache.blocks (ib ∷ []);
    }

    -- One block more: no bootstrap, and nothing is lost.
    extended :
        (start_height : ℕ) (t : IndexedBlock) (e : Round) (ib : IndexedBlock) (s : BtcPoller)
        → IsSynced k t s
        → IsNext t e ib
        → (u : BtcPoller) × (on_block_epoch c start_height e s ≡ (ok tt, u))
          × IsSynced k ib u
          × (confirmed_stream u.sent ++ u.unconfirmed_block_cache.blocks
              ≡ (confirmed_stream s.sent ++ s.unconfirmed_block_cache.blocks) ++ ib ∷ [])
    unfolding on_block_epoch with_blocks tip
    extended start_height t e ib s y n =
        let blocks = s.unconfirmed_block_cache.blocks in
        let (p, q) = accepted e ib s y.has_room n.served n.hash in
        let end : last_from s.confirmed_tip_block blocks ≡ some t =
          last_from-some s.confirmed_tip_block blocks t
            (sym (get_last?-last_from blocks) ∙ y.at_tip) in
        let whole : LinkedFrom c s.confirmed_tip_block (blocks ++ ib ∷ []) =
          Linked-append c s.confirmed_tip_block blocks (ib ∷ []) y.linked
            (rw end (sym n.parent, tt)) in
        let l : LinkedFrom c s.confirmed_tip_block (p.confirmed ++ p.rest) = rw p.split whole in
        let f =
          LinkedFrom-follows c s.confirmed_tip_block p.confirmed
            (Linked-left c s.confirmed_tip_block p.confirmed p.rest l) in
        elim (commit_cases c k p.confirmed (with_blocks s p.rest) y.has_room.depth) [
          | inl (g, m) ↦ absurd (cc (g, f))
          | inr (g, un, m) ↦ (
            pushed c (with_blocks s p.rest) p.confirmed un,
            ap
                (λ (r : Result (Unit {0}) × BtcPoller).
                  recover c start_height e.at_bootstrap r.0 r.1)
                (handled-next t e ib s n y.at_tip ∙ q ∙ m),
            trimmed-IsSynced t ib s y.has_room p un l,
            rw
                (confirmed_stream-append s.sent
                  (record { confirmed_blocks = p.confirmed; unconfirmed_blocks = un }))
                (kept-lists c e.at_block k e.block_epoch s (confirmed_stream s.sent) blocks
                  p.confirmed p.rest ib p.split),
          )
        ]

    looped :
        (start_height : ℕ) (e : Round) (es : List Round) (s u v : BtcPoller)
        → on_block_epoch c start_height e s ≡ (ok tt, u)
        → block_event_loop c start_height es u ≡ (ok tt, v)
        → block_event_loop c start_height (e ∷ es) s ≡ (ok tt, v)
    unfolding block_event_loop
    looped start_height e es s u v q r = rw (q, r) refl

    -- A poller whose cache holds its tip and follows the confirmed tip, for a confirmation depth from 2 to
    -- the size of the cache, handles block epochs that announce blocks, each behind the one before and the
    -- first behind the tip, which the Bitcoin client has: the loop succeeds, and the poller holds the new
    -- blocks behind those that it held, as sent or in the cache, in order and without loss.
    pub block_event_loop-AreNext :
        (start_height : ℕ) (t : IndexedBlock) (es : List Round) (ibs : List IndexedBlock)
        (s : BtcPoller)
        → IsSynced k t s
        → AreNext t es ibs
        → (u : BtcPoller) × (block_event_loop c start_height es s ≡ (ok tt, u))
          × (confirmed_stream u.sent ++ u.unconfirmed_block_cache.blocks
              ≡ (confirmed_stream s.sent ++ s.unconfirmed_block_cache.blocks) ++ ibs)
    unfolding block_event_loop
    block_event_loop-AreNext start_height t [] ibs s y n = (s, refl, rw n (sym (append-nil _)))
    block_event_loop-AreNext start_height t (e ∷ es) [] s y n = absurd n
    block_event_loop-AreNext start_height t (e ∷ es) (ib ∷ ibs) s y (n, ns) =
        let (u, q, z, kept) = extended start_height t e ib s y n in
        let (v, r, more) = block_event_loop-AreNext start_height ib es ibs u z ns in
        (
          v,
          looped start_height e es s u v q r,
          more ∙ ap (λ l. l ++ ibs) kept ∙ append_assoc _ (ib ∷ []) ibs,
        )

-- ===== src/Scanner/Poller/Commits.antt =====
-- What a commit of confirmed blocks that succeeds sends, and what it leaves as it was.
use staking_indexer.Prelude.{
  List, [], ◌∷◌, ◌++◌, ◌≡◌, ◌∙◌, refl, sym, ap, inl, inr, length, leb, Bool-cases, append-nil,
  append_assoc,
}
use staking_indexer.Prelude.Result.{Result, ok, err, panic}
use staking_indexer.Wire.{Codec}
use staking_indexer.Wire.Blocks.{IndexedBlock}
use staking_indexer.Scanner.Poller.{
  BtcPoller, ChainUpdateInfo, Act, ◌>>=◌, done, commit_chain_update, commit_batch,
  confirmed_block_batch_size, advance_tip, send, follows, get_unconfirmed_blocks,
}

module _ {A B : Type 0} where
  -- A chain that succeeded: the first action did, and so did the rest.
  pub act-ok :
      (m : Act A) (f : A → Act B) (s t : BtcPoller) (b : B)
      → (m >>= f) s ≡ (ok b, t)
      → (a : A) × (u : BtcPoller) × (m s ≡ (ok a, u)) × (f a u ≡ (ok b, t))
  unfolding ◌>>=◌
  act-ok m f s t b h = go (m s) refl
    where
      go :
          (p : Result A × BtcPoller)
          → m s ≡ p
          → (a : A) × (u : BtcPoller) × (m s ≡ (ok a, u)) × (f a u ≡ (ok b, t))
      go (ok a, u) e = (a, u, e, rw e at h)
      go (err x, u) e = absurd (cc (rw e at h))
      go (panic, u) e = absurd (cc (rw e at h))

  pub fst-eq : {p q : A × B} → p ≡ q → p.0 ≡ q.0
  fst-eq h = ap (λ (p : A × B). p.0) h

  pub snd-eq : {p q : A × B} → p ≡ q → p.1 ≡ q.1
  snd-eq h = ap (λ (p : A × B). p.1) h

-- All the confirmed blocks that were sent, in order.
abbrev pub confirmed_stream : List ChainUpdateInfo → List IndexedBlock
confirmed_stream [] = []
confirmed_stream (u ∷ us) = u.confirmed_blocks ++ confirmed_stream us

pub confirmed_stream-append :
    (us : List ChainUpdateInfo) (u : ChainUpdateInfo)
    → confirmed_stream (us ++ u ∷ []) ≡ confirmed_stream us ++ u.confirmed_blocks
confirmed_stream-append [] u = append-nil u.confirmed_blocks
confirmed_stream-append (v ∷ us) u =
    rw (confirmed_stream-append us u)
      (sym (append_assoc v.confirmed_blocks (confirmed_stream us) u.confirmed_blocks))

-- What a commit that succeeds leaves as it was, and what it sends.
pub record Committed (bs : List IndexedBlock) (s t : BtcPoller) : Type 0 where
  pub same_cache : t.unconfirmed_block_cache ≡ s.unconfirmed_block_cache
  pub same_depth : t.confirmation_depth ≡ s.confirmation_depth
  pub sent : confirmed_stream t.sent ≡ confirmed_stream s.sent ++ bs

-- A batch that was sent, or stays with the blocks that wait.
pub record Batched (acc acc' : List IndexedBlock) (s t : BtcPoller) : Type 0 where
  pub same_cache : t.unconfirmed_block_cache ≡ s.unconfirmed_block_cache
  pub same_depth : t.confirmation_depth ≡ s.confirmation_depth
  pub kept : confirmed_stream t.sent ++ acc' ≡ confirmed_stream s.sent ++ acc

module _ (c : Codec) where
  advance-ok :
      (bs : List IndexedBlock) (s t : BtcPoller) (u : Unit {0})
      → advance_tip c bs s ≡ (ok u, t)
      → (t.unconfirmed_block_cache ≡ s.unconfirmed_block_cache)
        × (t.confirmation_depth ≡ s.confirmation_depth)
        × (t.sent ≡ s.sent)
  unfolding advance_tip
  advance-ok bs s t u h = elim (Bool-cases (follows c s.confirmed_tip_block bs)) [
    | inl e ↦
        let q = snd-eq (rw e at h) in
        (
          ap (λ (x : BtcPoller). x.unconfirmed_block_cache) (sym q),
          ap (λ (x : BtcPoller). x.confirmation_depth) (sym q),
          ap (λ (x : BtcPoller). x.sent) (sym q),
        )
    | inr e ↦ absurd (cc (fst-eq (rw e at h)))
  ]

  pub commit-Committed :
      (bs : List IndexedBlock) (s t : BtcPoller) (u : Unit {0})
      → commit_chain_update c bs s ≡ (ok u, t)
      → Committed bs s t
  unfolding commit_chain_update send
  commit-Committed bs s t u h =
      let (x, s1, e1, h1) = act-ok _ _ s t u h in
      let (cache, depth, sent) = advance-ok bs s s1 x e1 in
      let (unconfirmed, s2, e2, h2) =
        act-ok (λ (x : BtcPoller). (get_unconfirmed_blocks x, x)) _ s1 t u h1 in
      let q2 = snd-eq e2 in
      let q = snd-eq h2 in
      record {
        same_cache =
            ap (λ (x : BtcPoller). x.unconfirmed_block_cache) (sym q)
            ∙ ap (λ (x : BtcPoller). x.unconfirmed_block_cache) (sym q2)
            ∙ cache;
        same_depth =
            ap (λ (x : BtcPoller). x.confirmation_depth) (sym q)
            ∙ ap (λ (x : BtcPoller). x.confirmation_depth) (sym q2)
            ∙ depth;
        sent =
            ap (λ (x : BtcPoller). confirmed_stream x.sent) (sym q)
            ∙ confirmed_stream-append s2.sent _
            ∙ ap (λ l. confirmed_stream l ++ bs) (ap (λ (x : BtcPoller). x.sent) (sym q2) ∙ sent);
      }

  pub commit_batch-Batched :
      (acc acc' : List IndexedBlock) (s t : BtcPoller)
      → commit_batch c acc s ≡ (ok acc', t)
      → Batched acc acc' s t
  unfolding commit_batch done
  commit_batch-Batched acc acc' s t h =
      elim (Bool-cases (leb confirmed_block_batch_size (length acc))) [
        | inl e ↦
            let (x, s1, e1, h1) =
              act-ok (commit_chain_update c acc) (λ _. done []) s t acc' (rw e at h) in
            let r = commit-Committed acc s s1 x e1 in
            let q = snd-eq h1 in
            let a : [] ≡ acc' = cc (fst-eq h1) in
            rw (sym q, sym a)
              (record {
                same_cache = r.same_cache;
                same_depth = r.same_depth;
                kept = append-nil _ ∙ r.sent;
              })
        | inr e ↦
            let h1 = rw e at h in
            let q = snd-eq h1 in
            let a : acc ≡ acc' = cc (fst-eq h1) in
            rw (sym q, sym a) (record { same_cache = refl; same_depth = refl; kept = refl })
      ]

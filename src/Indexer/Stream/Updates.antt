-- ===== src/Indexer/Stream/Updates.antt =====
-- The updates of the scanner, handled one after another, and the stream of their confirmed blocks.
use staking_indexer.Prelude.{List, [], ◌∷◌, ◌++◌, ◌≡◌, ◌≢◌, ◌∙◌, refl, sym, ap, inl, inr}
use staking_indexer.Prelude.Result.{Result, ok, err, panic}
use staking_indexer.Wire.Blocks.{IndexedBlock}
use staking_indexer.Indexer.Types.{StakingIndexer, World}
use staking_indexer.Indexer.Exec.{Exec, ◌>>=◌, continue, pure}
use staking_indexer.Indexer.Exec.Blind.{Accepts}
use staking_indexer.Indexer.Block.{for_each, handle_confirmed_block, handle_confirmed_blocks}
use staking_indexer.Indexer.Unconfirmed.{
  process_unconfirmed_info, or_logged, log_error, handle_update, handle_updates,
}
use staking_indexer.Indexer.Unconfirmed.Info.{process_unconfirmed_info_lem}
use staking_indexer.Indexer.Stream.Blocks.{handle_confirmed_blocks-Blind}
use staking_indexer.Scanner.Poller.{ChainUpdateInfo}
use staking_indexer.Scanner.Poller.Commits.{confirmed_stream}

module _ (si : StakingIndexer) where
  -- Unconfirmed blocks leave the database alone.
  process_unconfirmed-db :
      (bs : List IndexedBlock) (w : World si) → (process_unconfirmed_info si bs w).1.db ≡ w.db
  unfolding process_unconfirmed_info pure
  process_unconfirmed-db [] w = refl
  process_unconfirmed-db (b ∷ bs) w = elim (process_unconfirmed_info_lem si b bs w) [
    | inl told ↦ rw told.told refl
    | inr (ne, same) ↦ ap (λ (x : World si). x.db) same
  ]

  -- The handling of two lists, one after the other.
  blocks-append :
      (xs ys : List IndexedBlock) (w : World si)
      → handle_confirmed_blocks si (xs ++ ys) w
        ≡ continue
            (handle_confirmed_blocks si xs w).0
            (λ _. handle_confirmed_blocks si ys)
            (handle_confirmed_blocks si xs w).1
  unfolding handle_confirmed_blocks for_each ◌>>=◌ pure
  blocks-append [] ys w = refl
  blocks-append (x ∷ xs) ys w =
      go (handle_confirmed_block si x w).0 (handle_confirmed_block si x w).1
        (blocks-append xs ys (handle_confirmed_block si x w).1)
    where
      go :
          (r : Result (Unit {0})) (u : World si)
          → handle_confirmed_blocks si (xs ++ ys) u
            ≡ continue
                (handle_confirmed_blocks si xs u).0
                (λ _. handle_confirmed_blocks si ys)
                (handle_confirmed_blocks si xs u).1
          → continue r (λ _. handle_confirmed_blocks si (xs ++ ys)) u
            ≡ continue
                (continue r (λ _. handle_confirmed_blocks si xs) u).0
                (λ _. handle_confirmed_blocks si ys)
                (continue r (λ _. handle_confirmed_blocks si xs) u).1
      go (ok x) u ih = ih
      go (err e) u ih = refl
      go panic u ih = refl

  -- The two runs agree on the result and on the database.
  abbrev pub Agrees : Result (Unit {0}) × World si → Result (Unit {0}) × World si → Type 0
  Agrees p q = (p.0 ≡ q.0) × (p.1.db ≡ q.1.db)

  -- What follows the confirmed blocks of an update, with the result `r`.
  abbrev after : Result (Unit {0}) → List IndexedBlock → List ChainUpdateInfo → Exec si (Unit {0})
  after r bs us v =
      let p = continue r (λ _. log_error si (process_unconfirmed_info si bs)) v in
      continue p.0 (λ _. handle_updates si us) p.1

  after-Agrees :
      (r : Result (Unit {0})) (us : List ChainUpdateInfo) (bs : List IndexedBlock) (v x : World si)
      → ((v' : World si)
          → v'.db ≡ v.db
          → (handle_updates si us v').0 ≢ panic
          → Agrees (handle_updates si us v') (handle_confirmed_blocks si (confirmed_stream us) x))
      → v.db ≡ x.db
      → (after r bs us v).0 ≢ panic
      → Agrees
          (after r bs us v)
          (continue r (λ _. handle_confirmed_blocks si (confirmed_stream us)) x)
  after-Agrees (err e) us bs v x ih d ne = (refl, d)
  after-Agrees panic us bs v x ih d ne = (refl, d)
  after-Agrees (ok u) us bs v x ih d ne = go (process_unconfirmed_info si bs v).0 ne
    where
      logged : Result (Unit {0}) → Result (Unit {0}) × World si
      logged r =
          continue (or_logged r) (λ _. handle_updates si us) (process_unconfirmed_info si bs v).1

      go :
          (r : Result (Unit {0}))
          → (logged r).0 ≢ panic
          → Agrees (logged r) (handle_confirmed_blocks si (confirmed_stream us) x)
      go (ok u) ne = ih _ (process_unconfirmed-db bs v) ne
      go (err e) ne = ih _ (process_unconfirmed-db bs v) ne
      go panic ne = absurd (ne refl)

module _ {si : StakingIndexer} (accepts : Accepts si) where
  updates-Agrees :
      (us : List ChainUpdateInfo) (w x : World si)
      → w.db ≡ x.db
      → (handle_updates si us w).0 ≢ panic
      → Agrees si (handle_updates si us w) (handle_confirmed_blocks si (confirmed_stream us) x)
  unfolding handle_updates handle_update handle_confirmed_blocks for_each pure ◌>>=◌
  updates-Agrees [] w x d ne = (refl, d)
  updates-Agrees (u ∷ us) w x d ne =
      let (r, d') = (handle_confirmed_blocks-Blind accepts u.confirmed_blocks).at w x d in
      rw (blocks-append si u.confirmed_blocks (confirmed_stream us) x, sym r)
        (after-Agrees si (handle_confirmed_blocks si u.confirmed_blocks w).0 us u.unconfirmed_blocks
          (handle_confirmed_blocks si u.confirmed_blocks w).1
          (handle_confirmed_blocks si u.confirmed_blocks x).1
          (λ v e n. updates-Agrees us v _ (e ∙ d') n) d' ne)

  -- Where the consumer takes every event, and handling the updates of the scanner does not panic: it
  -- returns what handling the confirmed blocks of all the updates as one list returns, and leaves the
  -- same database, whatever the cuts between the updates, the unconfirmed blocks and the events that
  -- were pushed before are.
  pub handle_updates-confirmed_stream :
      (us : List ChainUpdateInfo) (w x : World si)
      → w.db ≡ x.db
      → (handle_updates si us w).0 ≢ panic
      → ((handle_updates si us w).0 ≡ (handle_confirmed_blocks si (confirmed_stream us) x).0)
        × ((handle_updates si us w).1.db
            ≡ (handle_confirmed_blocks si (confirmed_stream us) x).1.db)
  handle_updates-confirmed_stream us w x d ne = updates-Agrees us w x d ne

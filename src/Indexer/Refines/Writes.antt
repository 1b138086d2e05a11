-- ===== src/Indexer/Refines/Writes.antt =====
-- The writing actions of Process.antt as steps of the ledger.
use staking_indexer.Prelude.{
  ℕ, Bytes, [], ◌∷◌, ◌++◌, ◌≡◌, ◌≢◌, ◌⊎◌, none, refl, ap, inl, inr, Option-cases,
}
use staking_indexer.Prelude.Result.{Error, Result, ok, err, panic}
use staking_indexer.Wire.{Hash, MsgTx}
use staking_indexer.Store.Record.{StoredStakingTransaction}
use staking_indexer.Store.Interface.{AddedStaking, AddedUnbonding}
use staking_indexer.Indexer.Types.{StakingIndexer, World, Event}
use staking_indexer.Indexer.Exec.{Exec, lift, writes, ◌>>=◌, ◌>>◌, push_event}
use staking_indexer.Indexer.Exec.Steps.{IsPreorder, Steps}
use staking_indexer.Indexer.Block.Steps.{Pushes}
use staking_indexer.Indexer.Process.{save}
use staking_indexer.Indexer.Ledger.{Reach, pushed, saved, here, Reach-trans, Reach-one}
use staking_indexer.Indexer.Ledger.Laws.{IndexerLaws}

module _ {si : StakingIndexer} where
  pub Reach-IsPreorder : IsPreorder (Reach si)
  Reach-IsPreorder = record { stay = λ w. here; then_by = λ w u v p q. Reach-trans w u v p q }

  -- A push leaves the state as it was, or adds the event.
  pub push_outcome :
      (e : Event) (w : World si)
      → ((push_event e w).0 ≡ ok tt) × ((push_event e w).1 ≡ record w { sent = w.sent ++ e ∷ [] })
        ⊎ ((x : Error) × (push_event e w ≡ (err x, w)))
  unfolding push_event
  push_outcome e w = elim (Option-cases (si.push e w.sent)) [
    | inl q ↦ inl (rw (q, push_event), rw (q, push_event))
    | inr (x, q) ↦ inr (x, rw (q, push_event))
  ]

  push-Steps : (Q : World si → Type 0) (e : Event) → Steps (Reach si) Q (push_event e)
  push-Steps Q e = record {
    at = λ w q. elim (push_outcome e w) [
      | inl (r, u) ↦
          Reach-one (pushed e (ap (λ (x : World si). x.db) u) (ap (λ (x : World si). x.sent) u))
      | inr (x, u) ↦ rw u here
    ];
  }

  pub Reach-Pushes : Pushes (Reach si)
  Reach-Pushes = record { push = push-Steps }

  -- An action that serialises, announces and saves: it did nothing, or it announced its event and
  -- called the store.
  unfoldable pub announce :
      Result Bytes
      → (Bytes → Event)
      → (si.store.Db → Result (Unit {0}) × si.store.Db)
      → Exec si (Unit {0})
  announce tx_hex event op = do hex ← lift tx_hex; push_event (event hex); save si op

  -- It announces exactly where the bytes can be made and the consumer takes the event, and else fails.
  pub announce_exact :
      (tx_hex : Result Bytes) (event : Bytes → Event)
      (op : si.store.Db → Result (Unit {0}) × si.store.Db) (w : World si)
      → ((hex : Bytes) × (tx_hex ≡ ok hex)
          × (si.push (event hex) w.sent ≡ none)
          × ((announce tx_hex event op w).1
              ≡ record { db = (op w.db).1; sent = w.sent ++ event hex ∷ [] }))
        ⊎ (((hex : Bytes) → tx_hex ≡ ok hex → si.push (event hex) w.sent ≢ none)
            × ((announce tx_hex event op w).0 ≢ ok tt)
            × ((announce tx_hex event op w).1 ≡ w))
  unfolding announce ◌>>=◌ push_event save
  announce_exact (ok hex) event op w = elim (Option-cases (si.push (event hex) w.sent)) [
    | inl q ↦ inl (hex, refl, q, rw (q, push_event))
    | inr (x, q) ↦ inr (
      λ hex' same taken.
          let e : hex ≡ hex' = cc in let t : si.push (event hex) w.sent ≡ none = rw e taken in cc,
      rw (q, push_event) (λ f. cc),
      rw (q, push_event),
    )
  ]
  announce_exact (err e) event op w = inr (λ hex same. absurd (cc), λ f. cc, refl)
  announce_exact panic event op w = inr (λ hex same. absurd (cc), λ f. cc, refl)

  pub announce_outcome :
      (tx_hex : Result Bytes) (event : Bytes → Event)
      (op : si.store.Db → Result (Unit {0}) × si.store.Db) (w : World si)
      → ((announce tx_hex event op w).1 ≡ w)
        ⊎ ((hex : Bytes) × ((announce tx_hex event op w).1
              ≡ record { db = (op w.db).1; sent = w.sent ++ event hex ∷ [] }))
  announce_outcome tx_hex event op w = elim (announce_exact tx_hex event op w) [
    | inl (hex, _, _, new) ↦ inr (hex, new)
    | inr (_, _, same) ↦ inl same
  ]

module _ {si : StakingIndexer} (laws : IndexerLaws si) where
  -- A call of the store added its record, or changed nothing.
  pub add_staking_cases :
      (st : StoredStakingTransaction) (s : si.store.Db)
      → AddedStaking si.codec si.store st s (si.store.add_staking_transaction st s).1
        ⊎ ((si.store.add_staking_transaction st s).1 ≡ s)
  add_staking_cases st s = go (si.store.add_staking_transaction st s).0 refl
    where
      go :
          (r : Result (Unit {0}))
          → (si.store.add_staking_transaction st s).0 ≡ r
          → AddedStaking si.codec si.store st s (si.store.add_staking_transaction st s).1
            ⊎ ((si.store.add_staking_transaction st s).1 ≡ s)
      go (ok tt) e =
          inl (
            laws.store.add_staking_ok st s _
              (λ i. (e i, (si.store.add_staking_transaction st s).1)))
      go (err x) e = inr (laws.store.add_staking_failed st s (λ q. cc (e, q)))
      go panic e = inr (laws.store.add_staking_failed st s (λ q. cc (e, q)))

  pub add_unbonding_cases :
      (tx : MsgTx) (sh : Hash) (s : si.store.Db)
      → AddedUnbonding si.codec si.store tx sh s (si.store.add_unbonding_transaction tx sh s).1
        ⊎ ((si.store.add_unbonding_transaction tx sh s).1 ≡ s)
  add_unbonding_cases tx sh s = go (si.store.add_unbonding_transaction tx sh s).0 refl
    where
      go :
          (r : Result (Unit {0}))
          → (si.store.add_unbonding_transaction tx sh s).0 ≡ r
          → AddedUnbonding si.codec si.store tx sh s (si.store.add_unbonding_transaction tx sh s).1
            ⊎ ((si.store.add_unbonding_transaction tx sh s).1 ≡ s)
      go (ok tt) e = inl (
          laws.store.add_unbonding_ok tx sh s _
            (λ i. (e i, (si.store.add_unbonding_transaction tx sh s).1)))
      go (err x) e = inr (laws.store.add_unbonding_failed tx sh s (λ q. cc (e, q)))
      go panic e = inr (laws.store.add_unbonding_failed tx sh s (λ q. cc (e, q)))

  pub save_height-Steps :
      (Q : World si → Type 0) (height : ℕ)
      → Steps (Reach si) Q (writes (si.store.save_last_processed_height height))
  unfolding writes
  save_height-Steps Q height = record {
    at = λ w q. go w (si.store.save_last_processed_height height w.db).0 refl;
  }
    where
      go :
          (w : World si) (r : Result (Unit {0}))
          → (si.store.save_last_processed_height height w.db).0 ≡ r
          → Reach si w (record w { db = (si.store.save_last_processed_height height w.db).1 })
      go w (ok tt) e = Reach-one (
          saved height
            (laws.store.save_height_ok height w.db _
              (λ i. (e i, (si.store.save_last_processed_height height w.db).1)))
            refl)
      go w (err x) e = rw (laws.store.save_height_failed height w.db (λ q. cc (e, q))) here
      go w panic e = rw (laws.store.save_height_failed height w.db (λ q. cc (e, q))) here

-- ===== src/Indexer/Settled/Leaves.antt =====
-- The leaves of the handlers, for a relation between databases: it must hold of what a call of the
-- store that succeeds does.
use staking_indexer.Prelude.{ℕ, ℤ, Bool, Option, none, some, ◌≡◌, refl, ap, inl, inr}
use staking_indexer.Prelude.Result.{Result, ok, err, panic}
use staking_indexer.Wire.{Hash, MsgTx}
use staking_indexer.Store.Record.{StoredStakingTransaction}
use staking_indexer.Store.Interface.{AddedStaking, AddedUnbonding, SavedHeight}
use staking_indexer.Indexer.Types.{StakingIndexer, World, Params, ParsedStakingTx}
use staking_indexer.Indexer.Exec.{writes}
use staking_indexer.Indexer.Exec.Steps.{IsPreorder, Steps, Steps-pure, Steps-bind-reads}
use staking_indexer.Indexer.Process.{
  get_tx_hex, staking_event, unbonding_event, add_staking_transaction, process_staking_tx,
  process_unbonding_tx, decide_overflow, add_decided, stored_staking_tx,
}
use staking_indexer.Indexer.Block.Steps.{Pushes}
use staking_indexer.Indexer.Ledger.Laws.{IndexerLaws}
use staking_indexer.Indexer.Refines.Writes.{
  push_outcome, announce, announce_outcome, add_staking_cases, add_unbonding_cases,
}

module _ {si : StakingIndexer} (D : si.store.Db → si.store.Db → Type 0) where
  -- The relation between the databases of two states.
  abbrev pub OfDb : World si → World si → Type 0
  OfDb w u = D w.db u.db

  module _ (same : (s : si.store.Db) → D s s) where
    pub OfDb-IsPreorder : ((s t u : si.store.Db) → D s t → D t u → D s u) → IsPreorder OfDb
    OfDb-IsPreorder trans = record {
      stay = λ w. same w.db;
      then_by = λ w u v p q. trans w.db u.db v.db p q;
    }

    pub OfDb-Pushes : Pushes OfDb
    OfDb-Pushes = record {
      push = λ Q e. record {
        at = λ w q. elim (push_outcome e w) [
          | inl (r, u) ↦ rw (ap (λ (x : World si). x.db) u) (same w.db)
          | inr (x, u) ↦ rw u (same w.db)
        ];
      };
    }

    module _ (laws : IndexerLaws si) (Q : World si → Type 0) where
      pub save_height-Steps :
          ((height : ℕ) (s t : si.store.Db) → SavedHeight si.codec si.store height s t → D s t)
          → (height : ℕ) → Steps OfDb Q (writes (si.store.save_last_processed_height height))
      unfolding writes
      save_height-Steps saved height = record {
        at = λ w q. go w.db (si.store.save_last_processed_height height w.db).0 refl;
      }
        where
          go :
              (s : si.store.Db) (r : Result (Unit {0}))
              → (si.store.save_last_processed_height height s).0 ≡ r
              → D s (si.store.save_last_processed_height height s).1
          go s (ok tt) e = saved height s _ (
              laws.store.save_height_ok height s _
                (λ i. (e i, (si.store.save_last_processed_height height s).1)))
          go s (err x) e = rw (laws.store.save_height_failed height s (λ q. cc (e, q))) (same s)
          go s panic e = rw (laws.store.save_height_failed height s (λ q. cc (e, q))) (same s)

      pub process_unbonding-Steps :
          (tx : MsgTx) (sh : Hash) (height : ℕ) (timestamp : ℤ) (params : Params)
          → ((w : World si) (t : si.store.Db)
              → Q w
              → AddedUnbonding si.codec si.store tx sh w.db t
              → D w.db t)
          → Steps OfDb Q (process_unbonding_tx si tx sh height timestamp params)
      unfolding process_unbonding_tx announce
      process_unbonding-Steps tx sh height timestamp params added = record {
        at = λ w q.
            elim (announce_outcome (get_tx_hex si tx)
              (unbonding_event si tx sh height timestamp params)
              (si.store.add_unbonding_transaction tx sh) w) [
                | inl same' ↦ rw same' (same w.db)
                | inr (hex, new) ↦ rw new (elim (add_unbonding_cases laws tx sh w.db) [
                  | inl a ↦ added w _ q a
                  | inr same' ↦ rw same' (same w.db)
                ])
              ];
      }

      add_staking-Steps :
          (P : World si → Type 0) (st : StoredStakingTransaction) (timestamp : ℤ)
          → ((w : World si) (t : si.store.Db)
              → P w
              → AddedStaking si.codec si.store st w.db t
              → D w.db t)
          → Steps OfDb P (add_staking_transaction si st timestamp)
      unfolding add_staking_transaction announce
      add_staking-Steps P st timestamp added = record {
        at = λ w q.
            elim (announce_outcome (get_tx_hex si st.tx) (staking_event si st timestamp)
              (si.store.add_staking_transaction st) w) [
                | inl same' ↦ rw same' (same w.db)
                | inr (hex, new) ↦ rw new (elim (add_staking_cases laws st w.db) [
                  | inl a ↦ added w _ q a
                  | inr same' ↦ rw same' (same w.db)
                ])
              ];
      }

      module _ (trans : (s t u : si.store.Db) → D s t → D t u → D s u) (tx : MsgTx)
          (d : ParsedStakingTx) (height : ℕ) (timestamp : ℤ) (params : Params) where
        -- What was read before a record is added: the record, and the flag that was decided.
        abbrev pub Decided : Option StoredStakingTransaction → Option Bool → World si → Type 0
        Decided stored decided w =
            Q w
            × (si.store.get_staking_transaction (si.codec.tx_hash tx) w.db ≡ ok stored)
            × (decide_overflow si stored d height params w.db ≡ ok decided)

        module _
            (added : (stored : Option StoredStakingTransaction) (overflow : Bool) (w : World si)
                (t : si.store.Db)
              → Decided stored (some overflow) w
              → AddedStaking si.codec si.store (stored_staking_tx si tx d height overflow) w.db t
              → D w.db t) where
          add_decided-Steps :
              (stored : Option StoredStakingTransaction) (decided : Option Bool)
              → Steps OfDb (Decided stored decided) (add_decided si tx d height timestamp decided)
          unfolding add_decided
          add_decided-Steps stored none = Steps-pure (OfDb-IsPreorder trans) _ tt
          add_decided-Steps stored (some overflow) =
              add_staking-Steps _ (stored_staking_tx si tx d height overflow) timestamp
                (added stored overflow)

          pub process_staking-Steps :
              Steps OfDb Q (process_staking_tx si tx d height timestamp params)
          unfolding process_staking_tx
          process_staking-Steps =
              let pre = OfDb-IsPreorder trans in
              Steps-bind-reads pre Q
                (λ stored w.
                  Q w × (si.store.get_staking_transaction (si.codec.tx_hash tx) w.db ≡ ok stored))
                _ _ (λ w a q e. (q, e))
                λ stored.
                  Steps-bind-reads pre _ (Decided stored) _ _ (λ w a q e. (q.0, q.1, e))
                    λ decided. add_decided-Steps stored decided

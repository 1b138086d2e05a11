-- ===== src/Indexer/Refines/Process.antt =====
-- `ProcessStakingTx` and `ProcessUnbondingTx` as steps of the ledger.
use staking_indexer.Prelude.{
  ℕ, ℤ, Bool, true, Bytes, Option, none, some, [], ◌∷◌, ◌++◌, ◌≡◌, refl, inl, inr,
}
use staking_indexer.Prelude.Result.{ok}
use staking_indexer.Wire.{MsgTx}
use staking_indexer.Store.Record.{StoredStakingTransaction}
use staking_indexer.Indexer.Types.{StakingIndexer, World, Params, ParsedStakingTx}
use staking_indexer.Indexer.Exec.Steps.{Steps, Steps-pure, Steps-bind-reads}
use staking_indexer.Indexer.StartHeight.{get_versioned_params}
use staking_indexer.Indexer.Staking.{try_parse_staking_tx}
use staking_indexer.Indexer.Process.{
  get_tx_hex, staking_event, unbonding_event, add_staking_transaction, process_staking_tx,
  process_unbonding_tx, decide_overflow, add_decided, stored_staking_tx,
}
use staking_indexer.Indexer.Spending.{is_valid_unbonding_tx}
use staking_indexer.Indexer.Ledger.{Reach, staked, unbonded, pushed, here, Known, Reach-one}
use staking_indexer.Indexer.Ledger.Laws.{IndexerLaws}
use staking_indexer.Indexer.Refines.Writes.{
  Reach-IsPreorder, announce, announce_outcome, add_staking_cases, add_unbonding_cases,
}

module _ {si : StakingIndexer} (laws : IndexerLaws si) where
  -- What the record of the transaction and its overflow flag were when they were read.
  abbrev IsDecided :
      MsgTx
      → ParsedStakingTx
      → ℕ
      → Params
      → Option StoredStakingTransaction
      → Option Bool
      → World si
      → Type 0
  IsDecided tx d height params stored decided w =
      (si.store.get_staking_transaction (si.codec.tx_hash tx) w.db ≡ ok stored)
      × (decide_overflow si stored d height params w.db ≡ ok decided)

  module _ (tx : MsgTx) (d : ParsedStakingTx) (height : ℕ) (timestamp : ℤ) (params : Params)
      (versioned : get_versioned_params si height ≡ ok params)
      (parsed : try_parse_staking_tx si tx params ≡ ok d) where
    announced_staking-Reach :
        (overflow : Bool) (hex : Bytes) (w : World si) (stored : Option StoredStakingTransaction)
        → IsDecided tx d height params stored (some overflow) w
        → Reach si w (record {
          db =
              (si.store.add_staking_transaction (stored_staking_tx si tx d height overflow) w.db).1;
          sent =
              w.sent
              ++ staking_event si (stored_staking_tx si tx d height overflow) timestamp hex ∷ [];
        })
    unfolding stored_staking_tx
    announced_staking-Reach overflow hex w none q =
        elim (add_staking_cases laws (stored_staking_tx si tx d height overflow) w.db) [
          | inl a ↦
              Reach-one
                (staked tx d height timestamp params overflow hex versioned parsed q.1 a refl)
          | inr same ↦ Reach-one (pushed _ same refl)
        ]
    announced_staking-Reach overflow hex w (some old) q =
        elim (add_staking_cases laws (stored_staking_tx si tx d height overflow) w.db) [
          | inl a ↦ absurd (cc (a.was_absent, q.0))
          | inr same ↦ Reach-one (pushed _ same refl)
        ]

    add_staking-Steps :
        (stored : Option StoredStakingTransaction) (overflow : Bool)
        → Steps
            (Reach si)
            (IsDecided tx d height params stored (some overflow))
            (add_staking_transaction si (stored_staking_tx si tx d height overflow) timestamp)
    unfolding add_staking_transaction announce
    add_staking-Steps stored overflow =
        let st = stored_staking_tx si tx d height overflow in
        record {
          at = λ w q.
              elim (announce_outcome (get_tx_hex si st.tx) (staking_event si st timestamp)
                (si.store.add_staking_transaction st) w) [
                  | inl same ↦ rw same here
                  | inr (hex, new) ↦ rw new (announced_staking-Reach overflow hex w stored q)
                ];
        }

    add_decided-Steps :
        (stored : Option StoredStakingTransaction) (decided : Option Bool)
        → Steps
            (Reach si)
            (IsDecided tx d height params stored decided)
            (add_decided si tx d height timestamp decided)
    unfolding add_decided
    add_decided-Steps stored none = Steps-pure Reach-IsPreorder _ tt
    add_decided-Steps stored (some overflow) = add_staking-Steps stored overflow

    -- Processing a parsed staking transaction takes steps of the ledger only.
    pub process_staking-Steps :
        (Q : World si → Type 0)
        → Steps (Reach si) Q (process_staking_tx si tx d height timestamp params)
    unfolding process_staking_tx
    process_staking-Steps Q =
        Steps-bind-reads Reach-IsPreorder Q
          (λ stored w. si.store.get_staking_transaction (si.codec.tx_hash tx) w.db ≡ ok stored) _ _
          (λ w a q e. e)
          (λ stored.
            Steps-bind-reads Reach-IsPreorder _ (IsDecided tx d height params stored) _ _
              (λ w a q e. (q, e)) (λ decided. add_decided-Steps stored decided))

  -- Processing a valid unbonding transaction of a known staking transaction, likewise.
  pub process_unbonding-Steps :
      (tx : MsgTx) (st : StoredStakingTransaction) (height : ℕ) (timestamp : ℤ) (params : Params)
      → get_versioned_params si st.inclusion_height ≡ ok params
      → is_valid_unbonding_tx si tx st params ≡ ok true
      → Steps
          (Reach si)
          (Known si st)
          (process_unbonding_tx si tx (si.codec.tx_hash st.tx) height timestamp params)
  unfolding process_unbonding_tx announce
  process_unbonding-Steps tx st height timestamp params versioned valid =
      let sh = si.codec.tx_hash st.tx in
      record {
        at = λ w q.
            elim (announce_outcome (get_tx_hex si tx)
              (unbonding_event si tx sh height timestamp params)
              (si.store.add_unbonding_transaction tx sh) w) [
                | inl same ↦ rw same here
                | inr (hex, new) ↦ rw new (elim (add_unbonding_cases laws tx sh w.db) [
                  | inl a ↦
                      Reach-one
                        (unbonded tx st height timestamp params hex q versioned valid a refl)
                  | inr same ↦ Reach-one (pushed _ same refl)
                ])
              ];
      }

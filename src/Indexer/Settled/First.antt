-- ===== src/Indexer/Settled/First.antt =====
-- A transaction that was handled without an error is settled.
use staking_indexer.Prelude.{
  ℕ, ℤ, Bool, true, false, Option, none, some, List, [], ◌∷◌, ◌≡◌, refl, sym, inl, inr, In,
}
use staking_indexer.Prelude.Result.{Result, ok, err, panic}
use staking_indexer.Wire.{MsgTx, TxIn}
use staking_indexer.Store.Record.{StoredStakingTransaction}
use staking_indexer.Indexer.Types.{StakingIndexer, World, Params, ParsedStakingTx}
use staking_indexer.Indexer.Exec.{◌>>=◌, reads}
use staking_indexer.Indexer.Exec.Ensures.{
  Ensures, Ensures-bind, Ensures-bind-lift, Ensures-bind-reads,
}
use staking_indexer.Indexer.StartHeight.{get_versioned_params}
use staking_indexer.Indexer.Staking.{try_parse_staking_tx, validate_staking_tx}
use staking_indexer.Indexer.Spending.{is_valid_unbonding_tx}
use staking_indexer.Indexer.Spent.{get_spent_staking_txs, get_spent_unbonding_txs}
use staking_indexer.Indexer.Spent.Exact.{get_spent_staking_txs-cong}
use staking_indexer.Indexer.Block.{
  for_each, try_staking, handle_verdict, handle_spending_staking_transaction,
  handle_spending_unbonding_transaction, handle_tx, pass_invalid_unbonding,
}
use staking_indexer.Indexer.Block.Steps as BlockSteps
use staking_indexer.Indexer.Ledger.{Reach, Known}
use staking_indexer.Indexer.Ledger.Laws.{IndexerLaws}
use staking_indexer.Indexer.Ledger.Records.{IsKeyed, Reach-IsKeyed, Reach-staking}
use staking_indexer.Indexer.Refines.Writes.{Reach-IsPreorder}
use staking_indexer.Indexer.Refines.Handlers.{Known-Stable}
use staking_indexer.Indexer.Refines.Blocks as Refines
use staking_indexer.Indexer.Settled.{Apart, Settled}
use staking_indexer.Indexer.Settled.Frame.{try_staking-same, handle_tx-same}
use staking_indexer.Indexer.Settled.Calls.{
  OwnDuplicates, HasStaking, HasUnbonding, Reach-HasStaking, Reach-HasUnbonding,
  process_staking-HasStaking, process_unbonding-HasUnbonding,
}

module _ {si : StakingIndexer} (laws : IndexerLaws si) (own : OwnDuplicates si) (tx : MsgTx)
    (height : ℕ) (timestamp : ℤ) where
  -- If the transaction is a valid unbonding of `st`, it has a record.
  abbrev IsUnbonded : StoredStakingTransaction × ℕ → World si → Type 0
  IsUnbonded s w =
      (old : Params)
      → get_versioned_params si s.0.inclusion_height ≡ ok old
      → is_valid_unbonding_tx si tx s.0 old ≡ ok true
      → HasUnbonding (si.codec.tx_hash tx) w

  verdict-IsUnbonded :
      (s : StoredStakingTransaction × ℕ) (old : Params) (verdict : Option Bool)
      → get_versioned_params si s.0.inclusion_height ≡ ok old
      → pass_invalid_unbonding (is_valid_unbonding_tx si tx s.0 old) ≡ ok verdict
      → Ensures
          (Known si s.0)
          (λ _ v. IsUnbonded s v)
          (handle_verdict si verdict tx s.0 s.1 height timestamp old)
  unfolding handle_verdict
  verdict-IsUnbonded s old none v e = record {
    at = λ w a q h old' v' valid. let same : old ≡ old' = cc in absurd (cc (rw (same, valid) at e));
  }
  verdict-IsUnbonded s old (some false) v e = record {
    at = λ w a q h old' v' valid. let same : old ≡ old' = cc in absurd (cc (rw (same, valid) at e));
  }
  verdict-IsUnbonded s old (some true) v e = record {
    at = λ w a q h old' v' valid.
        (process_unbonding-HasUnbonding laws own (Known si s.0) tx s.0 height timestamp old).at w a
          q h;
  }

  spending-IsUnbonded :
      (s : StoredStakingTransaction × ℕ)
      → Ensures
          (Known si s.0)
          (λ _ v. IsUnbonded s v)
          (handle_spending_staking_transaction si tx s.0 s.1 height timestamp)
  unfolding handle_spending_staking_transaction
  spending-IsUnbonded s =
      Ensures-bind-lift _ _ _ _
        λ old v. Ensures-bind-lift _ _ _ _ λ verdict e. verdict-IsUnbonded s old verdict v e

  Reach-IsUnbonded :
      (s : StoredStakingTransaction × ℕ) (w u : World si)
      → Reach si w u
      → IsUnbonded s w
      → IsUnbonded s u
  Reach-IsUnbonded s w u r b old v valid = Reach-HasUnbonding w u _ r (b old v valid)

  AllKnown : List (StoredStakingTransaction × ℕ) → World si → Type 0
  AllKnown spent w = (s : StoredStakingTransaction × ℕ) → In s spent → Known si s.0 w

  loop : List (StoredStakingTransaction × ℕ) → World si → Result (Unit {0}) × World si
  loop spent =
      for_each si spent (λ s. handle_spending_staking_transaction si tx s.0 s.1 height timestamp)

  loop-Reach :
      (spent : List (StoredStakingTransaction × ℕ)) (w : World si)
      → AllKnown spent w
      → Reach si w (loop spent w).1
  unfolding loop AllKnown
  loop-Reach spent w k =
      (BlockSteps.for_each-Steps Reach-IsPreorder (λ s w'. Known si s.0 w')
          (λ s. Known-Stable laws s.0) spent _
          (λ s i. Refines.handle_spending_staking-Steps laws tx height timestamp s.0 s.1)).at
        w k

  loop-IsUnbonded :
      (spent : List (StoredStakingTransaction × ℕ))
      → Ensures
          (AllKnown spent)
          (λ _ v. (s : StoredStakingTransaction × ℕ) → In s spent → IsUnbonded s v)
          (loop spent)
  unfolding loop AllKnown for_each
  loop-IsUnbonded [] = record { at = λ w a q h s i. elim i [ ] }
  loop-IsUnbonded (x ∷ spent) =
      Ensures-bind _ _ (λ _ v. IsUnbonded x v × AllKnown spent v) _ _
        (record {
          at = λ w a q h. (
            (spending-IsUnbonded x).at w a (q x (inl refl)) h,
            λ s i.
                Reach-staking laws w _ _ s.0
                  ((Refines.handle_spending_staking-Steps laws tx height timestamp x.0 x.1).at w
                    (q x (inl refl)))
                  (q s (inr i)),
          );
        })
        λ _. record {
          at = λ w a q h s i. elim i [
            | inl e ↦ rw e (Reach-IsUnbonded x w _ (loop-Reach spent w q.1) q.0)
            | inr j ↦ (loop-IsUnbonded spent).at w a q.1 h s j
          ];
        }

  module _ (params : Params) (versioned : get_versioned_params si height ≡ ok params)
      (apart : Apart si tx tx) where
    -- If the transaction is a valid staking transaction, it has a record.
    IsStaked : World si → Type 0
    IsStaked w =
        (d : ParsedStakingTx)
        → try_parse_staking_tx si tx params ≡ ok d
        → validate_staking_tx params d ≡ ok tt
        → HasStaking (si.codec.tx_hash tx) w

    try_staking-IsStaked :
        (Q : World si → Type 0) (r : Result ParsedStakingTx)
        → try_parse_staking_tx si tx params ≡ r
        → Ensures Q (λ _ v. IsStaked v) (try_staking si r tx height timestamp params)
    unfolding try_staking IsStaked
    try_staking-IsStaked Q (ok d) e = record {
      at = λ w a q h d' p valid.
          let same : d ≡ d' = cc in
          (process_staking-HasStaking laws own Q tx d height timestamp params versioned e
              (rw same valid)).at
            w a q h;
    }
    try_staking-IsStaked Q (err x) e = record { at = λ w a q h d p valid. absurd (cc (e, p)) }
    try_staking-IsStaked Q panic e = record { at = λ w a q h d p valid. absurd (cc (e, p)) }

    -- The records of the inputs read as they did in `first`.
    InputsAs : World si → World si → Type 0
    InputsAs first w =
        (t : TxIn)
        → In t tx.tx_in
        → si.store.get_staking_transaction t.previous_out_point.hash w.db
          ≡ si.store.get_staking_transaction t.previous_out_point.hash first.db

    module _ (first : World si) where
      Staked : World si → Type 0
      Staked w = IsKeyed si w × InputsAs first w × IsStaked w

      Spent : World si → Type 0
      Spent w =
          IsKeyed si w
          × IsStaked w
          × ((s : StoredStakingTransaction × ℕ)
              → In s (get_spent_staking_txs si tx first.db)
              → IsUnbonded s w)

      staked :
          Ensures
            (λ w. IsKeyed si w × (w ≡ first))
            (λ _ v. Staked v)
            (try_staking si (try_parse_staking_tx si tx params) tx height timestamp params)
      unfolding Staked InputsAs
      staked = record {
        at = λ w a q h. (
          Reach-IsKeyed laws w _
              ((Refines.try_staking-Steps laws tx height timestamp params versioned).at w q.0) q.0,
          λ t i. rw (← q.1) (try_staking-same laws _ tx height timestamp params (apart t i) w),
          (try_staking-IsStaked (λ _. Unit {0}) _ refl).at w a tt h,
        );
      }

      spent_loop :
          (spent : List (StoredStakingTransaction × ℕ))
          → Ensures
              (λ w. Staked w × (ok (get_spent_staking_txs si tx w.db) ≡ ok spent))
              (λ _ v. Spent v)
              (loop spent)
      unfolding Staked Spent InputsAs IsStaked AllKnown
      spent_loop spent = record {
        at = λ w a q h.
            let same : get_spent_staking_txs si tx w.db ≡ spent = cc q.1 in
            let known : AllKnown spent w =
              λ s i. Refines.spent_staking-Known laws tx w s q.0.0 (rw same i) in
            let r = loop-Reach spent w known in
            (
              Reach-IsKeyed laws w _ r q.0.0,
              λ d p valid. Reach-HasStaking w _ _ r (q.0.2 d p valid),
              λ s i.
                  (loop-IsUnbonded spent).at w a known h s
                    (rw same at (get_spent_staking_txs-cong si tx first.db w.db s q.0.1 i)),
            );
      }

      rest :
          Ensures Spent
            (λ _ v. Spent v)
            (reads (λ db. ok (get_spent_unbonding_txs si tx db)) >>= λ us.
              for_each si us (λ u. handle_spending_unbonding_transaction si tx u.0 u.1))
      unfolding Spent IsStaked
      rest = record {
        at = λ w a q h.
            let r = (Refines.spent_unbonding-Steps laws tx).at w q.0 in
            (
              Reach-IsKeyed laws w _ r q.0,
              λ d p valid. Reach-HasStaking w _ _ r (q.1 d p valid),
              λ s i. Reach-IsUnbonded s w _ r (q.2 s i),
            );
      }

      handle_tx-Spent :
          Ensures
            (λ w. IsKeyed si w × (w ≡ first))
            (λ _ v. Spent v)
            (handle_tx si tx height timestamp params)
      unfolding handle_tx loop
      handle_tx-Spent =
          Ensures-bind _ _ (λ _ w. Staked w) _ _ staked
            λ _.
              Ensures-bind-reads _ _ _ _
                λ spent. Ensures-bind _ _ (λ _ w. Spent w) _ _ (spent_loop spent) λ _. rest

    pub handle_tx-Settled :
        Ensures
          (IsKeyed si)
          (λ _ v. Settled si tx params v.db)
          (handle_tx si tx height timestamp params)
    unfolding Spent IsStaked
    handle_tx-Settled = record {
      at = λ w a k h.
          let done = (handle_tx-Spent w).at w a (k, refl) h in
          record {
            staking = done.1;
            unbonding = λ s old i v valid.
                done.2 s
                  (get_spent_staking_txs-cong si tx _ w.db s
                    (λ t j. sym (handle_tx-same laws _ tx height timestamp params (apart t j) w)) i)
                  old v valid;
          };
    }

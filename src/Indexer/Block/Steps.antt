-- ===== src/Indexer/Block/Steps.antt =====
-- The handlers of Block.antt keep every relation between states that their four leaves keep: the
-- processing of a staking and of an unbonding transaction, a push, and the saving of the height.
use staking_indexer.Prelude.{
  ℕ, ℤ, to_u64, Bool, true, false, not, Option, none, some, List, [], ◌∷◌, ◌≡◌, refl, inl, inr, In,
}
use staking_indexer.Prelude.Result.{Result, ok, err, panic}
use staking_indexer.Wire.{Hash, MsgTx}
use staking_indexer.Wire.Blocks.{Tx, IndexedBlock}
use staking_indexer.Store.Record.{StoredStakingTransaction, StoredUnbondingTransaction}
use staking_indexer.Indexer.Types.{StakingIndexer, World, Event, Params, ParsedStakingTx}
use staking_indexer.Indexer.Exec.{Exec, reads, writes, ◌>>=◌, push_event}
use staking_indexer.Indexer.Exec.Steps.{
  IsPreorder, Stable, Steps, Steps-pure, Steps-lift, Steps-if, Steps-bind-lift, Steps-bind-reads,
  Steps-bind,
}
use staking_indexer.Indexer.StartHeight.{get_versioned_params}
use staking_indexer.Indexer.Staking.{try_parse_staking_tx}
use staking_indexer.Indexer.Spending.{is_valid_unbonding_tx}
use staking_indexer.Indexer.Spent.{get_spent_staking_txs, get_spent_unbonding_txs}
use staking_indexer.Indexer.Process.{process_staking_tx, process_unbonding_tx, process_withdraw_tx}
use staking_indexer.Indexer.Block.{
  for_each, ignore_duplicate, withdraw_if, handle_verdict, handle_spending_staking_transaction,
  handle_spending_unbonding_transaction, try_staking, handle_tx, emit_confirmed_info,
  handle_confirmed_block, handle_confirmed_blocks, pass_invalid_unbonding,
}
use staking_indexer.Indexer.Block.Verdict.{passed_verdict}

-- A push takes a step, from any state.
pub record Pushes {si : StakingIndexer} (R : World si → World si → Type 0) : Type 1 where
  pub push : (Q : World si → Type 0) (e : Event) → Steps R Q (push_event e)

module _ {si : StakingIndexer} {R : World si → World si → Type 0} (pre : IsPreorder R) where
  -- A loop, where each item has a condition that the steps keep.
  pub for_each-Steps :
      {A : Type 0} (S : A → World si → Type 0) (stable : (x : A) → Stable R (S x)) (xs : List A)
      (f : A → Exec si (Unit {0}))
      → ((x : A) → In x xs → Steps R (S x) (f x))
      → Steps R (λ w. (x : A) → In x xs → S x w) (for_each si xs f)
  unfolding for_each
  for_each-Steps S stable [] f sf = Steps-pure pre _ tt
  for_each-Steps {A} S stable (x ∷ xs) f sf =
      Steps-bind pre (λ w. (y : A) → In y (x ∷ xs) → S y w)
        (record { keep = λ w u r q y i. (stable y).keep w u r (q y i) }) _ _
        (record { at = λ w q. (sf x (inl refl)).at w (q x (inl refl)) })
        λ _. record {
          at =
              λ w q. (for_each-Steps S stable xs f (λ y i. sf y (inr i))).at w (λ y i. q y (inr i));
        }

  -- The same with one condition for all items.
  pub for_all-Steps :
      {A : Type 0} (Q : World si → Type 0) (stable : Stable R Q) (xs : List A)
      (f : A → Exec si (Unit {0}))
      → ((x : A) → In x xs → Steps R Q (f x))
      → Steps R Q (for_each si xs f)
  for_all-Steps Q stable xs f sf = record {
    at = λ w q. (for_each-Steps (λ x. Q) (λ x. stable) xs f sf).at w (λ x i. q);
  }

  pub ignore_duplicate-Steps :
      (Q : World si → Type 0) (m : Exec si (Unit {0}))
      → Steps R Q m
      → Steps R Q (ignore_duplicate si m)
  unfolding ignore_duplicate
  ignore_duplicate-Steps Q m sm = record { at = λ w q. sm.at w q }

  module _ (pushes : Pushes R) where
    withdraw_if-Steps :
        (Q : World si → Type 0) (valid : Bool) (sh : Hash) → Steps R Q (withdraw_if si valid sh)
    unfolding withdraw_if process_withdraw_tx
    withdraw_if-Steps Q valid sh = Steps-if pre Q valid _ _ (pushes.push Q _) (Steps-pure pre Q tt)

    handle_spending_unbonding-Steps :
        (Q : World si → Type 0) (tx : MsgTx) (ut : StoredUnbondingTransaction) (i : ℕ)
        → Steps R Q (handle_spending_unbonding_transaction si tx ut i)
    unfolding handle_spending_unbonding_transaction
    handle_spending_unbonding-Steps Q tx ut i =
        Steps-bind-reads pre Q (λ a. Q) _ _ (λ w a q e. q)
          λ maybe. Steps-bind-lift pre Q _ _ λ st e.
            Steps-bind-lift pre Q _ _
              λ params e'. Steps-bind-lift pre Q _ _ λ valid e''. withdraw_if-Steps Q valid _

    pub spent_unbonding-Steps :
        (Q : World si → Type 0) (stable : Stable R Q) (tx : MsgTx)
        → Steps R Q (
            reads (λ db. ok (get_spent_unbonding_txs si tx db)) >>= λ us.
            for_each si us (λ u. handle_spending_unbonding_transaction si tx u.0 u.1))
    spent_unbonding-Steps Q stable tx =
        Steps-bind-reads pre _ (λ a w. Q w) _ _ (λ w a k e. k)
          λ us. for_all-Steps _ stable us _ (λ u i. handle_spending_unbonding-Steps _ tx u.0 u.1)

    module _ (Q : World si → Type 0) (tx : MsgTx) (st : StoredStakingTransaction) (i height : ℕ)
        (timestamp : ℤ)
        (unbonding : (params : Params)
          → get_versioned_params si st.inclusion_height ≡ ok params
          → is_valid_unbonding_tx si tx st params ≡ ok true
          → Steps R Q
              (process_unbonding_tx si tx (si.codec.tx_hash st.tx) height timestamp params)) where
      handle_verdict-Steps :
          (verdict : Option Bool) (params : Params)
          → get_versioned_params si st.inclusion_height ≡ ok params
          → pass_invalid_unbonding (is_valid_unbonding_tx si tx st params) ≡ ok verdict
          → Steps R Q (handle_verdict si verdict tx st i height timestamp params)
      unfolding handle_verdict
      handle_verdict-Steps none params v e = Steps-pure pre _ tt
      handle_verdict-Steps (some true) params v e =
          ignore_duplicate-Steps _ _ (unbonding params v (passed_verdict _ true e))
      handle_verdict-Steps (some false) params v e =
          Steps-bind-lift pre _ _ _ λ valid e'. withdraw_if-Steps _ valid _

      pub handle_spending_staking-Steps :
          Steps R Q (handle_spending_staking_transaction si tx st i height timestamp)
      unfolding handle_spending_staking_transaction
      handle_spending_staking-Steps =
          Steps-bind-lift pre _ _ _ λ params v.
            Steps-bind-lift pre _ _ _ λ verdict e. handle_verdict-Steps verdict params v e

    -- The steps of a transaction: `S` is what is known of a staking transaction that it spends.
    module _ (Q : World si → Type 0) (stable : Stable R Q)
        (S : StoredStakingTransaction × ℕ → World si → Type 0)
        (stable_spent : (s : StoredStakingTransaction × ℕ) → Stable R (S s)) (tx : MsgTx)
        (height : ℕ) (timestamp : ℤ) (params : Params)
        (learn : (w : World si) (s : StoredStakingTransaction × ℕ)
          → Q w
          → In s (get_spent_staking_txs si tx w.db)
          → S s w)
        (staking : (d : ParsedStakingTx)
          → try_parse_staking_tx si tx params ≡ ok d
          → Steps R Q (process_staking_tx si tx d height timestamp params))
        (unbonding : (s : StoredStakingTransaction × ℕ) (old : Params)
          → get_versioned_params si s.0.inclusion_height ≡ ok old
          → is_valid_unbonding_tx si tx s.0 old ≡ ok true
          → Steps R
              (S s)
              (process_unbonding_tx si tx (si.codec.tx_hash s.0.tx) height timestamp old)) where
      pub try_staking-Steps :
          (r : Result ParsedStakingTx)
          → try_parse_staking_tx si tx params ≡ r
          → Steps R Q (try_staking si r tx height timestamp params)
      unfolding try_staking
      try_staking-Steps (ok d) e = staking d e
      try_staking-Steps (err x) e = Steps-pure pre Q tt
      try_staking-Steps panic e = Steps-lift pre Q panic

      spending-Steps :
          (spent : List (StoredStakingTransaction × ℕ))
          → Steps R
              (λ w. (s : StoredStakingTransaction × ℕ) → In s spent → S s w)
              (for_each si spent
                (λ s. handle_spending_staking_transaction si tx s.0 s.1 height timestamp))
      spending-Steps spent =
          for_each-Steps S stable_spent spent _
            λ s i. handle_spending_staking-Steps (S s) tx s.0 s.1 height timestamp (unbonding s)

      pub handle_tx-Steps : Steps R Q (handle_tx si tx height timestamp params)
      unfolding handle_tx
      handle_tx-Steps = Steps-bind pre _ stable _ _ (try_staking-Steps _ refl) λ _.
          Steps-bind-reads pre _
            (λ spent w. Q w × ((s : StoredStakingTransaction × ℕ) → In s spent → S s w)) _ _
            (λ w a k e.
              let same : get_spent_staking_txs si tx w.db ≡ a = cc e in
              (k, λ s i. learn w s k (rw same i)))
            λ spent.
              Steps-bind pre _
                (record {
                  keep = λ w u r q.
                      (stable.keep w u r q.0, λ s i. (stable_spent s).keep w u r (q.1 s i));
                })
                _ _ (record { at = λ w q. (spending-Steps spent).at w q.1 })
                λ _. record { at = λ w q. (spent_unbonding-Steps Q stable tx).at w q.0 }

    -- The steps of a block, from those of its transactions.
    module _ (Q : World si → Type 0) (stable : Stable R Q)
        (save : (height : ℕ)
          → Steps R Q (writes (si.store.save_last_processed_height height))) where
      -- What follows the transactions.
      pub finish-Steps :
          (height : ℕ)
          → Steps R Q (
              writes (si.store.save_last_processed_height height) >>= λ _.
              emit_confirmed_info si height)
      unfolding emit_confirmed_info
      finish-Steps height = Steps-bind pre _ stable _ _ (save height) λ _.
          Steps-if pre _ (not si.extra_event_enabled) _ _ (Steps-pure pre _ tt)
            (Steps-bind-reads pre _ (λ a w. Unit {0}) _ _ (λ w a q e. tt) (λ tvl. pushes.push _ _))

      pub handle_confirmed_block-Steps :
          (b : IndexedBlock)
          → ((params : Params) (t : Tx)
              → get_versioned_params si (to_u64 b.height) ≡ ok params
              → In t b.txs
              → Steps R Q (handle_tx si t.msg_tx (to_u64 b.height) b.header.timestamp params))
          → Steps R Q (handle_confirmed_block si b)
      unfolding handle_confirmed_block
      handle_confirmed_block-Steps b txs = Steps-bind-lift pre _ _ _ λ params v.
          Steps-bind pre _ stable _ _ (for_all-Steps _ stable b.txs _ (λ t i. txs params t v i))
            (λ _. finish-Steps (to_u64 b.height))

      pub handle_confirmed_blocks-Steps :
          (bs : List IndexedBlock)
          → ((b : IndexedBlock) → In b bs → Steps R Q (handle_confirmed_block si b))
          → Steps R Q (handle_confirmed_blocks si bs)
      unfolding handle_confirmed_blocks
      handle_confirmed_blocks-Steps bs sf = for_all-Steps _ stable bs _ sf

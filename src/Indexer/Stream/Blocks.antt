-- ===== src/Indexer/Stream/Blocks.antt =====
-- The handling of confirmed blocks does not depend on the events that were pushed before, where the
-- consumer takes every event.
use staking_indexer.Prelude.{
  ℕ, ℤ, to_u64, Bool, true, false, not, Option, none, some, List, [], ◌∷◌,
}
use staking_indexer.Prelude.Result.{Result, ok, err, panic}
use staking_indexer.Wire.{MsgTx, Hash}
use staking_indexer.Wire.Blocks.{IndexedBlock}
use staking_indexer.Store.Record.{StoredStakingTransaction, StoredUnbondingTransaction}
use staking_indexer.Indexer.Types.{StakingIndexer, Params, ParsedStakingTx}
use staking_indexer.Indexer.Exec.{Exec}
use staking_indexer.Indexer.Exec.Blind.{
  Blind, Accepts, Blind-pure, Blind-lift, Blind-reads, Blind-writes, Blind-if, Blind-bind,
  Blind-push,
}
use staking_indexer.Indexer.Process.{
  save, add_staking_transaction, add_decided, process_staking_tx, process_unbonding_tx,
  process_withdraw_tx, unless_duplicate,
}
use staking_indexer.Indexer.Block.{
  for_each, ignore_duplicate, withdraw_if, handle_verdict, handle_spending_staking_transaction,
  handle_spending_unbonding_transaction, try_staking, handle_tx, emit_confirmed_info,
  handle_confirmed_block, handle_confirmed_blocks,
}
use staking_indexer.Prelude.{ap}

module _ {si : StakingIndexer} (accepts : Accepts si) where
  add_staking-Blind :
      (st : StoredStakingTransaction) (timestamp : ℤ)
      → Blind (add_staking_transaction si st timestamp)
  unfolding add_staking_transaction save
  add_staking-Blind st timestamp =
      Blind-bind _ _ (Blind-lift _) λ hex. Blind-bind _ _ (Blind-push accepts _) λ _. Blind-writes _

  add_decided-Blind :
      (tx : MsgTx) (d : ParsedStakingTx) (height : ℕ) (timestamp : ℤ) (o : Option Bool)
      → Blind (add_decided si tx d height timestamp o)
  unfolding add_decided
  add_decided-Blind tx d height timestamp none = Blind-pure tt
  add_decided-Blind tx d height timestamp (some b) = add_staking-Blind _ timestamp

  process_staking-Blind :
      (tx : MsgTx) (d : ParsedStakingTx) (height : ℕ) (timestamp : ℤ) (params : Params)
      → Blind (process_staking_tx si tx d height timestamp params)
  unfolding process_staking_tx
  process_staking-Blind tx d height timestamp params =
      Blind-bind _ _ (Blind-reads _)
        λ stored. Blind-bind _ _ (Blind-reads _) λ o. add_decided-Blind tx d height timestamp o

  process_unbonding-Blind :
      (tx : MsgTx) (sh : Hash) (height : ℕ) (timestamp : ℤ) (params : Params)
      → Blind (process_unbonding_tx si tx sh height timestamp params)
  unfolding process_unbonding_tx save
  process_unbonding-Blind tx sh height timestamp params =
      Blind-bind _ _ (Blind-lift _) λ hex. Blind-bind _ _ (Blind-push accepts _) λ _. Blind-writes _

  withdraw_if-Blind : (valid : Bool) (sh : Hash) → Blind (withdraw_if si valid sh)
  unfolding withdraw_if process_withdraw_tx
  withdraw_if-Blind valid sh = Blind-if valid _ _ (Blind-push accepts _) (Blind-pure tt)

  ignore_duplicate-Blind : (m : Exec si (Unit {0})) → Blind m → Blind (ignore_duplicate si m)
  unfolding ignore_duplicate
  ignore_duplicate-Blind m b = record {
    at = λ w u e. let (r, d) = b.at w u e in (ap unless_duplicate r, d);
  }

  handle_verdict-Blind :
      (v : Option Bool) (tx : MsgTx) (st : StoredStakingTransaction) (i height : ℕ) (timestamp : ℤ)
      (params : Params)
      → Blind (handle_verdict si v tx st i height timestamp params)
  unfolding handle_verdict
  handle_verdict-Blind none tx st i height timestamp params = Blind-pure tt
  handle_verdict-Blind (some true) tx st i height timestamp params =
      ignore_duplicate-Blind _ (process_unbonding-Blind tx _ height timestamp params)
  handle_verdict-Blind (some false) tx st i height timestamp params =
      Blind-bind _ _ (Blind-lift _) λ valid. withdraw_if-Blind valid _

  spending_staking-Blind :
      (tx : MsgTx) (st : StoredStakingTransaction) (i height : ℕ) (timestamp : ℤ)
      → Blind (handle_spending_staking_transaction si tx st i height timestamp)
  unfolding handle_spending_staking_transaction
  spending_staking-Blind tx st i height timestamp = Blind-bind _ _ (Blind-lift _) λ params.
      Blind-bind _ _ (Blind-lift _) λ v. handle_verdict-Blind v tx st i height timestamp params

  spending_unbonding-Blind :
      (tx : MsgTx) (ut : StoredUnbondingTransaction) (i : ℕ)
      → Blind (handle_spending_unbonding_transaction si tx ut i)
  unfolding handle_spending_unbonding_transaction
  spending_unbonding-Blind tx ut i = Blind-bind _ _ (Blind-reads _) λ maybe.
      Blind-bind _ _ (Blind-lift _) λ st.
        Blind-bind _ _ (Blind-lift _)
          λ params. Blind-bind _ _ (Blind-lift _) λ valid. withdraw_if-Blind valid _

  try_staking-Blind :
      (r : Result ParsedStakingTx) (tx : MsgTx) (height : ℕ) (timestamp : ℤ) (params : Params)
      → Blind (try_staking si r tx height timestamp params)
  unfolding try_staking
  try_staking-Blind (ok d) tx height timestamp params =
      process_staking-Blind tx d height timestamp params
  try_staking-Blind (err e) tx height timestamp params = Blind-pure tt
  try_staking-Blind panic tx height timestamp params = Blind-lift panic

  for_each-Blind :
      {A : Type 0} (xs : List A) (f : A → Exec si (Unit {0}))
      → ((x : A) → Blind (f x))
      → Blind (for_each si xs f)
  unfolding for_each
  for_each-Blind [] f b = Blind-pure tt
  for_each-Blind (x ∷ xs) f b = Blind-bind _ _ (b x) λ _. for_each-Blind xs f b

  handle_tx-Blind :
      (tx : MsgTx) (height : ℕ) (timestamp : ℤ) (params : Params)
      → Blind (handle_tx si tx height timestamp params)
  unfolding handle_tx
  handle_tx-Blind tx height timestamp params =
      Blind-bind _ _ (try_staking-Blind _ tx height timestamp params) λ _.
        Blind-bind _ _ (Blind-reads _) λ staking_txs.
          Blind-bind _ _
            (for_each-Blind staking_txs _ (λ s. spending_staking-Blind tx s.0 s.1 height timestamp))
            λ _. Blind-bind _ _ (Blind-reads _) λ unbonding_txs.
              for_each-Blind unbonding_txs _ (λ u. spending_unbonding-Blind tx u.0 u.1)

  handle_confirmed_block-Blind : (b : IndexedBlock) → Blind (handle_confirmed_block si b)
  unfolding handle_confirmed_block emit_confirmed_info
  handle_confirmed_block-Blind b = Blind-bind _ _ (Blind-lift _) λ params.
      Blind-bind _ _
        (for_each-Blind b.txs _
          (λ t. handle_tx-Blind t.msg_tx (to_u64 b.height) b.header.timestamp params))
        λ _. Blind-bind _ _ (Blind-writes _) λ _.
          Blind-if (not si.extra_event_enabled) _ _ (Blind-pure tt)
            (Blind-bind _ _ (Blind-reads _) λ tvl. Blind-push accepts _)

  pub handle_confirmed_blocks-Blind :
      (bs : List IndexedBlock) → Blind (handle_confirmed_blocks si bs)
  unfolding handle_confirmed_blocks
  handle_confirmed_blocks-Blind bs = for_each-Blind bs _ handle_confirmed_block-Blind

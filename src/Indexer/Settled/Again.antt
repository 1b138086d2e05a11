-- ===== src/Indexer/Settled/Again.antt =====
-- The handling of blocks whose transactions are settled changes no record.
use staking_indexer.Prelude.{ℕ, ℤ, Bool, Option, none, some, List, ◌≡◌, sym, ◌∙◌, In}
use staking_indexer.Prelude.Result.{ok}
use staking_indexer.Wire.{MsgTx}
use staking_indexer.Wire.Blocks.{IndexedBlock}
use staking_indexer.Indexer.Types.{StakingIndexer, World, Params, ParsedStakingTx}
use staking_indexer.Indexer.Exec.Steps.{Steps, Stable}
use staking_indexer.Indexer.Block.{handle_tx, handle_confirmed_blocks}
use staking_indexer.Indexer.Block.Steps as BlockSteps
use staking_indexer.Store.Record.{StoredStakingTransaction}
use staking_indexer.Store.Interface.{AddedStaking}
use staking_indexer.Indexer.Staking.{try_parse_staking_tx}
use staking_indexer.Indexer.Spent.{get_spent_staking_txs}
use staking_indexer.Indexer.Spent.Exact.{get_spent_staking_txs-cong}
use staking_indexer.Indexer.Process.{stored_staking_tx}
use staking_indexer.Indexer.Process.Decided.{decided_valid}
use staking_indexer.Indexer.Ledger.Laws.{IndexerLaws}
use staking_indexer.Indexer.Settled.{
  Settled, SameRecords, AreSettled, SameRecords-refl, SameRecords-trans,
}
use staking_indexer.Indexer.Settled.Leaves.{
  OfDb, OfDb-IsPreorder, OfDb-Pushes, save_height-Steps, process_unbonding-Steps,
  process_staking-Steps, Decided,
}

module _ {si : StakingIndexer} (laws : IndexerLaws si) (settled : si.store.Db) where
  -- The database has the records of the settled one.
  abbrev IsSettledDb : World si → Type 0
  IsSettledDb w = SameRecords si settled w.db

  abbrev Same : World si → World si → Type 0
  Same = OfDb (SameRecords si)

  IsSettledDb-Stable : Stable Same IsSettledDb
  IsSettledDb-Stable = record { keep = λ w u r q. SameRecords-trans settled w.db u.db q r }

  tx-Steps :
      (tx : MsgTx) (height : ℕ) (timestamp : ℤ) (params : Params)
      → Settled si tx params settled
      → Steps Same IsSettledDb (handle_tx si tx height timestamp params)
  unfolding stored_staking_tx
  tx-Steps tx height timestamp params z =
      BlockSteps.handle_tx-Steps (OfDb-IsPreorder _ SameRecords-refl SameRecords-trans)
        (OfDb-Pushes _ SameRecords-refl) IsSettledDb IsSettledDb-Stable
        (λ s w. IsSettledDb w × In s (get_spent_staking_txs si tx settled))
        (λ s. record { keep = λ w u r q. (IsSettledDb-Stable.keep w u r q.0, q.1) }) tx height
        timestamp params
        (λ w s q i.
          (q, get_spent_staking_txs-cong si tx w.db settled s (λ t j. sym (q.staking _)) i))
        (λ d p.
          process_staking-Steps (SameRecords si) SameRecords-refl laws IsSettledDb SameRecords-trans
            tx d height timestamp params (absent d p))
        λ s old v p.
          process_unbonding-Steps (SameRecords si) SameRecords-refl laws _ tx _ height timestamp old
            λ w t q a. absurd (z.unbonding s old q.1 v p (sym (q.0.unbonding _) ∙ a.was_absent))
    where
      absent :
          (d : ParsedStakingTx)
          → try_parse_staking_tx si tx params ≡ ok d
          → (stored : Option StoredStakingTransaction) (overflow : Bool) (w : World si)
            (t : si.store.Db)
          → Decided
              (SameRecords si)
              SameRecords-refl
              laws
              IsSettledDb
              SameRecords-trans
              tx
              d
              height
              timestamp
              params
              stored
              (some overflow)
              w
          → AddedStaking si.codec si.store (stored_staking_tx si tx d height overflow) w.db t
          → SameRecords si w.db t
      absent d p none overflow w t (q, e, o) a = absurd (
          z.staking d p (decided_valid si d height params w.db overflow o).0
            (sym (q.staking _) ∙ a.was_absent))
      absent d p (some old) overflow w t (q, e, o) a = absurd (cc (e, a.was_absent))

  pub blocks-Steps :
      (bs : List IndexedBlock)
      → AreSettled si bs settled
      → Steps Same IsSettledDb (handle_confirmed_blocks si bs)
  blocks-Steps bs z =
      let save =
        save_height-Steps (SameRecords si) SameRecords-refl laws IsSettledDb
          λ height s t a. record { staking = a.staking; unbonding = a.unbonding; tvl = a.tvl } in
      let pre = OfDb-IsPreorder _ SameRecords-refl SameRecords-trans in
      let pushes = OfDb-Pushes _ SameRecords-refl in
      BlockSteps.handle_confirmed_blocks-Steps pre pushes IsSettledDb IsSettledDb-Stable save bs
        λ b i.
          BlockSteps.handle_confirmed_block-Steps pre pushes IsSettledDb IsSettledDb-Stable save b
            λ params t v j. tx-Steps t.msg_tx _ _ params (z b params t i v j)

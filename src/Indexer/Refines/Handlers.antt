-- ===== src/Indexer/Refines/Handlers.antt =====
-- The handlers of Block.antt as steps of the ledger.
use staking_indexer.Prelude.{Option, some, ◌≡◌, ap}
use staking_indexer.Prelude.Result.{Result, ok, err, panic}
use staking_indexer.Store.Record.{StoredStakingTransaction}
use staking_indexer.Indexer.Types.{StakingIndexer}
use staking_indexer.Indexer.Exec.Steps.{Stable}
use staking_indexer.Indexer.Ledger.{Reach, Known}
use staking_indexer.Indexer.Ledger.Laws.{IndexerLaws}
use staking_indexer.Indexer.Ledger.Records.{IsKeyed, Reach-IsKeyed, Reach-staking}
use staking_indexer.Indexer.Spent.{found}

pub found-some : {A : Type 0} (r : Result (Option A)) (a : A) → found r ≡ some a → r ≡ ok (some a)
unfolding found
found-some (ok o) a h = ap ok h
found-some (err e) a h = cc
found-some panic a h = cc

module _ {si : StakingIndexer} (laws : IndexerLaws si) where
  pub IsKeyed-Stable : Stable (Reach si) (IsKeyed si)
  IsKeyed-Stable = record { keep = λ w u r k. Reach-IsKeyed laws w u r k }

  pub Known-Stable : (st : StoredStakingTransaction) → Stable (Reach si) (Known si st)
  Known-Stable st = record { keep = λ w u r k. Reach-staking laws w u _ st r k }

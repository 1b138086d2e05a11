-- ===== src/Indexer/Block/Verdict.antt =====
-- What the handlers pass on of a verdict on an unbonding transaction.
use staking_indexer.Prelude.{Bool, some, ◌≡◌, arith}
use staking_indexer.Prelude.Result.{Result, ok, err, panic, invalid_unbonding_tx}
use staking_indexer.Indexer.Block.{pass_invalid_unbonding}

-- A verdict that is passed on is the verdict.
pub passed_verdict :
    (r : Result Bool) (b : Bool) → pass_invalid_unbonding r ≡ ok (some b) → r ≡ ok b
passed_verdict (ok a) b h = ground arith
passed_verdict (err invalid_unbonding_tx) b h = cc
passed_verdict (err e) b h = cc
passed_verdict panic b h = cc

-- ===== src/Indexer/Process/Decided.antt =====
-- What a decision on the overflow flag says of a transaction that is not stored.
use staking_indexer.Prelude.{ℕ, Bool, none, some, ◌≡◌, ◌≢◌, inl, inr, arith}
use staking_indexer.Prelude.Result.{ok, Result-cases}
use staking_indexer.Indexer.Types.{StakingIndexer, Params, ParsedStakingTx}
use staking_indexer.Indexer.Staking.{validate_staking_tx, is_overflow}
use staking_indexer.Indexer.Process.{decide_overflow}

module _ (si : StakingIndexer) where
  -- A flag is decided for a valid transaction only, and is the one that the TVL gives.
  pub decided_valid :
      (d : ParsedStakingTx) (height : ℕ) (params : Params) (db : si.store.Db) (o : Bool)
      → decide_overflow si none d height params db ≡ ok (some o)
      → (validate_staking_tx params d ≡ ok tt)
        × (is_overflow height params (si.store.get_confirmed_tvl db) ≡ ok o)
  unfolding decide_overflow
  decided_valid d height params db o h = ground arith

  -- A valid transaction is given a flag.
  pub undecided :
      (d : ParsedStakingTx) (height : ℕ) (params : Params) (db : si.store.Db)
      → validate_staking_tx params d ≡ ok tt
      → decide_overflow si none d height params db ≢ ok none
  unfolding decide_overflow
  undecided d height params db v h =
      elim (Result-cases (is_overflow height params (si.store.get_confirmed_tvl db))) [
        | inl (o, e) ↦ cc (rw (v, e, decide_overflow) at h)
        | inr (inl (x, e)) ↦ cc (rw (v, e, decide_overflow) at h)
        | inr (inr e) ↦ cc (rw (v, e, decide_overflow) at h)
      ]

-- ===== src/Indexer/Staking/Limits.antt =====
-- What makes a staking transaction valid, and what makes it an overflow.
use staking_indexer.Prelude.{ℕ, ◌<◌, ◌≤◌, ◌≤ℤ◌, to_u64, Bool, true, ◌≡◌, ◌↔◌, ltb, leb, arith}
use staking_indexer.Prelude.Result.{Result, ok}
use staking_indexer.Indexer.Types.{Params, ParsedStakingTx}
use staking_indexer.Indexer.Staking.{validate_staking_tx, is_overflow}

-- A staking transaction is valid exactly when its amount and its time lie within the limits of the
-- parameters, both ends included.
pub validate_staking_tx_iff :
    (params : Params) (d : ParsedStakingTx)
    → (validate_staking_tx params d ≡ ok tt) ↔ (
        (params.min_staking_amount ≤ℤ d.staking_output.value)
        × (d.staking_output.value ≤ℤ params.max_staking_amount)
        × (params.min_staking_time ≤ d.staking_time)
        × (d.staking_time ≤ params.max_staking_time))
unfolding validate_staking_tx
validate_staking_tx_iff params d = (λ h. ground arith, λ h. ground arith)

-- Under a cap height, and from the activation height on, a transaction is an overflow exactly when
-- its height lies above the cap height, whatever the TVL and also where the TVL cannot be read.
pub is_overflow_by_height :
    (height : ℕ) (params : Params) (r : Result ℕ)
    → 0 < params.cap_height
    → params.activation_height ≤ height
    → (o : Bool) × (is_overflow height params r ≡ ok o)
      × ((o ≡ true) ↔ (params.cap_height < height))
unfolding is_overflow
is_overflow_by_height height params r p q =
    (ltb params.cap_height height, ground arith, (λ h. ground arith, λ h. ground arith))

-- Without a cap height, a transaction is an overflow exactly when the TVL before it has reached the
-- staking cap, read as a uint64.
pub is_overflow_by_cap :
    (height : ℕ) (params : Params) (t : ℕ)
    → params.cap_height ≡ 0
    → (o : Bool) × (is_overflow height params (ok t) ≡ ok o)
      × ((o ≡ true) ↔ (to_u64 params.staking_cap ≤ t))
unfolding is_overflow
is_overflow_by_cap height params t z =
    (leb (to_u64 params.staking_cap) t, ground arith, (λ h. ground arith, λ h. ground arith))

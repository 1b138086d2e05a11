-- ===== src/Indexer/Ledger/Cap.antt =====
-- The bound that the staking caps put on the confirmed TVL.
use staking_indexer.Prelude.{
  ℕ, ◌+◌, ◌<◌, ◌≤◌, ℤ, pos, negsuc, pos_part, ◌≤ℤ◌, to_u64, true, false, ◌≡◌, ◌∙◌, refl, u64_mod,
  arith,
}
use staking_indexer.Prelude.Result.{Result, ok}
use staking_indexer.Indexer.Types.{StakingIndexer, World, Params, ParsedStakingTx}
use staking_indexer.Indexer.StartHeight.{get_versioned_params}
use staking_indexer.Indexer.Staking.{validate_staking_tx, is_overflow}
use staking_indexer.Indexer.Process.{stored_staking_tx}
use staking_indexer.Indexer.Process.Decided.{decided_valid}
use staking_indexer.Indexer.Ledger.{Step, Reach, staked, unbonded, pushed, saved, here, next}
use staking_indexer.Indexer.Ledger.Tvl.{
  Tvl, staked-Tvl, unbonded-Tvl, step_staked, staked_value, unbonded_value, Step-Tvl,
}

-- A valid amount lies within the limits of the parameters.
pub valid_amount :
    (params : Params) (d : ParsedStakingTx)
    → validate_staking_tx params d ≡ ok tt
    → (params.min_staking_amount ≤ℤ d.staking_output.value)
      × (d.staking_output.value ≤ℤ params.max_staking_amount)
unfolding validate_staking_tx
valid_amount params d h = ground arith

-- A transaction is taken for active below the cap only, if the parameters have no cap height.
active_below_cap :
    (height : ℕ) (params : Params) (r : Result ℕ) (t : ℕ)
    → params.cap_height ≡ 0
    → r ≡ ok t
    → is_overflow height params r ≡ ok false
    → t < to_u64 params.staking_cap
unfolding is_overflow
active_below_cap height params r t z e h = let h' = rw (e, is_overflow) at h in ground (arith, h')

to_u64-le : (v m : ℤ) → pos 0 ≤ℤ v → v ≤ℤ m → to_u64 v ≤ pos_part m
unfolding to_u64
to_u64-le (pos n) m p q = omega arith
to_u64-le (negsuc n) m p q = absurd (omega arith)

module _ (si : StakingIndexer) where
  -- Every version has a staking cap and no cap height, a minimal amount that is not negative, and a
  -- cap and maximal amount that together exceed `bound` by one at most.
  pub record IsCapped (bound : ℕ) : Type 0 where
    pub fits : bound < u64_mod
    pub version :
        (height : ℕ) (params : Params)
        → get_versioned_params si height ≡ ok params
        → (params.cap_height ≡ 0)
          × (pos 0 ≤ℤ params.min_staking_amount)
          × (to_u64 params.staking_cap + pos_part params.max_staking_amount ≤ bound + 1)

  -- The TVL can be read, and does not exceed the bound.
  abbrev pub TvlWithin : ℕ → World si → Type 0
  TvlWithin bound w = (t : ℕ) × Tvl w t × (t ≤ bound)

module _ {si : StakingIndexer} (bound : ℕ) (capped : IsCapped si bound) where
  Step-TvlWithin : (w u : World si) → Step si w u → TvlWithin si bound w → TvlWithin si bound u
  unfolding stored_staking_tx
  Step-TvlWithin w u (staked tx d height ts params true hex v p dec a s) (t, e, le) =
      (t, a.tvl_overflow refl ∙ e, le)
  Step-TvlWithin w u (staked tx d height ts params false hex v p dec a s) (t, e, le) =
      let (valid, flag) = decided_valid si d height params w.db false dec in
      let (z, nonneg, room) = capped.version height params v in
      let below = active_below_cap height params _ t z e flag in
      let (lo, hi) = valid_amount params d valid in
      let small = to_u64-le d.staking_output.value params.max_staking_amount (omega arith) hi in
      let fits = capped.fits in
      (
        t + to_u64 d.staking_output.value,
        staked-Tvl w u t _ false _ a refl refl e (omega arith),
        omega arith,
      )
  Step-TvlWithin w u (unbonded tx st height ts params hex k v valid a s) (t, e, le) =
      let (t', e', q) = unbonded-Tvl w u t st.is_overflow tx st a k refl e in
      (t', e', omega (arith, q))
  Step-TvlWithin w u (pushed ev d s) (t, e, le) = (t, rw d e, le)
  Step-TvlWithin w u (saved height a s) (t, e, le) = (t, a.tvl ∙ e, le)

  -- No step makes the TVL wrap around.
  Step-fits :
      {w u : World si} (s : Step si w u) (t : ℕ) → Tvl w t → t ≤ bound → t + step_staked s < u64_mod
  Step-fits (staked tx d height ts params true hex v p dec a s) t e le =
      let fits = capped.fits in omega arith
  Step-fits {w} (staked tx d height ts params false hex v p dec a s) t e le =
      let (valid, flag) = decided_valid si d height params w.db false dec in
      let (z, nonneg, room) = capped.version height params v in
      let below = active_below_cap height params _ t z e flag in
      let (lo, hi) = valid_amount params d valid in
      let small = to_u64-le d.staking_output.value params.max_staking_amount (omega arith) hi in
      let fits = capped.fits in omega arith
  Step-fits (unbonded tx st height ts params hex k v valid a s) t e le =
      let fits = capped.fits in omega arith
  Step-fits (pushed ev d s) t e le = let fits = capped.fits in omega arith
  Step-fits (saved height a s) t e le = let fits = capped.fits in omega arith

  -- Along a run the TVL stays within the bound, and it is what it was, with what was staked and less
  -- what was unbonded.
  pub Reach-Tvl_within :
      {w u : World si} (r : Reach si w u) (t : ℕ)
      → Tvl w t
      → t ≤ bound
      → (t' : ℕ) × Tvl u t' × (t' ≤ bound) × (t' + unbonded_value r ≡ t + staked_value r)
  Reach-Tvl_within here t e le = (t, e, le, refl)
  Reach-Tvl_within {w} (next {u = v} {v = u} r s) t e le =
      let (t1, e1, le1, q1) = Reach-Tvl_within r t e le in
      let (t2, e2, q2) = Step-Tvl s t1 e1 (Step-fits s t1 e1 le1) in
      let (t3, e3, le3) = Step-TvlWithin v u s (t1, e1, le1) in
      let same : t2 ≡ t3 = cc (e2, e3) in (t2, e2, omega arith, omega (arith, q1, q2))

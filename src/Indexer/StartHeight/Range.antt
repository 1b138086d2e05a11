-- ===== src/Indexer/StartHeight/Range.antt =====
-- The start heights that pass the validation.
use staking_indexer.Prelude.{ℕ, ◌+◌, ◌%◌, ◌<◌, ◌≤◌, ◌≡◌, ◌↔◌, u64_mod, arith, inl, inr}
use staking_indexer.Prelude.Result.{Error, ok, err, Result-cases}
use staking_indexer.Indexer.Types.{StakingIndexer}
use staking_indexer.Indexer.StartHeight.{validate_start_height, get_start_height}

module _ (si : StakingIndexer) (db : si.store.Db) where
  -- The height that `get_start_height` returns passes `validate_start_height`: where no last
  -- processed height can be read, and where one can that is below 2 ^ 64 - 1 and at least the
  -- earliest activation height less one.
  pub get_start_height-passes :
      (start : ℕ)
      → ((last : ℕ)
          → si.store.get_last_processed_height db ≡ ok last
          → (last + 1 < u64_mod) × (si.first_activation_height ≤ last + 1))
      → get_start_height si db ≡ ok start
      → validate_start_height si start db ≡ ok tt
  unfolding get_start_height validate_start_height
  get_start_height-passes start range h =
      elim (Result-cases (si.store.get_last_processed_height db)) [
        | inl (last, e) ↦
            let (lt, le) = range last e in
            let m : (last + 1) % u64_mod ≡ last + 1 = omega arith in
            let s : start ≡ last + 1 = ground (arith, m) in ground (arith, s, m, le)
        | inr (inl (x, e)) ↦ ground arith
        | inr (inr e) ↦ ground arith
      ]

  -- Where a last processed height is stored that is neither 0 nor 2 ^ 64 - 1, the heights that pass
  -- are exactly those from the earliest activation height to the stored height and one.
  pub validate_start_height_iff :
      (start last : ℕ)
      → si.store.get_last_processed_height db ≡ ok last
      → 0 < last
      → last + 1 < u64_mod
      → (validate_start_height si start db ≡ ok tt)
        ↔ ((si.first_activation_height ≤ start) × (start ≤ last + 1))
  unfolding validate_start_height
  validate_start_height_iff start last e p q =
      let m : (last + 1) % u64_mod ≡ last + 1 = omega arith in
      (λ h. ground (arith, m), λ h. ground (arith, m))

  -- Where reading the height fails with an error, only the earliest activation height
  -- passes.
  pub validate_start_height_empty_iff :
      (start : ℕ) (x : Error)
      → si.store.get_last_processed_height db ≡ err x
      → (validate_start_height si start db ≡ ok tt) ↔ (start ≡ si.first_activation_height)
  unfolding validate_start_height
  validate_start_height_empty_iff start x e = (λ h. ground arith, λ h. ground arith)

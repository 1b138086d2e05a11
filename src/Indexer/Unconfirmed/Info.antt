-- ===== src/Indexer/Unconfirmed/Info.antt =====
-- What the consumer is told of the unconfirmed blocks.
use staking_indexer.Prelude.{
  ℕ, ℤ, pos, ◌+ℤ◌, ◌≤ℤ◌, ltb_ℤ, to_u64, to_i64, wrap_i64, false, List, [], ◌∷◌, ◌++◌, ◌≡◌, ◌≢◌, ◌⊎◌,
  refl, inl, inr, arith, Bool-cases, Option-cases,
}
use staking_indexer.Prelude.Result.{ok, Result-cases}
use staking_indexer.Wire.Blocks.{IndexedBlock}
use staking_indexer.Indexer.Types.{StakingIndexer, World, btc_info}
use staking_indexer.Indexer.Exec.{push_event, ◌>>=◌}
use staking_indexer.Indexer.Tally.{calculate_tvl_in_unconfirmed_blocks}
use staking_indexer.Indexer.Unconfirmed.{process_unconfirmed_info, tip_of}

module _ (si : StakingIndexer) (b : IndexedBlock) (bs : List IndexedBlock) (w : World si) where
  -- The confirmed TVL and that of the unconfirmed blocks could be had, their sum is not negative, and
  -- the consumer took an event with the height of the last block, the confirmed TVL and the sum.
  pub record IsTold : Type 0 where
    pub confirmed_tvl : ℕ
    pub confirmed : si.store.get_confirmed_tvl w.db ≡ ok confirmed_tvl
    pub tvl : ℤ
    pub calculated : calculate_tvl_in_unconfirmed_blocks si (b ∷ bs) w.db ≡ ok tvl
    pub not_negative : pos 0 ≤ℤ wrap_i64 (to_i64 confirmed_tvl +ℤ tvl)
    pub told : process_unconfirmed_info si (b ∷ bs) w ≡ (
      ok tt,
      record w {
        sent =
            w.sent
            ++ btc_info
                (to_u64 (tip_of b bs).height)
                confirmed_tvl
                (to_u64 (wrap_i64 (to_i64 confirmed_tvl +ℤ tvl)))
              ∷ [];
      },
    )

  not_negative_of : (z : ℤ) → ltb_ℤ z (pos 0) ≡ false → pos 0 ≤ℤ z
  not_negative_of z h = ground arith

  -- Processing unconfirmed blocks tells the consumer of their TVL, or it fails and changes nothing;
  -- the database is the same in either case.
  pub process_unconfirmed_info_lem :
      IsTold
      ⊎ (((process_unconfirmed_info si (b ∷ bs) w).0 ≢ ok tt)
          × ((process_unconfirmed_info si (b ∷ bs) w).1 ≡ w))
  unfolding process_unconfirmed_info ◌>>=◌ push_event
  process_unconfirmed_info_lem =
      elim (Result-cases (calculate_tvl_in_unconfirmed_blocks si (b ∷ bs) w.db)) [
        | inr (inl (x, e)) ↦ inr (rw e ((λ h. cc), refl))
        | inr (inr e) ↦ inr (rw e ((λ h. cc), refl))
        | inl (tvl, e) ↦ elim (Result-cases (si.store.get_confirmed_tvl w.db)) [
          | inr (inl (x, f)) ↦ inr (rw (e, f) ((λ h. cc), refl))
          | inr (inr f) ↦ inr (rw (e, f) ((λ h. cc), refl))
          | inl (c, f) ↦ elim (Bool-cases (ltb_ℤ (wrap_i64 (to_i64 c +ℤ tvl)) (pos 0))) [
            | inl n ↦ inr (rw (e, f, n) ((λ h. cc), refl))
            | inr n ↦
                elim (Option-cases (
                  si.push
                    (btc_info (to_u64 (tip_of b bs).height) c (to_u64 (wrap_i64 (to_i64 c +ℤ tvl))))
                    w.sent)) [
                      | inr (x, q) ↦ inr (rw (e, f, n, q, push_event) ((λ h. cc), refl))
                      | inl q ↦ inl (record {
                        confirmed_tvl = c;
                        confirmed = f;
                        tvl = tvl;
                        calculated = e;
                        not_negative = not_negative_of _ n;
                        told = rw (e, f, n, q, push_event) refl;
                      })
                    ]
          ]
        ]
      ]

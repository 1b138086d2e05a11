-- ===== src/Store/Exists.antt =====
-- `TxExists` and the two reads of transactions agree.
use staking_indexer.Prelude.{
  Bool, ◌⊎◌, true, false, Bytes, none, some, ◌≡◌, inl, inr, Bool-cases, Option-cases,
}
use staking_indexer.Prelude.Result.{ok}
use staking_indexer.Kvdb.{Kvdb, KvdbLaws}
use staking_indexer.Wire.{Hash, Codec}
use staking_indexer.Store.Record.{Proto}
use staking_indexer.Store.Buckets.{staking_tx_bucket_name, unbonding_tx_bucket_name}
use staking_indexer.Store.Staking.{get_staking_transaction, get_staking_body, tx_exists}
use staking_indexer.Store.Unbonding.{get_unbonding_transaction, get_unbonding_body}

-- The key is bound in one of the two buckets of transactions.
abbrev pub IsBound : (kv : Kvdb) → Hash → kv.State → Type 0
IsBound kv k s =
    (b : Bytes) × ((kv.get staking_tx_bucket_name k s ≡ some b)
      ⊎ (kv.get unbonding_tx_bucket_name k s ≡ some b))

module _ {kv : Kvdb} (laws : KvdbLaws kv) (c : Codec) (p : Proto) (k : Hash) (s : kv.State) where
  -- Where `TxExists` answers without an error: it says that the transaction exists and its hash is
  -- bound in one of the two buckets, or it says that it does not and both reads return none.
  pub tx_exists_lem :
      (found : Bool)
      → tx_exists kv c p k s ≡ ok found
      → ((found ≡ true) × IsBound kv k s)
        ⊎ ((found ≡ false)
            × (get_staking_transaction kv c p k s ≡ ok none)
            × (get_unbonding_transaction kv c p k s ≡ ok none))
  unfolding tx_exists get_staking_transaction get_staking_body get_unbonding_transaction
      get_unbonding_body
  tx_exists_lem found h = elim (Bool-cases (kv.has staking_tx_bucket_name s)) [
    | inr e ↦ absurd (cc (simp (laws.view_lem, e) at h))
    | inl e ↦ elim (Option-cases (kv.get staking_tx_bucket_name k s)) [
      | inr (b, g) ↦ inl (cc (simp (laws.view_lem, e, g) at h), (b, inl g))
      | inl g ↦ elim (Bool-cases (kv.has unbonding_tx_bucket_name s)) [
        | inr f ↦ absurd (cc (simp (laws.view_lem, e, g, f) at h))
        | inl f ↦ elim (Option-cases (kv.get unbonding_tx_bucket_name k s)) [
          | inr (b, q) ↦ inl (cc (simp (laws.view_lem, e, g, f, q) at h), (b, inr q))
          | inl q ↦ inr (
            cc (simp (laws.view_lem, e, g, f, q) at h),
            simp (laws.view_lem, e, g),
            simp (laws.view_lem, f, q),
          )
        ]
      ]
    ]
  ]

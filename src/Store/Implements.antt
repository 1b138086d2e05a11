-- ===== src/Store/Implements.antt =====
-- The store over kvdb provides what Store/Interface.antt asks for.
pub mod Instance
pub mod Duplicates
mod StakingCalls
mod UnbondingCalls
use staking_indexer.Prelude.{ℕ, ◌-◌, true, Bytes, some, ◌≡◌, ◌≢◌, ◌∙◌}
use staking_indexer.Prelude.Result.{ok, ◌>>=◌, ◌>>◌, guard, >>=-eq-ok, guard-ok}
use staking_indexer.Kvdb.{Kvdb, KvdbLaws, batch-eq-ok, batch-ne-ok}
use staking_indexer.Wire.{Codec, CodecLaws}
use staking_indexer.Store.Word.{
  uint64_to_bytes, uint64_from_bytes, uint64_from_bytes-uint64_to_bytes,
}
use staking_indexer.Store.Record.{Proto, ProtoLaws}
use staking_indexer.Store.Buckets.{
  staking_tx_bucket_name, unbonding_tx_bucket_name, indexer_state_bucket_name,
  confirmed_tvl_bucket_name, confirmed_tvl_key, last_processed_height_key,
}
use staking_indexer.Store.Tvl.Effect.{Wrote, Wrote-self, put-Wrote}
use staking_indexer.Store.Height.{save_last_processed_height, get_last_processed_height}
use staking_indexer.Store.Staking.Effect as StakingEffect
use staking_indexer.Store.Unbonding.Effect as UnbondingEffect
use staking_indexer.Store.Reads.{
  get_confirmed_tvl-cong, get_staking_transaction-cong, get_unbonding_transaction-cong,
}
use staking_indexer.Store.Interface.{IndexerStoreLaws, SavedHeight}
use staking_indexer.Store.Implements.Instance.{kv_store}
use staking_indexer.Store.Implements.StakingCalls.{
  AddedStaking-Stored, add_staking-ok, add_staking-failed,
}
use staking_indexer.Store.Implements.UnbondingCalls.{
  AddedUnbonding-Stored, add_unbonding-ok, add_unbonding-failed,
}

module _ {kv : Kvdb} (laws : KvdbLaws kv) where
  -- Saving the height writes one key of the state bucket.
  save_height-Wrote :
      (height : ℕ) (s t : kv.State)
      → save_last_processed_height kv height s ≡ (ok tt, t)
      → (kv.has indexer_state_bucket_name s ≡ true)
        × Wrote kv indexer_state_bucket_name last_processed_height_key (uint64_to_bytes height) s t
  unfolding save_last_processed_height
  save_height-Wrote height s t h =
      let b = batch-eq-ok laws _ s t h in
      let (_, e, w) = >>=-eq-ok (guard (kv.has indexer_state_bucket_name s) _) _ b in
      (guard-ok _ _ e, put-Wrote laws _ _ _ s t w)

  save_height-failed :
      (height : ℕ) (s : kv.State)
      → (save_last_processed_height kv height s).0 ≢ ok tt
      → (save_last_processed_height kv height s).1 ≡ s
  unfolding save_last_processed_height
  save_height-failed height s h = batch-ne-ok laws _ s h

  get_height-present :
      (s : kv.State) (b : Bytes)
      → kv.has indexer_state_bucket_name s ≡ true
      → kv.get indexer_state_bucket_name last_processed_height_key s ≡ some b
      → get_last_processed_height kv s ≡ uint64_from_bytes b
  unfolding get_last_processed_height
  get_height-present s b h g = simp (laws.view_lem, h, g)

  SavedHeight-saved :
      (c : Codec) (p : Proto) (height : ℕ) (s t : kv.State)
      → save_last_processed_height kv height s ≡ (ok tt, t)
      → SavedHeight c (kv_store kv c p) height s t
  SavedHeight-saved c p height s t h =
      let (o, w) = save_height-Wrote height s t h in
      record {
        saved = λ lt.
            get_height-present t _ (w.has _ ∙ o) (Wrote-self w)
            ∙ uint64_from_bytes-uint64_to_bytes height lt;
        staking = λ k.
            get_staking_transaction-cong laws c p k s t (w.has _) (w.get staking_tx_bucket_name k);
        unbonding = λ k.
            get_unbonding_transaction-cong laws c p k s t (w.has _)
              (w.get unbonding_tx_bucket_name k);
        tvl =
            get_confirmed_tvl-cong laws s t (w.has _)
              (w.get confirmed_tvl_bucket_name confirmed_tvl_key);
      }

module _ {kv : Kvdb} {c : Codec} {p : Proto} (laws : KvdbLaws kv) (cl : CodecLaws c)
    (pl : ProtoLaws p) where
  -- The store over kvdb keeps every promise of the interface.
  pub kv_store-IndexerStoreLaws : IndexerStoreLaws c (kv_store kv c p)
  kv_store-IndexerStoreLaws = record {
    add_staking_ok = λ st s t h.
        let (b, e, d) = add_staking-ok laws cl pl st s t h in
        AddedStaking-Stored laws cl pl st b s t e d;
    add_staking_failed = add_staking-failed laws cl pl;
    add_unbonding_ok = λ tx sh s t h.
        let (b, e, d) = add_unbonding-ok laws cl pl tx sh s t h in
        AddedUnbonding-Stored laws cl pl tx sh b s t e d;
    add_unbonding_failed = add_unbonding-failed laws cl pl;
    save_height_ok = SavedHeight-saved laws c p;
    save_height_failed = save_height-failed laws;
  }

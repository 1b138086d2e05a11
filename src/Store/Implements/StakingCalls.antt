-- ===== src/Store/Implements/StakingCalls.antt =====
-- `add_staking_transaction` over kvdb: what a call that succeeds does to every read, and that a call
-- that fails does nothing.
use staking_indexer.Prelude.{
  true, Bytes, none, some, ◌≡◌, ◌≢◌, ◌∙◌, refl, arith, inl, inr, bytes_eq_refl, bytes_eq-ne,
}
use staking_indexer.Prelude.Result.{ok, Result-cases}
use staking_indexer.Kvdb.{Kvdb, KvdbLaws, batch-eq-ok, batch-ne-ok}
use staking_indexer.Wire.{Hash, Codec, CodecLaws}
use staking_indexer.Store.Record.{
  Proto, ProtoLaws, StoredStakingTransaction, StakingMessage, staking_message,
  stored-staking_message, proto_staking_tx_to_stored_staking_tx,
}
use staking_indexer.Store.Buckets.{
  staking_tx_bucket_name, unbonding_tx_bucket_name, indexer_state_bucket_name,
  last_processed_height_key,
}
use staking_indexer.Store.Staking.{
  add_staking_transaction, add_staking_message, get_staking_transaction, get_staking_body,
}
use staking_indexer.Store.Staking.Effect as StakingEffect
use staking_indexer.Store.Reads.{
  get_last_processed_height-cong, get_staking_transaction-cong, get_unbonding_transaction-cong,
}
use staking_indexer.Store.Interface.{AddedStaking}
use staking_indexer.Store.Implements.Instance.{kv_store}

module _ {kv : Kvdb} {c : Codec} {p : Proto} (laws : KvdbLaws kv) (cl : CodecLaws c)
    (pl : ProtoLaws p) where
  -- A read of a bucket that is open, at a key that is bound or not.
  get_staking-absent :
      (k : Hash) (s : kv.State)
      → kv.has staking_tx_bucket_name s ≡ true
      → kv.get staking_tx_bucket_name k s ≡ none
      → get_staking_transaction kv c p k s ≡ ok none
  unfolding get_staking_transaction get_staking_body
  get_staking-absent k s h g = simp (laws.view_lem, h, g)

  get_staking-present :
      (k : Hash) (s : kv.State) (b : Bytes) (m : StakingMessage) (st : StoredStakingTransaction)
      → kv.has staking_tx_bucket_name s ≡ true
      → kv.get staking_tx_bucket_name k s ≡ some b
      → p.unmarshal_staking b ≡ ok m
      → proto_staking_tx_to_stored_staking_tx c m ≡ ok st
      → get_staking_transaction kv c p k s ≡ ok (some st)
  unfolding get_staking_transaction get_staking_body
  get_staking-present k s b m st h g u e = simp (laws.view_lem, h, g, u, e)

  pub AddedStaking-Stored :
      (st : StoredStakingTransaction) (b : Bytes) (s t : kv.State)
      → c.serialize st.tx ≡ ok b
      → StakingEffect.Stored kv p (c.tx_hash st.tx) (staking_message c st b) s t
      → AddedStaking c (kv_store kv c p) st s t
  unfolding staking_message
  AddedStaking-Stored st b s t e d = record {
    was_absent = get_staking-absent _ s d.open_bucket d.absent;
    added = λ hs hf.
        get_staking-present _ t d.bytes _ st (StakingEffect.Stored-has laws p d _ ∙ d.open_bucket)
          (rw (bytes_eq_refl (c.tx_hash st.tx)) at
            (StakingEffect.Stored-get laws p d staking_tx_bucket_name (c.tx_hash st.tx) refl))
          (pl.staking _ _ d.marshalled) (stored-staking_message cl st b hs hf e);
    others = λ h ne.
        get_staking_transaction-cong laws c p h s t (StakingEffect.Stored-has laws p d _) (
          rw (bytes_eq-ne _ h ne) at
            (StakingEffect.Stored-get laws p d staking_tx_bucket_name h refl));
    unbonding = λ h.
        get_unbonding_transaction-cong laws c p h s t (StakingEffect.Stored-has laws p d _)
          (StakingEffect.Stored-get laws p d unbonding_tx_bucket_name h refl);
    height = get_last_processed_height-cong laws s t (StakingEffect.Stored-has laws p d _) (
        StakingEffect.Stored-get laws p d indexer_state_bucket_name last_processed_height_key refl);
    tvl_overflow = StakingEffect.Stored-tvl_overflow laws p d;
    tvl_active = StakingEffect.Stored-tvl_active laws p d;
  }

  -- An error, or a panic, of the serialisation comes before the batch.
  pub add_staking-ok :
      (st : StoredStakingTransaction) (s t : kv.State)
      → add_staking_transaction kv c p st s ≡ (ok tt, t)
      → (b : Bytes) × (c.serialize st.tx ≡ ok b)
        × StakingEffect.Stored kv p (c.tx_hash st.tx) (staking_message c st b) s t
  unfolding add_staking_transaction add_staking_message
  add_staking-ok st s t h = elim (Result-cases (c.serialize st.tx)) [
    | inl (b, e) ↦ (
      b,
      e,
      StakingEffect.body-Stored laws p _ _ s t
          (batch-eq-ok laws _ s t (rw (e, add_staking_transaction) at h)),
    )
    | inr (inl (x, e)) ↦ absurd (ground arith)
    | inr (inr e) ↦ absurd (ground arith)
  ]

  pub add_staking-failed :
      (st : StoredStakingTransaction) (s : kv.State)
      → (add_staking_transaction kv c p st s).0 ≢ ok tt
      → (add_staking_transaction kv c p st s).1 ≡ s
  unfolding add_staking_transaction add_staking_message
  add_staking-failed st s h = elim (Result-cases (c.serialize st.tx)) [
    | inl (b, e) ↦
        rw (e, add_staking_transaction)
          (batch-ne-ok laws _ s (rw (e, add_staking_transaction) at h))
    | inr (inl (x, e)) ↦ rw (e, add_staking_transaction)
    | inr (inr e) ↦ rw (e, add_staking_transaction)
  ]

-- ===== src/Store/Implements/UnbondingCalls.antt =====
-- `add_unbonding_transaction` over kvdb, likewise.
use staking_indexer.Prelude.{
  true, Bytes, none, some, ◌≡◌, ◌≢◌, ◌∙◌, refl, sym, arith, inl, inr, bytes_eq_refl, bytes_eq-ne,
}
use staking_indexer.Prelude.Result.{ok, Result-cases}
use staking_indexer.Kvdb.{Kvdb, KvdbLaws, batch-eq-ok, batch-ne-ok}
use staking_indexer.Wire.{Hash, MsgTx, Codec, CodecLaws}
use staking_indexer.Store.Record.{
  Proto, ProtoLaws, StoredStakingTransaction, StoredUnbondingTransaction, StakingMessage,
  UnbondingMessage, stored-unbonding_message, proto_staking_tx_to_stored_staking_tx,
  proto_unbonding_tx_to_stored_unbonding_tx, stored_fields, stored_known,
}
use staking_indexer.Store.Buckets.{
  staking_tx_bucket_name, unbonding_tx_bucket_name, indexer_state_bucket_name,
  last_processed_height_key, absent_as_nil, absent_as_nil-some, absent_as_nil-none,
}
use staking_indexer.Store.Staking.{get_staking_transaction, get_staking_body}
use staking_indexer.Store.Unbonding.{
  add_unbonding_transaction, add_unbonding_message, get_unbonding_transaction, get_unbonding_body,
}
use staking_indexer.Store.Unbonding.Effect as UnbondingEffect
use staking_indexer.Store.Reads.{
  get_last_processed_height-cong, get_staking_transaction-cong, get_unbonding_transaction-cong,
}
use staking_indexer.Store.Interface.{AddedUnbonding}
use staking_indexer.Store.Implements.Instance.{kv_store}

module _ {kv : Kvdb} {c : Codec} {p : Proto} (laws : KvdbLaws kv) (cl : CodecLaws c)
    (pl : ProtoLaws p) where
  get_unbonding-absent :
      (k : Hash) (s : kv.State)
      → kv.has unbonding_tx_bucket_name s ≡ true
      → kv.get unbonding_tx_bucket_name k s ≡ none
      → get_unbonding_transaction kv c p k s ≡ ok none
  unfolding get_unbonding_transaction get_unbonding_body
  get_unbonding-absent k s h g = simp (laws.view_lem, h, g)

  get_unbonding-present :
      (k : Hash) (s : kv.State) (b : Bytes) (m : UnbondingMessage) (ut : StoredUnbondingTransaction)
      → kv.has unbonding_tx_bucket_name s ≡ true
      → kv.get unbonding_tx_bucket_name k s ≡ some b
      → p.unmarshal_unbonding b ≡ ok m
      → proto_unbonding_tx_to_stored_unbonding_tx c m ≡ ok ut
      → get_unbonding_transaction kv c p k s ≡ ok (some ut)
  unfolding get_unbonding_transaction get_unbonding_body
  get_unbonding-present k s b m ut h g u e = simp (laws.view_lem, h, g, u, e)

  -- A read of a staking transaction whose message is `m` is a conversion of `m`.
  get_staking-message :
      (k : Hash) (s : kv.State) (b : Bytes) (m : StakingMessage)
      → kv.has staking_tx_bucket_name s ≡ true
      → kv.get staking_tx_bucket_name k s ≡ some b
      → p.unmarshal_staking b ≡ ok m
      → get_staking_transaction kv c p k s
        ≡ absent_as_nil (proto_staking_tx_to_stored_staking_tx c m)
  unfolding get_staking_transaction get_staking_body
  get_staking-message k s b m h g u = simp (laws.view_lem, h, g, u)

  pub AddedUnbonding-Stored :
      (tx : MsgTx) (sh : Hash) (b : Bytes) (s t : kv.State)
      → c.serialize tx ≡ ok b
      → UnbondingEffect.Stored kv p
          (c.tx_hash tx)
          sh
          (record { transaction_bytes = b; staking_tx_hash = sh })
          s
          t
      → AddedUnbonding c (kv_store kv c p) tx sh s t
  AddedUnbonding-Stored tx sh b s t e d =
      let msg = get_staking-message sh s d.old_bytes d.old d.open_staking d.known d.unmarshalled in
      let fields : (st : StoredStakingTransaction)
          → get_staking_transaction kv c p sh s ≡ ok (some st)
          → (d.old.is_overflow ≡ st.is_overflow) × (d.old.staking_value ≡ st.staking_value) =
        λ st h. stored_fields c d.old st (absent_as_nil-some _ (sym msg ∙ h)) in
      record {
        known = λ h. stored_known c cl d.old (absent_as_nil-none _ (sym msg ∙ h));
        was_absent = get_unbonding-absent _ s d.open_bucket d.absent;
        added = λ hl.
            get_unbonding-present _ t d.bytes _ (record { tx = tx; staking_tx_hash = sh })
              (UnbondingEffect.Stored-has laws p d _ ∙ d.open_bucket)
              (rw (bytes_eq_refl (c.tx_hash tx)) at
                (UnbondingEffect.Stored-get laws p d unbonding_tx_bucket_name (c.tx_hash tx) refl))
              (pl.unbonding _ _ d.marshalled)
              (stored-unbonding_message cl (record { tx = tx; staking_tx_hash = sh }) b hl e);
        others = λ h ne.
            get_unbonding_transaction-cong laws c p h s t (UnbondingEffect.Stored-has laws p d _) (
              rw (bytes_eq-ne _ h ne) at
                (UnbondingEffect.Stored-get laws p d unbonding_tx_bucket_name h refl));
        staking = λ h.
            get_staking_transaction-cong laws c p h s t (UnbondingEffect.Stored-has laws p d _)
              (UnbondingEffect.Stored-get laws p d staking_tx_bucket_name h refl);
        height = get_last_processed_height-cong laws s t (UnbondingEffect.Stored-has laws p d _) (
            UnbondingEffect.Stored-get laws p d indexer_state_bucket_name last_processed_height_key
              refl);
        tvl_overflow = λ st h o. UnbondingEffect.Stored-tvl_overflow laws p d ((fields st h).0 ∙ o);
        tvl_active = λ st h o.
            let (w, q, le, r) = UnbondingEffect.Stored-tvl_active laws p d ((fields st h).0 ∙ o) in
            let v = (fields st h).1 in (w, q, rw v at le, rw v at r);
      }

  pub add_unbonding-ok :
      (tx : MsgTx) (sh : Hash) (s t : kv.State)
      → add_unbonding_transaction kv c p tx sh s ≡ (ok tt, t)
      → (b : Bytes) × (c.serialize tx ≡ ok b)
        × UnbondingEffect.Stored kv p
            (c.tx_hash tx)
            sh
            (record { transaction_bytes = b; staking_tx_hash = sh })
            s
            t
  unfolding add_unbonding_transaction add_unbonding_message
  add_unbonding-ok tx sh s t h = elim (Result-cases (c.serialize tx)) [
    | inl (b, e) ↦ (
      b,
      e,
      UnbondingEffect.body-Stored laws p _ sh _ s t
          (batch-eq-ok laws _ s t (rw (e, add_unbonding_transaction) at h)),
    )
    | inr (inl (x, e)) ↦ absurd (ground arith)
    | inr (inr e) ↦ absurd (ground arith)
  ]

  pub add_unbonding-failed :
      (tx : MsgTx) (sh : Hash) (s : kv.State)
      → (add_unbonding_transaction kv c p tx sh s).0 ≢ ok tt
      → (add_unbonding_transaction kv c p tx sh s).1 ≡ s
  unfolding add_unbonding_transaction add_unbonding_message
  add_unbonding-failed tx sh s h = elim (Result-cases (c.serialize tx)) [
    | inl (b, e) ↦
        rw (e, add_unbonding_transaction)
          (batch-ne-ok laws _ s (rw (e, add_unbonding_transaction) at h))
    | inr (inl (x, e)) ↦ rw (e, add_unbonding_transaction)
    | inr (inr e) ↦ rw (e, add_unbonding_transaction)
  ]

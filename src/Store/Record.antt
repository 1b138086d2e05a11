-- ===== src/Store/Record.antt =====
-- The records of indexerstore/indexer_store.go, the messages of proto/transaction.proto that they
-- are kept as, and the conversions between the two.
use staking_indexer.Prelude.{◌≢◌, arith, ℕ, Bool, Bytes, ◌≡◌, length}
use staking_indexer.Prelude.Result.{
  Result, ok, err, panic, ◌>>=◌, >>=-eq-ok, transaction_not_found, invalid_staking_tx_hash,
}
use staking_indexer.Wire.{Hash, MsgTx, PublicKey, Codec, CodecLaws, IsXOnly}

pub record StoredStakingTransaction : Type 0 where
  pub tx : MsgTx
  pub staking_output_idx : ℕ
  pub inclusion_height : ℕ
  pub staker_pk : PublicKey
  pub staking_time : ℕ
  pub finality_provider_pk : PublicKey
  pub is_overflow : Bool
  pub staking_value : ℕ

pub record StoredUnbondingTransaction : Type 0 where
  pub tx : MsgTx
  pub staking_tx_hash : Hash

-- `proto.StakingTransaction`
pub record StakingMessage : Type 0 where
  pub transaction_bytes : Bytes
  pub staking_output_idx : ℕ
  pub inclusion_height : ℕ
  pub staker_pk : Bytes
  pub finality_provider_pk : Bytes
  pub staking_time : ℕ
  pub is_overflow : Bool
  pub staking_value : ℕ

-- `proto.UnbondingTransaction`
pub record UnbondingMessage : Type 0 where
  pub transaction_bytes : Bytes
  pub staking_tx_hash : Bytes

-- `Marshal` and `Unmarshal` of the protobuf library, at the two messages.
pub record Proto : Type 0 where
  pub marshal_staking : StakingMessage → Result Bytes
  pub unmarshal_staking : Bytes → Result StakingMessage
  pub marshal_unbonding : UnbondingMessage → Result Bytes
  pub unmarshal_unbonding : Bytes → Result UnbondingMessage

-- A message that was marshalled is read back.
pub record ProtoLaws (p : Proto) : Type 0 where
  pub staking :
      (m : StakingMessage) (b : Bytes) → p.marshal_staking m ≡ ok b → p.unmarshal_staking b ≡ ok m
  pub unbonding :
      (m : UnbondingMessage) (b : Bytes)
      → p.marshal_unbonding m ≡ ok b
      → p.unmarshal_unbonding b ≡ ok m

module _ (c : Codec) where
  -- The message of `AddStakingTransaction`.
  unfoldable pub staking_message : StoredStakingTransaction → Bytes → StakingMessage
  staking_message st serialized_tx = record {
    transaction_bytes = serialized_tx;
    staking_output_idx = st.staking_output_idx;
    inclusion_height = st.inclusion_height;
    staker_pk = c.serialize_pub_key st.staker_pk;
    finality_provider_pk = c.serialize_pub_key st.finality_provider_pk;
    staking_time = st.staking_time;
    is_overflow = st.is_overflow;
    staking_value = st.staking_value;
  }

  unfoldable pub proto_staking_tx_to_stored_staking_tx :
      StakingMessage → Result StoredStakingTransaction
  proto_staking_tx_to_stored_staking_tx m = do
    staking_tx ← c.deserialize m.transaction_bytes
    staker_pk ← c.parse_pub_key m.staker_pk
    fp_pk ← c.parse_pub_key m.finality_provider_pk
    ok (record {
      tx = staking_tx;
      staking_output_idx = m.staking_output_idx;
      inclusion_height = m.inclusion_height;
      staker_pk = staker_pk;
      staking_time = m.staking_time;
      finality_provider_pk = fp_pk;
      is_overflow = m.is_overflow;
      staking_value = m.staking_value;
    })

  -- The cause of the hash's error is not wrapped.
  unfoldable pub or_invalid_hash : Result Hash → Result Hash
  or_invalid_hash (ok h) = ok h
  or_invalid_hash (err e) = err invalid_staking_tx_hash
  or_invalid_hash panic = panic

  unfoldable pub proto_unbonding_tx_to_stored_unbonding_tx :
      UnbondingMessage → Result StoredUnbondingTransaction
  unfolding or_invalid_hash
  proto_unbonding_tx_to_stored_unbonding_tx m = do
    unbonding_tx ← c.deserialize m.transaction_bytes
    staking_tx_hash ← or_invalid_hash (c.new_hash m.staking_tx_hash)
    ok (record { tx = unbonding_tx; staking_tx_hash = staking_tx_hash })

module _ {c : Codec} (laws : CodecLaws c) where
  parse-serialize :
      (pk : PublicKey) → IsXOnly c pk → c.parse_pub_key (c.serialize_pub_key pk) ≡ ok pk
  parse-serialize pk (b, h) = rw (laws.serialize-parse b pk h) h

  -- The message of a stored staking transaction with x-only keys is converted back to it.
  pub stored-staking_message :
      (st : StoredStakingTransaction) (b : Bytes)
      → IsXOnly c st.staker_pk
      → IsXOnly c st.finality_provider_pk
      → c.serialize st.tx ≡ ok b
      → proto_staking_tx_to_stored_staking_tx c (staking_message c st b) ≡ ok st
  unfolding proto_staking_tx_to_stored_staking_tx staking_message
  stored-staking_message st b hs hf e = rw (
    laws.deserialize-serialize st.tx b e,
    parse-serialize st.staker_pk hs,
    parse-serialize st.finality_provider_pk hf,
  )

  pub stored-unbonding_message :
      (ut : StoredUnbondingTransaction) (b : Bytes)
      → length ut.staking_tx_hash ≡ 32
      → c.serialize ut.tx ≡ ok b
      → proto_unbonding_tx_to_stored_unbonding_tx c
          (record { transaction_bytes = b; staking_tx_hash = ut.staking_tx_hash })
        ≡ ok ut
  unfolding proto_unbonding_tx_to_stored_unbonding_tx
  stored-unbonding_message ut b h e =
      rw (laws.deserialize-serialize ut.tx b e, laws.new_hash_lem ut.staking_tx_hash h)

module _ (c : Codec) where
  -- The flag and the value are kept as they are in the message.
  pub stored_fields :
      (m : StakingMessage) (st : StoredStakingTransaction)
      → proto_staking_tx_to_stored_staking_tx c m ≡ ok st
      → (m.is_overflow ≡ st.is_overflow) × (m.staking_value ≡ st.staking_value)
  unfolding proto_staking_tx_to_stored_staking_tx
  stored_fields m st h =
      let (tx, e1, h1) = >>=-eq-ok (c.deserialize m.transaction_bytes) _ h in
      let (pk, e2, h2) = >>=-eq-ok (c.parse_pub_key m.staker_pk) _ h1 in
      let (fp, e3, h3) = >>=-eq-ok (c.parse_pub_key m.finality_provider_pk) _ h2 in
      ground (arith, h3)

  -- A message that cannot be converted is not reported as a missing transaction.
  pub stored_known :
      CodecLaws c
      → (m : StakingMessage) → proto_staking_tx_to_stored_staking_tx c m ≢ err transaction_not_found
  unfolding proto_staking_tx_to_stored_staking_tx
  stored_known laws m h =
      let a = laws.deserialize-known_error m.transaction_bytes in
      let b = laws.parse-known_error m.staker_pk in
      let d = laws.parse-known_error m.finality_provider_pk in ground (arith, a, b, d)

  pub stored_unbonding_known :
      CodecLaws c
      → (m : UnbondingMessage)
      → proto_unbonding_tx_to_stored_unbonding_tx c m ≢ err transaction_not_found
  unfolding proto_unbonding_tx_to_stored_unbonding_tx or_invalid_hash
  stored_unbonding_known laws m h =
      let a = laws.deserialize-known_error m.transaction_bytes in ground (arith, a)

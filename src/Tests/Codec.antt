-- ===== src/Tests/Codec.antt =====
-- A codec for two shapes of transactions, one output and no or one input, and a message format. The
-- items of a list of bytes are numbers of any size here.
use staking_indexer.Prelude.{
  ℕ, zero, suc, ℤ, pos, Bool, true, false, Bytes, List, [], ◌∷◌, ◌≡◌, ◌==◌, ◌≢◌, refl, ◌∙◌, ap, sym,
  length, if◌then◌else◌,
}
use staking_indexer.Prelude.Result.{
  Result, ok, err, external, ◌>>=◌, transaction_not_found, duplicate_transaction,
}
use staking_indexer.Wire.{Hash, MsgTx, TxIn, TxOut, PublicKey, Codec, CodecLaws}
use staking_indexer.Store.Record.{StakingMessage, UnbondingMessage, Proto, ProtoLaws}

abbrev pub padding : Bytes
padding =
    0 ∷ 0 ∷ 0 ∷ 0 ∷ 0 ∷ 0 ∷ 0 ∷ 0 ∷ 0 ∷ 0 ∷ 0 ∷ 0 ∷ 0 ∷ 0 ∷ 0 ∷ 0 ∷ 0 ∷ 0 ∷ 0 ∷ 0 ∷ 0 ∷ 0 ∷ 0 ∷ 0
    ∷ 0 ∷ 0 ∷ 0 ∷ 0 ∷ 0 ∷ 0 ∷ 0 ∷ []

abbrev pub sample_out : ℤ → TxOut
sample_out v = record { value = v; pk_script = [] }

abbrev pub sample_in : Hash → ℕ → ℕ → TxIn
sample_in h i sequence = record {
  previous_out_point = record { hash = h; index = i };
  signature_script = [];
  witness = [] ∷ [] ∷ [];
  sequence = sequence;
}

abbrev serialize_in : ℕ → ℕ → ℕ → Hash → ℕ → ℕ → Bytes → List Bytes → Result Bytes
serialize_in u v n h i sequence [] ([] ∷ [] ∷ []) = ok (1 ∷ u ∷ v ∷ n ∷ i ∷ sequence ∷ h)
serialize_in u v n h i sequence _ _ = err (external 0)

abbrev serialize_ins : ℕ → ℕ → ℕ → List TxIn → Result Bytes
serialize_ins u v n [] = ok (0 ∷ u ∷ v ∷ n ∷ [])
serialize_ins u v n (t ∷ []) =
    serialize_in u v n t.previous_out_point.hash t.previous_out_point.index t.sequence
      t.signature_script t.witness
serialize_ins u v n _ = err (external 0)

abbrev serialize_out : ℤ → List TxIn → ℤ → Bytes → ℕ → Result Bytes
serialize_out (pos u) ins (pos v) [] n = serialize_ins u v n ins
serialize_out _ ins _ _ n = err (external 0)

abbrev serialize_outs : ℤ → List TxIn → List TxOut → ℕ → Result Bytes
serialize_outs version ins (out ∷ []) n = serialize_out version ins out.value out.pk_script n
serialize_outs version ins _ n = err (external 0)

abbrev pub sample_tx : ℕ → ℕ → ℕ → List TxIn → MsgTx
sample_tx u v n ins = record {
  version = pos u;
  tx_in = ins;
  tx_out = sample_out (pos v) ∷ [];
  lock_time = n;
}

abbrev deserialize : Bytes → Result MsgTx
deserialize (zero ∷ u ∷ v ∷ n ∷ []) = ok (sample_tx u v n [])
deserialize (suc zero ∷ u ∷ v ∷ n ∷ i ∷ sequence ∷ h) =
    ok (sample_tx u v n (sample_in h i sequence ∷ []))
deserialize _ = err (external 1)

abbrev parse_pub_key : Bytes → Result PublicKey
parse_pub_key (x ∷ []) = ok (record { x = x; y = 0 })
parse_pub_key _ = err (external 2)

abbrev pub sample_codec : Codec
sample_codec = record {
  tx_hash = λ tx. tx.lock_time ∷ padding;
  block_hash = λ h. h.nonce ∷ padding;
  serialize = λ tx. serialize_outs tx.version tx.tx_in tx.tx_out tx.lock_time;
  deserialize = deserialize;
  serialize_pub_key = λ pk. pk.x ∷ [];
  parse_pub_key = parse_pub_key;
  new_hash = λ b. if length b == 32 then ok b else err (external 3);
  hash_string = λ h. h;
}

ok-injective {ℓ} : {A : Type ℓ} (a b : A) → ok a ≡ ok b → a ≡ b
ok-injective a b h = cc

deserialize-in :
    (u v n i sequence : ℕ) (h script b : Bytes) (w : List Bytes)
    → serialize_in u v n h i sequence script w ≡ ok b
    → deserialize b
      ≡ ok (
          sample_tx u v n (
            record {
              previous_out_point = record { hash = h; index = i };
              signature_script = script;
              witness = w;
              sequence = sequence;
            }
            ∷ []))
deserialize-in u v n i sequence h [] b ([] ∷ [] ∷ []) e = ap deserialize (sym (ok-injective _ b e))
deserialize-in u v n i sequence h _ b _ e = cc

deserialize-ins :
    (u v n : ℕ) (ins : List TxIn) (b : Bytes)
    → serialize_ins u v n ins ≡ ok b
    → deserialize b ≡ ok (sample_tx u v n ins)
deserialize-ins u v n [] b e = ap deserialize (sym (ok-injective _ b e))
deserialize-ins u v n (t ∷ []) b e =
    deserialize-in u v n t.previous_out_point.index t.sequence t.previous_out_point.hash
      t.signature_script b t.witness e
deserialize-ins u v n _ b e = cc

deserialize-out :
    (version : ℤ) (ins : List TxIn) (value : ℤ) (script : Bytes) (n : ℕ) (b : Bytes)
    → serialize_out version ins value script n ≡ ok b
    → deserialize b
      ≡ ok (record {
        version = version;
        tx_in = ins;
        tx_out = record { value = value; pk_script = script } ∷ [];
        lock_time = n;
      })
deserialize-out (pos u) ins (pos v) [] n b e = deserialize-ins u v n ins b e
deserialize-out _ ins _ _ n b e = cc

deserialize-outs :
    (version : ℤ) (ins : List TxIn) (outs : List TxOut) (n : ℕ) (b : Bytes)
    → serialize_outs version ins outs n ≡ ok b
    → deserialize b ≡ ok (record { version = version; tx_in = ins; tx_out = outs; lock_time = n })
deserialize-outs version ins (out ∷ []) n b e =
    deserialize-out version ins out.value out.pk_script n b e
deserialize-outs version ins _ n b e = cc

parse-serialize : (b : Bytes) (pk : PublicKey) → parse_pub_key b ≡ ok pk → (pk.x ∷ []) ≡ b
parse-serialize (x ∷ []) pk h = ap (λ (k : PublicKey). k.x ∷ []) (sym (ok-injective _ pk h))
parse-serialize _ pk h = cc

deserialize-known : (b : Bytes) → deserialize b ≢ err transaction_not_found
deserialize-known (zero ∷ u ∷ v ∷ n ∷ []) h = cc
deserialize-known (suc zero ∷ u ∷ v ∷ n ∷ i ∷ sequence ∷ h') h = cc
deserialize-known _ h = cc

parse-known : (b : Bytes) → parse_pub_key b ≢ err transaction_not_found
parse-known (x ∷ []) h = cc
parse-known _ h = cc

pub sample_codec-CodecLaws : CodecLaws sample_codec
sample_codec-CodecLaws = record {
  deserialize-serialize = λ tx b h. deserialize-outs tx.version tx.tx_in tx.tx_out tx.lock_time b h;
  serialize-parse = parse-serialize;
  length-tx_hash = λ tx. refl;
  new_hash_lem = λ b h. rw h refl;
  deserialize-known_error = deserialize-known;
  parse-known_error = parse-known;
}

abbrev bit : Bool → ℕ
bit true = 1
bit false = 0

abbrev marshal_keys : StakingMessage → Bytes → Bytes → Result Bytes
marshal_keys m (s ∷ []) (f ∷ []) = ok (
    s
    ∷ f
    ∷ bit m.is_overflow
    ∷ m.staking_output_idx
    ∷ m.inclusion_height
    ∷ m.staking_time
    ∷ m.staking_value
    ∷ m.transaction_bytes)
marshal_keys m _ _ = err (external 4)

abbrev unmarshal_staking : Bytes → Result StakingMessage
unmarshal_staking (s ∷ f ∷ o ∷ idx ∷ height ∷ time ∷ value ∷ tx) = ok (record {
  transaction_bytes = tx;
  staking_output_idx = idx;
  inclusion_height = height;
  staker_pk = s ∷ [];
  finality_provider_pk = f ∷ [];
  staking_time = time;
  is_overflow = o == 1;
  staking_value = value;
})
unmarshal_staking _ = err (external 5)

-- The items of the first list are raised by one, and a zero ends it.
abbrev join : Bytes → Bytes → Bytes
join [] h = 0 ∷ h
join (x ∷ xs) h = suc x ∷ join xs h

abbrev raise : ℕ → UnbondingMessage → UnbondingMessage
raise x m = record {
  transaction_bytes = x ∷ m.transaction_bytes;
  staking_tx_hash = m.staking_tx_hash;
}

abbrev split : Bytes → Result UnbondingMessage
split [] = err (external 6)
split (zero ∷ h) = ok (record { transaction_bytes = []; staking_tx_hash = h })
split (suc x ∷ rest) = split rest >>= λ m. ok (raise x m)

split-join :
    (a h : Bytes) → split (join a h) ≡ ok (record { transaction_bytes = a; staking_tx_hash = h })
split-join [] h = refl
split-join (x ∷ xs) h = rw (split-join xs h) refl

abbrev pub sample_proto : Proto
sample_proto = record {
  marshal_staking = λ m. marshal_keys m m.staker_pk m.finality_provider_pk;
  unmarshal_staking = unmarshal_staking;
  marshal_unbonding = λ m. ok (join m.transaction_bytes m.staking_tx_hash);
  unmarshal_unbonding = split;
}

unmarshal-marshal :
    (m : StakingMessage) (s f b : Bytes) (o : Bool)
    → marshal_keys (record m { is_overflow = o }) s f ≡ ok b
    → unmarshal_staking b
      ≡ ok (record m { staker_pk = s; finality_provider_pk = f; is_overflow = o })
unmarshal-marshal m (s ∷ []) (f ∷ []) b true h = ap unmarshal_staking (sym (ok-injective _ b h))
unmarshal-marshal m (s ∷ []) (f ∷ []) b false h = ap unmarshal_staking (sym (ok-injective _ b h))
unmarshal-marshal m _ _ b o h = cc

pub sample_proto-ProtoLaws : ProtoLaws sample_proto
sample_proto-ProtoLaws = record {
  staking = λ m b h. unmarshal-marshal m m.staker_pk m.finality_provider_pk b m.is_overflow h;
  unbonding = λ m b h.
      ap split (sym (ok-injective _ b h)) ∙ split-join m.transaction_bytes m.staking_tx_hash;
}

foreign-in :
    (u v n i sequence : ℕ) (h script : Bytes) (w : List Bytes)
    → serialize_in u v n h i sequence script w ≢ err duplicate_transaction
foreign-in u v n i sequence h [] ([] ∷ [] ∷ []) e = cc
foreign-in u v n i sequence h _ _ e = cc

foreign-ins : (u v n : ℕ) (ins : List TxIn) → serialize_ins u v n ins ≢ err duplicate_transaction
foreign-ins u v n [] e = cc
foreign-ins u v n (t ∷ []) e =
    foreign-in u v n t.previous_out_point.index t.sequence t.previous_out_point.hash
      t.signature_script t.witness e
foreign-ins u v n _ e = cc

foreign-out :
    (version : ℤ) (ins : List TxIn) (value : ℤ) (script : Bytes) (n : ℕ)
    → serialize_out version ins value script n ≢ err duplicate_transaction
foreign-out (pos u) ins (pos v) [] n e = foreign-ins u v n ins e
foreign-out _ ins _ _ n e = cc

foreign-outs :
    (version : ℤ) (ins : List TxIn) (outs : List TxOut) (n : ℕ)
    → serialize_outs version ins outs n ≢ err duplicate_transaction
foreign-outs version ins (out ∷ []) n e = foreign-out version ins out.value out.pk_script n e
foreign-outs version ins _ n e = cc

-- The sample codec and messages report no duplicates.
pub serialize-foreign : (tx : MsgTx) → sample_codec.serialize tx ≢ err duplicate_transaction
serialize-foreign tx e = foreign-outs tx.version tx.tx_in tx.tx_out tx.lock_time e

foreign-keys : (m : StakingMessage) (s f : Bytes) → marshal_keys m s f ≢ err duplicate_transaction
foreign-keys m (s ∷ []) (f ∷ []) e = cc
foreign-keys m _ _ e = cc

pub marshal_staking-foreign :
    (m : StakingMessage) → sample_proto.marshal_staking m ≢ err duplicate_transaction
marshal_staking-foreign m e = foreign-keys m m.staker_pk m.finality_provider_pk e

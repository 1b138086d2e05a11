-- ===== src/Store/Implements/Duplicates.antt =====
-- The store over kvdb reports a duplicate only where a record is bound.
use Prim.Native.String.{String}
use staking_indexer.Prelude.{
  ℕ, Bool, true, false, not, ltb, Bytes, Option, none, some, ◌≡◌, ◌≢◌, ◌∙◌, ap, arith, inl, inr,
  if◌then◌else◌,
}
use staking_indexer.Prelude.Result.{
  Result, ok, err, ◌>>=◌, ◌>>◌, guard, duplicate_transaction, Result-cases, with_err, guard-err,
  guard-ok, corrupted_transactions_db,
}
use staking_indexer.Kvdb.{Kvdb, KvdbLaws, batch-eq-err}
use staking_indexer.Wire.{Hash, MsgTx, Codec, CodecLaws}
use staking_indexer.Store.Record.{
  Proto, StakingMessage, UnbondingMessage, stored_known, stored_unbonding_known,
}
use staking_indexer.Store.Buckets.{
  staking_tx_bucket_name, unbonding_tx_bucket_name, or_corrupted, absent_as_nil-none,
  must_be_absent, must_be_present, must_be_absent-err, must_be_present-err, or_corrupted-err,
}
use staking_indexer.Store.Word.{uint64_from_bytes}
use staking_indexer.Store.Tvl.{
  increment_confirmed_tvl, subtract_confirmed_tvl, stored_tvl, required_tvl,
}
use staking_indexer.Store.Staking.{
  add_staking_transaction, add_staking_message, add_staking_body, get_staking_transaction,
  get_staking_body,
}
use staking_indexer.Store.Unbonding.{
  add_unbonding_transaction, add_unbonding_message, add_unbonding_body, get_unbonding_transaction,
  get_unbonding_body,
}
use staking_indexer.Store.Interface.{ReportsDuplicates}
use staking_indexer.Store.Implements.Instance.{kv_store}

-- The libraries do not know `ErrDuplicateTransaction`.
pub record ForeignErrors (kv : Kvdb) (c : Codec) (p : Proto) : Type 0 where
  pub serialize : (tx : MsgTx) → c.serialize tx ≢ err duplicate_transaction
  pub marshal_staking : (m : StakingMessage) → p.marshal_staking m ≢ err duplicate_transaction
  pub marshal_unbonding : (m : UnbondingMessage) → p.marshal_unbonding m ≢ err duplicate_transaction
  pub put : (n : String) (k v : Bytes) (s : kv.State) → kv.put n k v s ≢ err duplicate_transaction

word-known : (b : Bytes) → uint64_from_bytes b ≢ err duplicate_transaction
unfolding uint64_from_bytes
word-known b h = ground arith

module _ {kv : Kvdb} {c : Codec} {p : Proto} (foreign : ForeignErrors kv c p) where
  increment-known :
      (v : ℕ) (s : kv.State) → increment_confirmed_tvl kv v s ≢ err duplicate_transaction
  unfolding increment_confirmed_tvl stored_tvl
  increment-known v s h =
      with_err (guard (kv.has _ s) _) _ h (λ e. cc (guard-err _ _ e))
        λ u e h1.
          with_err (stored_tvl (kv.get _ _ s)) _ h1 (λ e'. go (kv.get _ _ s) e')
            λ t e' h2. foreign.put _ _ _ _ h2
    where
      go : (o : Option Bytes) → stored_tvl o ≢ err duplicate_transaction
      go none e = cc
      go (some b) e = word-known b e

  subtract-known :
      (v : ℕ) (s : kv.State) → subtract_confirmed_tvl kv v s ≢ err duplicate_transaction
  unfolding subtract_confirmed_tvl required_tvl
  subtract-known v s h =
      with_err (guard (kv.has _ s) _) _ h (λ e. cc (guard-err _ _ e))
        λ u e h1.
          with_err (required_tvl (kv.get _ _ s)) _ h1 (λ e'. go (kv.get _ _ s) e')
            λ t e' h2.
              with_err (guard (not (ltb t v)) _) _ h2 (λ e''. cc (guard-err _ _ e''))
                λ u' e'' h3. foreign.put _ _ _ _ h3
    where
      go : (o : Option Bytes) → required_tvl o ≢ err duplicate_transaction
      go none e = cc
      go (some b) e = word-known b e

  if-known :
      (b : Bool) (s : kv.State) (r : Result kv.State)
      → r ≢ err duplicate_transaction
      → (if b then ok s else r) ≢ err duplicate_transaction
  if-known true s r k h = cc
  if-known false s r k h = k h

  staking_body-bound :
      (k : Bytes) (m : StakingMessage) (s : kv.State)
      → add_staking_body kv p k m s ≡ err duplicate_transaction
      → (kv.has staking_tx_bucket_name s ≡ true)
        × (b : Bytes) × (kv.get staking_tx_bucket_name k s ≡ some b)
  unfolding add_staking_body
  staking_body-bound k m s h =
      with_err (guard (kv.has _ s) _) _ h (λ e. absurd (cc (guard-err _ _ e)))
        λ u o h1.
          with_err (must_be_absent (kv.get _ k s) _) _ h1
            (λ e. let (b, g) = must_be_absent-err _ _ e in (guard-ok _ _ o, b, g))
            λ u' a h2.
              with_err (p.marshal_staking m) _ h2 (λ e. absurd (foreign.marshal_staking m e))
                λ b e h3.
                  with_err (kv.put _ k b s) _ h3 (λ e'. absurd (foreign.put _ k b s e'))
                    λ s1 e' h4. absurd (if-known m.is_overflow s1 _ (increment-known _ s1) h4)

  unbonding_body-bound :
      (k sh : Bytes) (m : UnbondingMessage) (s : kv.State)
      → add_unbonding_body kv p k sh m s ≡ err duplicate_transaction
      → (kv.has unbonding_tx_bucket_name s ≡ true)
        × (b : Bytes) × (kv.get unbonding_tx_bucket_name k s ≡ some b)
  unfolding add_unbonding_body
  unbonding_body-bound k sh m s h =
      with_err (guard (kv.has _ s) _) _ h (λ e. absurd (cc (guard-err _ _ e)))
        λ u o h1.
          with_err (must_be_present (kv.get _ sh s) _) _ h1
            (λ e. absurd (cc (must_be_present-err _ _ e)))
            λ ob e h2.
              with_err (or_corrupted (p.unmarshal_staking ob)) _ h2
                (λ e'. absurd (cc (or_corrupted-err _ e'))) λ old e' h3. rest old h3
    where
      rest :
          (old : StakingMessage)
          → (do
            guard (kv.has unbonding_tx_bucket_name s) corrupted_transactions_db
            must_be_absent (kv.get unbonding_tx_bucket_name k s) duplicate_transaction
            marshalled ← p.marshal_unbonding m
            s1 ← kv.put unbonding_tx_bucket_name k marshalled s
            if old.is_overflow then ok s1 else subtract_confirmed_tvl kv old.staking_value s1)
            ≡ err duplicate_transaction
          → (kv.has unbonding_tx_bucket_name s ≡ true)
            × (b : Bytes) × (kv.get unbonding_tx_bucket_name k s ≡ some b)
      rest old h3 =
          with_err (guard (kv.has _ s) _) _ h3 (λ e. absurd (cc (guard-err _ _ e)))
            λ u o h4.
              with_err (must_be_absent (kv.get _ k s) _) _ h4
                (λ e. let (b, g) = must_be_absent-err _ _ e in (guard-ok _ _ o, b, g))
                λ u' a h5.
                  with_err (p.marshal_unbonding m) _ h5
                    (λ e. absurd (foreign.marshal_unbonding m e))
                    λ b e h6.
                      with_err (kv.put _ k b s) _ h6 (λ e'. absurd (foreign.put _ k b s e'))
                        λ s1 e' h7. absurd (if-known old.is_overflow s1 _ (subtract-known _ s1) h7)

  module _ (laws : KvdbLaws kv) (cl : CodecLaws c) where
    staking-bound :
        (k : Hash) (s : kv.State) (b : Bytes)
        → kv.has staking_tx_bucket_name s ≡ true
        → kv.get staking_tx_bucket_name k s ≡ some b
        → get_staking_transaction kv c p k s ≢ ok none
    unfolding get_staking_transaction get_staking_body
    staking-bound k s b o g h =
        let e = absent_as_nil-none _ (simp (laws.view_lem, o, g) at h) in
        with_err (or_corrupted (p.unmarshal_staking b)) _ e (λ x. cc (or_corrupted-err _ x))
          λ m u x. stored_known c cl m x

    unbonding-bound :
        (k : Hash) (s : kv.State) (b : Bytes)
        → kv.has unbonding_tx_bucket_name s ≡ true
        → kv.get unbonding_tx_bucket_name k s ≡ some b
        → get_unbonding_transaction kv c p k s ≢ ok none
    unfolding get_unbonding_transaction get_unbonding_body
    unbonding-bound k s b o g h =
        let e = absent_as_nil-none _ (simp (laws.view_lem, o, g) at h) in
        with_err (or_corrupted (p.unmarshal_unbonding b)) _ e (λ x. cc (or_corrupted-err _ x))
          λ m u x. stored_unbonding_known c cl m x

    pub kv_store-ReportsDuplicates : ReportsDuplicates c (kv_store kv c p)
    unfolding add_staking_transaction add_staking_message add_unbonding_transaction
        add_unbonding_message
    kv_store-ReportsDuplicates = record {
      staking = λ st s h. elim (Result-cases (c.serialize st.tx)) [
        | inl (b, e) ↦
            let f =
              batch-eq-err laws _ s duplicate_transaction (λ x q. cc)
                (rw (e, add_staking_transaction) at h) in
            let (o, b', g) = staking_body-bound _ _ s f in staking-bound _ s b' o g
        | inr (inl (x, e)) ↦
            let q : x ≡ duplicate_transaction = cc (rw (e, add_staking_transaction) at h) in
            absurd (foreign.serialize st.tx (e ∙ ap err q))
        | inr (inr e) ↦ absurd (cc (rw (e, add_staking_transaction) at h))
      ];
      unbonding = λ tx sh s h. elim (Result-cases (c.serialize tx)) [
        | inl (b, e) ↦
            let f =
              batch-eq-err laws _ s duplicate_transaction (λ x q. cc)
                (rw (e, add_unbonding_transaction) at h) in
            let (o, b', g) = unbonding_body-bound _ _ _ s f in unbonding-bound _ s b' o g
        | inr (inl (x, e)) ↦
            let q : x ≡ duplicate_transaction = cc (rw (e, add_unbonding_transaction) at h) in
            absurd (foreign.serialize tx (e ∙ ap err q))
        | inr (inr e) ↦ absurd (cc (rw (e, add_unbonding_transaction) at h))
      ];
    }

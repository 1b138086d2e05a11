-- ===== src/Store/Unbonding/Effect.antt =====
-- What `add_unbonding_transaction` leaves in the database, read back by every getter.
use Prim.Native.String.{String}
use text.Mathlib.Text.{◌==◌ as str_eq}
use staking_indexer.Prelude.{
  ℕ, ◌-◌, ◌≤◌, true, false, Bytes, bytes_eq, none, some, ◌≡◌, ◌∙◌, ◌&&◌, sym, ap, if◌then◌else◌,
  arith, inl, inr, Bool-cases,
}
use staking_indexer.Prelude.Result.{
  Result, ok, err, panic, guard, >>=-eq-ok, guard-ok, transaction_not_found, duplicate_transaction,
}
use staking_indexer.Kvdb.{Kvdb, KvdbLaws}
use staking_indexer.Store.Word.{uint64_from_bytes-uint64_to_bytes}
use staking_indexer.Store.Record.{Proto, StakingMessage, UnbondingMessage}
use staking_indexer.Store.Buckets.{
  staking_tx_bucket_name, unbonding_tx_bucket_name, confirmed_tvl_bucket_name, confirmed_tvl_key,
  or_corrupted, must_be_present, must_be_absent, must_be_present-ok, must_be_absent-ok,
}
use staking_indexer.Store.Tvl.{subtract_confirmed_tvl, stored_tvl, get_confirmed_tvl}
use staking_indexer.Store.Tvl.Effect.{
  Wrote, Wrote-self, required-stored, required_tvl-lt, sub-lt, put-Wrote, subtract-Wrote,
}
use staking_indexer.Store.Unbonding.{add_unbonding_body}
use staking_indexer.Store.Reads.{get_confirmed_tvl-cong, get_confirmed_tvl-open}

-- What a batch that added the message `m` under the key `k` went through; `old` is the message of
-- the staking transaction that it spends.
pub record Stored (kv : Kvdb) (p : Proto) (k staking_hash : Bytes) (m : UnbondingMessage)
    (s t : kv.State) : Type 0 where
  pub open_staking : kv.has staking_tx_bucket_name s ≡ true
  pub old_bytes : Bytes
  pub known : kv.get staking_tx_bucket_name staking_hash s ≡ some old_bytes
  pub old : StakingMessage
  pub unmarshalled : p.unmarshal_staking old_bytes ≡ ok old
  pub open_bucket : kv.has unbonding_tx_bucket_name s ≡ true
  pub absent : kv.get unbonding_tx_bucket_name k s ≡ none
  pub bytes : Bytes
  pub marshalled : p.marshal_unbonding m ≡ ok bytes
  pub middle : kv.State
  pub wrote : Wrote kv unbonding_tx_bucket_name k bytes s middle
  pub rest :
      (if old.is_overflow then ok middle else subtract_confirmed_tvl kv old.staking_value middle)
      ≡ ok t

or_corrupted-ok :
    (r : Result StakingMessage) {m : StakingMessage} → or_corrupted r ≡ ok m → r ≡ ok m
or_corrupted-ok (ok a) h = h
or_corrupted-ok (err e) h = cc
or_corrupted-ok panic h = cc

module _ {kv : Kvdb} (laws : KvdbLaws kv) (p : Proto) where
  pub body-Stored :
      (k sh : Bytes) (m : UnbondingMessage) (s t : kv.State)
      → add_unbonding_body kv p k sh m s ≡ ok t
      → Stored kv p k sh m s t
  unfolding add_unbonding_body
  body-Stored k sh m s t h =
      let e : kv.has staking_tx_bucket_name s ≡ true = ground arith in
      let (ob, eo, h1) =
        >>=-eq-ok (must_be_present (kv.get staking_tx_bucket_name sh s) transaction_not_found) _
          (rw e at h) in
      let (old, eold, h2) = >>=-eq-ok (or_corrupted (p.unmarshal_staking ob)) _ h1 in
      let (_, eu, h3) = >>=-eq-ok (guard (kv.has unbonding_tx_bucket_name s) _) _ h2 in
      let (_, ea, h4) =
        >>=-eq-ok (must_be_absent (kv.get unbonding_tx_bucket_name k s) duplicate_transaction) _
          h3 in
      let (b, eb, h5) = >>=-eq-ok (p.marshal_unbonding m) _ h4 in
      let (u, ew, h6) = >>=-eq-ok (kv.put unbonding_tx_bucket_name k b s) _ h5 in
      record {
        open_staking = e;
        old_bytes = ob;
        known = must_be_present-ok _ _ eo;
        old = old;
        unmarshalled = or_corrupted-ok _ eold;
        open_bucket = guard-ok _ _ eu;
        absent = must_be_absent-ok _ _ ea;
        bytes = b;
        marshalled = eb;
        middle = u;
        wrote = put-Wrote laws _ _ _ s u ew;
        rest = h6;
      }

  module _ {k sh : Bytes} {m : UnbondingMessage} {s t : kv.State}
      (stored : Stored kv p k sh m s t) where
    overflow-middle : stored.old.is_overflow ≡ true → stored.middle ≡ t
    overflow-middle o = let e = rw o at stored.rest in cc

    active-subtract :
        stored.old.is_overflow ≡ false
        → subtract_confirmed_tvl kv stored.old.staking_value stored.middle ≡ ok t
    active-subtract o = rw o at stored.rest

    pub Stored-has : (n : String) → kv.has n t ≡ kv.has n s
    Stored-has n = elim (Bool-cases stored.old.is_overflow) [
      | inl o ↦ rw (← overflow-middle o) (stored.wrote.has n)
      | inr o ↦
          let (w, op, e, le, wr) =
            subtract-Wrote laws stored.old.staking_value stored.middle t (active-subtract o) in
          wr.has n ∙ stored.wrote.has n
    ]

    pub Stored-get :
        (n : String) (j : Bytes)
        → str_eq confirmed_tvl_bucket_name n ≡ false
        → kv.get n j t ≡ (
            if str_eq unbonding_tx_bucket_name n && bytes_eq k j
            then some stored.bytes
            else kv.get n j s)
    Stored-get n j d = elim (Bool-cases stored.old.is_overflow) [
      | inl o ↦ rw (← overflow-middle o) (stored.wrote.get n j)
      | inr o ↦
          let (w, op, e, le, wr) =
            subtract-Wrote laws stored.old.staking_value stored.middle t (active-subtract o) in
          (rw d at (wr.get n j)) ∙ stored.wrote.get n j
    ]

    pub Stored-tvl_overflow :
        stored.old.is_overflow ≡ true → get_confirmed_tvl kv t ≡ get_confirmed_tvl kv s
    Stored-tvl_overflow o =
        get_confirmed_tvl-cong laws s t (Stored-has _)
          (rw (← overflow-middle o) (stored.wrote.get confirmed_tvl_bucket_name confirmed_tvl_key))

    pub Stored-tvl_active :
        stored.old.is_overflow ≡ false
        → (w : ℕ) × (get_confirmed_tvl kv s ≡ ok w)
          × (stored.old.staking_value ≤ w)
          × (get_confirmed_tvl kv t ≡ ok (w - stored.old.staking_value))
    unfolding stored_tvl
    Stored-tvl_active o =
        let (w, op, e, le, wr) =
          subtract-Wrote laws stored.old.staking_value stored.middle t (active-subtract o) in
        let before = stored.wrote.get confirmed_tvl_bucket_name confirmed_tvl_key in
        let open_s = sym (stored.wrote.has confirmed_tvl_bucket_name) ∙ op in
        (
          w,
          get_confirmed_tvl-open laws s open_s ∙ required-stored _ _ (rw before at e),
          le,
          get_confirmed_tvl-open laws t (Stored-has _ ∙ open_s)
              ∙ ap stored_tvl (Wrote-self wr)
              ∙ uint64_from_bytes-uint64_to_bytes _ (sub-lt _ _ _ (required_tvl-lt _ _ e)),
        )

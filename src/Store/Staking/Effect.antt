-- ===== src/Store/Staking/Effect.antt =====
-- What `add_staking_transaction` leaves in the database, read back by every getter.
use Prim.Native.String.{String}
use text.Mathlib.Text.{◌==◌ as str_eq}
use staking_indexer.Prelude.{
  ℕ, ◌+◌, ◌%◌, true, false, Bytes, bytes_eq, none, some, ◌≡◌, ◌∙◌, ◌&&◌, sym, ap, if◌then◌else◌,
  u64_mod, arith, inl, inr, Bool-cases,
}
use staking_indexer.Prelude.Result.{ok, >>=-eq-ok}
use staking_indexer.Kvdb.{Kvdb, KvdbLaws}
use staking_indexer.Store.Word.{uint64_from_bytes-uint64_to_bytes}
use staking_indexer.Store.Record.{Proto, StakingMessage}
use staking_indexer.Store.Buckets.{
  staking_tx_bucket_name, confirmed_tvl_bucket_name, confirmed_tvl_key,
}
use staking_indexer.Store.Tvl.{increment_confirmed_tvl, stored_tvl, get_confirmed_tvl}
use staking_indexer.Store.Tvl.Effect.{Wrote, Wrote-self, put-Wrote, increment-Wrote}
use staking_indexer.Store.Staking.{add_staking_body}
use staking_indexer.Store.Reads.{get_confirmed_tvl-cong, get_confirmed_tvl-open}

-- What a batch that added the message `m` under the key `k` went through.
pub record Stored (kv : Kvdb) (p : Proto) (k : Bytes) (m : StakingMessage) (s t : kv.State)
    : Type 0 where
  pub open_bucket : kv.has staking_tx_bucket_name s ≡ true
  pub absent : kv.get staking_tx_bucket_name k s ≡ none
  pub bytes : Bytes
  pub marshalled : p.marshal_staking m ≡ ok bytes
  pub middle : kv.State
  pub wrote : Wrote kv staking_tx_bucket_name k bytes s middle
  pub rest :
      (if m.is_overflow then ok middle else increment_confirmed_tvl kv m.staking_value middle)
      ≡ ok t

module _ {kv : Kvdb} (laws : KvdbLaws kv) (p : Proto) where
  pub body-Stored :
      (k : Bytes) (m : StakingMessage) (s t : kv.State)
      → add_staking_body kv p k m s ≡ ok t
      → Stored kv p k m s t
  unfolding add_staking_body
  body-Stored k m s t h =
      let e : kv.has staking_tx_bucket_name s ≡ true = ground arith in
      let a : kv.get staking_tx_bucket_name k s ≡ none = ground arith in
      let (b, eb, h1) = >>=-eq-ok (p.marshal_staking m) _ (rw (e, a) at h) in
      let (u, eu, h2) = >>=-eq-ok (kv.put staking_tx_bucket_name k b s) _ h1 in
      record {
        open_bucket = e;
        absent = a;
        bytes = b;
        marshalled = eb;
        middle = u;
        wrote = put-Wrote laws _ _ _ s u eu;
        rest = h2;
      }

  module _ {k : Bytes} {m : StakingMessage} {s t : kv.State} (stored : Stored kv p k m s t) where
    overflow-middle : m.is_overflow ≡ true → stored.middle ≡ t
    overflow-middle o = let e = rw o at stored.rest in cc

    active-increment :
        m.is_overflow ≡ false → increment_confirmed_tvl kv m.staking_value stored.middle ≡ ok t
    active-increment o = rw o at stored.rest

    pub Stored-has : (n : String) → kv.has n t ≡ kv.has n s
    Stored-has n = elim (Bool-cases m.is_overflow) [
      | inl o ↦ rw (← overflow-middle o) (stored.wrote.has n)
      | inr o ↦
          let (w, op, e, wr) =
            increment-Wrote laws m.staking_value stored.middle t (active-increment o) in
          wr.has n ∙ stored.wrote.has n
    ]

    pub Stored-get :
        (n : String) (j : Bytes)
        → str_eq confirmed_tvl_bucket_name n ≡ false
        → kv.get n j t ≡ (
            if str_eq staking_tx_bucket_name n && bytes_eq k j
            then some stored.bytes
            else kv.get n j s)
    Stored-get n j d = elim (Bool-cases m.is_overflow) [
      | inl o ↦ rw (← overflow-middle o) (stored.wrote.get n j)
      | inr o ↦
          let (w, op, e, wr) =
            increment-Wrote laws m.staking_value stored.middle t (active-increment o) in
          (rw d at (wr.get n j)) ∙ stored.wrote.get n j
    ]

    pub Stored-tvl_overflow : m.is_overflow ≡ true → get_confirmed_tvl kv t ≡ get_confirmed_tvl kv s
    Stored-tvl_overflow o =
        get_confirmed_tvl-cong laws s t (Stored-has _)
          (rw (← overflow-middle o) (stored.wrote.get confirmed_tvl_bucket_name confirmed_tvl_key))

    pub Stored-tvl_active :
        m.is_overflow ≡ false
        → (w : ℕ) × (get_confirmed_tvl kv s ≡ ok w)
          × (get_confirmed_tvl kv t ≡ ok ((w + m.staking_value) % u64_mod))
    unfolding stored_tvl
    Stored-tvl_active o =
        let (w, op, e, wr) =
          increment-Wrote laws m.staking_value stored.middle t (active-increment o) in
        let before = stored.wrote.get confirmed_tvl_bucket_name confirmed_tvl_key in
        let open_s = sym (stored.wrote.has confirmed_tvl_bucket_name) ∙ op in
        (
          w,
          get_confirmed_tvl-open laws s open_s ∙ (rw before at e),
          get_confirmed_tvl-open laws t (Stored-has _ ∙ open_s)
              ∙ ap stored_tvl (Wrote-self wr)
              ∙ uint64_from_bytes-uint64_to_bytes _ (omega arith),
        )

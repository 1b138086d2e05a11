-- ===== src/Store/Tvl/Effect.antt =====
-- What the batch functions of the confirmed TVL leave in the database.
use Prim.Native.String.{String}
use text.Mathlib.Text.{◌==◌ as str_eq}
use text.Mathlib.TextPositions.{eq_refl}
use staking_indexer.Prelude.{
  ℕ, ◌+◌, ◌-◌, ◌%◌, ◌<◌, ◌≤◌, true, false, Bytes, bytes_eq, Option, none, some, ◌≡◌, ◌&&◌, ltb,
  if◌then◌else◌, u64_mod, arith, tests, bytes_eq_refl,
}
use staking_indexer.Prelude.Result.{ok}
use staking_indexer.Kvdb.{Kvdb, KvdbLaws}
use staking_indexer.Store.Word.{uint64_to_bytes, uint64_from_bytes-lt}
use staking_indexer.Store.Buckets.{confirmed_tvl_bucket_name, confirmed_tvl_key}
use staking_indexer.Store.Tvl.{
  increment_confirmed_tvl, subtract_confirmed_tvl, stored_tvl, required_tvl,
}

-- From `s` to `t` one key of one bucket was written, and nothing else changed.
pub record Wrote (kv : Kvdb) (n : String) (k v : Bytes) (s t : kv.State) : Type 0 where
  pub has : (m : String) → kv.has m t ≡ kv.has m s
  pub get :
      (m : String) (j : Bytes)
      → kv.get m j t ≡ (if str_eq n m && bytes_eq k j then some v else kv.get m j s)

pub Wrote-self :
    {kv : Kvdb} {n : String} {k v : Bytes} {s t : kv.State}
    → Wrote kv n k v s t
    → kv.get n k t ≡ some v
Wrote-self {n = n} {k = k} wr = rw (eq_refl n, bytes_eq_refl k) at (wr.get n k)

module _ {kv : Kvdb} (laws : KvdbLaws kv) where
  pub put-Wrote :
      (n : String) (k v : Bytes) (s t : kv.State) → kv.put n k v s ≡ ok t → Wrote kv n k v s t
  put-Wrote n k v s t h = record {
    has = λ m. laws.has-put n m k v s t h;
    get = λ m j. laws.get-put n m k j v s t h;
  }

  pub increment-Wrote :
      (v : ℕ) (s t : kv.State)
      → increment_confirmed_tvl kv v s ≡ ok t
      → (w : ℕ) × (kv.has confirmed_tvl_bucket_name s ≡ true)
        × (stored_tvl (kv.get confirmed_tvl_bucket_name confirmed_tvl_key s) ≡ ok w)
        × Wrote kv confirmed_tvl_bucket_name confirmed_tvl_key
            (uint64_to_bytes ((w + v) % u64_mod))
            s
            t
  unfolding increment_confirmed_tvl
  increment-Wrote v s t h =
      let e : kv.has confirmed_tvl_bucket_name s ≡ true = ground arith in
      let q : (w : ℕ) × (stored_tvl (kv.get confirmed_tvl_bucket_name confirmed_tvl_key s) ≡ ok w) =
        ground arith in
      (q.0, e, q.1, put-Wrote _ _ _ s t (rw (e, q.1) at h))

  pub subtract-Wrote :
      (v : ℕ) (s t : kv.State)
      → subtract_confirmed_tvl kv v s ≡ ok t
      → (w : ℕ) × (kv.has confirmed_tvl_bucket_name s ≡ true)
        × (required_tvl (kv.get confirmed_tvl_bucket_name confirmed_tvl_key s) ≡ ok w)
        × (v ≤ w)
        × Wrote kv confirmed_tvl_bucket_name confirmed_tvl_key (uint64_to_bytes (w - v)) s t
  unfolding subtract_confirmed_tvl
  subtract-Wrote v s t h =
      let e : kv.has confirmed_tvl_bucket_name s ≡ true = ground arith in
      let q : (w : ℕ) × (required_tvl (kv.get confirmed_tvl_bucket_name confirmed_tvl_key s)
            ≡ ok w) =
        ground arith in
      let le : ltb q.0 v ≡ false = ground (arith, q.1) in
      (q.0, e, q.1, omega tests, put-Wrote _ _ _ s t (rw (e, q.1, le) at h))

-- A TVL that is required and there is what a read returns.
pub required-stored : (o : Option Bytes) (w : ℕ) → required_tvl o ≡ ok w → stored_tvl o ≡ ok w
unfolding required_tvl stored_tvl
required-stored none w h = cc
required-stored (some b) w h = h

pub required_tvl-lt : (o : Option Bytes) (w : ℕ) → required_tvl o ≡ ok w → w < u64_mod
unfolding required_tvl
required_tvl-lt none w h = absurd (cc)
required_tvl-lt (some b) w h = uint64_from_bytes-lt b w h

pub sub-lt : (w v n : ℕ) → w < n → w - v < n
sub-lt w v n h = omega arith

-- ===== src/Kvdb.antt =====
-- lnd's kvdb, which the store is built on, as a parameter: a database state with top-level buckets
-- and the transactions `Batch` (read-write) and `View` (read-only).
use staking_indexer.Prelude.{
  ℕ, Bytes, bytes_eq, Bool, true, ◌&&◌, Option, some, ◌≡◌, ◌⊎◌, inl, inr, if◌then◌else◌, ap, ◌≢◌,
}
use staking_indexer.Prelude.Result.{Error, external, Result, ok, err, panic, Result-cases}
use Prim.Native.String.{String}
use text.Mathlib.Text.{◌==◌ as str_eq}

-- `create` is `CreateTopLevelBucket`; `has` says whether `ReadBucket` is not nil; `get` and `put`
-- are those of a bucket that is there. The function given to `batch` returns the state that it
-- leaves, that given to `view` what it read.
pub record Kvdb : Type 1 where
  pub State : Type 0
  pub create : String → State → Result State
  pub has : String → State → Bool
  pub get : String → Bytes → State → Option Bytes
  pub put : String → Bytes → Bytes → State → Result State
  pub batch : (State → Result State) → State → Result (Unit {0}) × State
  pub view : {A : Type 0} → (State → Result A) → State → Result A

-- The documented behaviour. `batch` commits what a function that returns no error did, unless the
-- commit itself fails, and rolls back otherwise.
pub record KvdbLaws (kv : Kvdb) : Type 1 where
  pub has-create :
      (n m : String) (s t : kv.State)
      → kv.create n s ≡ ok t
      → kv.has m t ≡ (if str_eq n m then true else kv.has m s)
  pub get-create :
      (n m : String) (k : Bytes) (s t : kv.State)
      → kv.create n s ≡ ok t
      → kv.get m k t ≡ kv.get m k s
  pub has-put :
      (n m : String) (k v : Bytes) (s t : kv.State)
      → kv.put n k v s ≡ ok t
      → kv.has m t ≡ kv.has m s
  pub get-put :
      (n m : String) (k j v : Bytes) (s t : kv.State)
      → kv.put n k v s ≡ ok t
      → kv.get m j t ≡ (if str_eq n m && bytes_eq k j then some v else kv.get m j s)
  pub batch_ok :
      (f : kv.State → Result kv.State) (s t : kv.State)
      → f s ≡ ok t
      → (kv.batch f s ≡ (ok tt, t)) ⊎ ((e : ℕ) × (kv.batch f s ≡ (err (external e), s)))
  pub batch_err :
      (f : kv.State → Result kv.State) (s : kv.State) (e : Error)
      → f s ≡ err e
      → kv.batch f s ≡ (err e, s)
  pub batch_panic :
      (f : kv.State → Result kv.State) (s : kv.State) → f s ≡ panic → kv.batch f s ≡ (panic, s)
  pub view_lem : (A : Type 0) (f : kv.State → Result A) (s : kv.State) → kv.view f s ≡ f s

module _ {kv : Kvdb} (laws : KvdbLaws kv) where
  -- A batch commits what its function left, or fails and leaves the state as it was.
  pub batch_outcome :
      (f : kv.State → Result kv.State) (s : kv.State)
      → ((t : kv.State) × (f s ≡ ok t) × (kv.batch f s ≡ (ok tt, t)))
        ⊎ ((e : Error) × (kv.batch f s ≡ (err e, s)))
        ⊎ (kv.batch f s ≡ (panic, s))
  batch_outcome f s = elim (Result-cases (f s)) [
    | inl (t, p) ↦ elim (laws.batch_ok f s t p) [
      | inl q ↦ inl (t, p, q)
      | inr (e, q) ↦ inr (inl (external e, q))
    ]
    | inr (inl (e, p)) ↦ inr (inl (e, laws.batch_err f s e p))
    | inr (inr p) ↦ inr (inr (laws.batch_panic f s p))
  ]

  -- A batch that returned no error left what its function left.
  pub batch-eq-ok :
      (f : kv.State → Result kv.State) (s t : kv.State) → kv.batch f s ≡ (ok tt, t) → f s ≡ ok t
  batch-eq-ok f s t h = elim (batch_outcome f s) [
    | inl (u, p, q) ↦ cc
    | inr (inl (e, q)) ↦ cc
    | inr (inr q) ↦ cc
  ]

  -- A batch that failed left the state as it was.
  pub batch-ne-ok :
      (f : kv.State → Result kv.State) (s : kv.State)
      → (kv.batch f s).0 ≢ ok tt
      → (kv.batch f s).1 ≡ s
  batch-ne-ok f s h = elim (batch_outcome f s) [
    | inl (u, p, q) ↦ absurd (h (ap (λ r. r.0) q))
    | inr (inl (e, q)) ↦ ap (λ r. r.1) q
    | inr (inr q) ↦ ap (λ r. r.1) q
  ]

  -- An error of this repository comes from the function of the batch.
  pub batch-eq-err :
      (f : kv.State → Result kv.State) (s : kv.State) (x : Error)
      → ((e : ℕ) → external e ≢ x)
      → (kv.batch f s).0 ≡ err x
      → f s ≡ err x
  batch-eq-err f s x own h = elim (Result-cases (f s)) [
    | inl (t, p) ↦ elim (laws.batch_ok f s t p) [
      | inl q ↦ absurd (cc (h, ap (λ r. r.0) q))
      | inr (e, q) ↦ absurd (own e (cc (h, ap (λ r. r.0) q)))
    ]
    | inr (inl (e, p)) ↦
        let q = ap (λ r. r.0) (laws.batch_err f s e p) in
        let same : e ≡ x = cc (h, q) in rw (p, same)
    | inr (inr p) ↦ absurd (cc (h, ap (λ r. r.0) (laws.batch_panic f s p)))
  ]

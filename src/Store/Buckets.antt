-- ===== src/Store/Buckets.antt =====
-- The buckets and keys of indexerstore/indexer_store.go, `initBuckets`, and the error handling that
-- the methods share. A function of a batch returns the state that it leaves.
use Prim.Native.String.{String}
use staking_indexer.Prelude.{Bytes, Option, none, some, [], ◌∷◌, ◌≡◌, refl, arith}
use staking_indexer.Prelude.Result.{
  Error, Result, ok, err, panic, ◌>>=◌, corrupted_transactions_db, transaction_not_found,
}
use staking_indexer.Kvdb.{Kvdb}

abbrev pub staking_tx_bucket_name : String
staking_tx_bucket_name = "stakingtxs"

abbrev pub unbonding_tx_bucket_name : String
unbonding_tx_bucket_name = "unbondingtxs"

abbrev pub indexer_state_bucket_name : String
indexer_state_bucket_name = "indexerstate"

abbrev pub confirmed_tvl_bucket_name : String
confirmed_tvl_bucket_name = "confirmedtvl"

-- The bytes of "confirmedtvl".
abbrev pub confirmed_tvl_key : Bytes
confirmed_tvl_key =
    b'c' ∷ b'o' ∷ b'n' ∷ b'f' ∷ b'i' ∷ b'r' ∷ b'm' ∷ b'e' ∷ b'd' ∷ b't' ∷ b'v' ∷ b'l' ∷ []

-- The bytes of "lastprocessedheight".
abbrev pub last_processed_height_key : Bytes
last_processed_height_key =
    b'l' ∷ b'a' ∷ b's' ∷ b't' ∷ b'p' ∷ b'r' ∷ b'o' ∷ b'c' ∷ b'e' ∷ b's' ∷ b's' ∷ b'e' ∷ b'd' ∷ b'h'
    ∷ b'e' ∷ b'i' ∷ b'g' ∷ b'h' ∷ b't' ∷ []

-- An error of `pm.Unmarshal` is reported as a corrupted database.
abbrev pub or_corrupted {ℓ} : {A : Type ℓ} → Result A → Result A
or_corrupted (ok a) = ok a
or_corrupted (err e) = err corrupted_transactions_db
or_corrupted panic = panic

-- `err != nil && !errors.Is(err, ErrTransactionNotFound)`; a missing record is `(nil, nil)`.
abbrev pub absent_as_nil {ℓ} : {A : Type ℓ} → Result A → Result (Option A)
absent_as_nil (ok a) = ok (some a)
absent_as_nil (err transaction_not_found) = ok none
absent_as_nil (err e) = err e
absent_as_nil panic = panic

-- `if maybeTx != nil { return err }`
abbrev pub must_be_absent : Option Bytes → Error → Result (Unit {0})
must_be_absent none e = ok tt
must_be_absent (some b) e = err e

-- `if maybeTx == nil { return err }`
abbrev pub must_be_present : Option Bytes → Error → Result Bytes
must_be_present none e = err e
must_be_present (some b) e = ok b

pub must_be_absent-ok :
    (o : Option Bytes) (e : Error) {u : Unit {0}} → must_be_absent o e ≡ ok u → o ≡ none
must_be_absent-ok none e h = refl
must_be_absent-ok (some b) e h = cc

pub must_be_present-ok :
    (o : Option Bytes) (e : Error) {b : Bytes} → must_be_present o e ≡ ok b → o ≡ some b
must_be_present-ok none e h = cc
must_be_present-ok (some b) e h = ground arith

pub must_be_absent-err :
    (o : Option Bytes) (x : Error) {e : Error}
    → must_be_absent o x ≡ err e
    → (b : Bytes) × (o ≡ some b)
must_be_absent-err none x h = cc
must_be_absent-err (some b) x h = (b, refl)

pub must_be_present-err :
    (o : Option Bytes) (x : Error) {e : Error} → must_be_present o x ≡ err e → x ≡ e
must_be_present-err none x h = cc
must_be_present-err (some b) x h = cc

pub or_corrupted-err {ℓ} :
    {A : Type ℓ} (r : Result A) {e : Error} → or_corrupted r ≡ err e → corrupted_transactions_db ≡ e
or_corrupted-err (ok a) h = cc
or_corrupted-err (err x) h = cc
or_corrupted-err panic h = cc

pub absent_as_nil-some {ℓ} :
    {A : Type ℓ} (r : Result A) {a : A} → absent_as_nil r ≡ ok (some a) → r ≡ ok a
absent_as_nil-some (ok b) h = ground arith
absent_as_nil-some (err transaction_not_found) h = cc
absent_as_nil-some (err e) h = cc
absent_as_nil-some panic h = cc

pub absent_as_nil-none {ℓ} :
    {A : Type ℓ} (r : Result A) → absent_as_nil r ≡ ok none → r ≡ err transaction_not_found
absent_as_nil-none (ok b) h = cc
absent_as_nil-none (err transaction_not_found) h = refl
absent_as_nil-none (err e) h = cc
absent_as_nil-none panic h = cc

module _ (kv : Kvdb) where
  unfoldable pub init_buckets : kv.State → Result (Unit {0}) × kv.State
  init_buckets = kv.batch λ s. do
    s1 ← kv.create staking_tx_bucket_name s
    s2 ← kv.create unbonding_tx_bucket_name s1
    s3 ← kv.create indexer_state_bucket_name s2
    kv.create confirmed_tvl_bucket_name s3

-- ===== src/Prelude/Result.antt =====
-- Go's `(value, error)` results. An error is known by what `errors.Is` sees of it: the text that
-- `fmt.Errorf("...: %w", err)` puts in front of a cause is dropped. A panic ends the process.
use mathlib.Core.Path.{◌≡◌, refl, sym, ap}
use mathlib.Core.Logic.{◌⊎◌, inl, inr}
use mathlib.Core.Bool.{Bool, true, false}
use Prim.Native.Nat.{ℕ}

pub data Error : Type 0 where
  -- indexerstore/errors.go
  corrupted_transactions_db : Error
  transaction_not_found : Error
  duplicate_transaction : Error
  corrupted_state_db : Error
  last_processed_height_not_found : Error
  negative_tvl : Error
  -- indexer/errors.go
  invalid_unbonding_tx : Error
  invalid_staking_tx : Error
  invalid_withdrawal_tx : Error
  -- btcscanner/errors.go
  empty_cache : Error
  invalid_max_entries : Error
  too_many_entries : Error
  unsorted_blocks : Error
  -- errors that this repository makes from a text alone
  start_height_too_low : Error
  start_height_too_high : Error
  database_empty : Error
  params_not_exist : Error
  not_staking_tx : Error
  total_tvl_negative : Error
  invalid_uint64_length : Error
  invalid_staking_tx_hash : Error
  no_unconfirmed_blocks : Error
  missing_blocks : Error
  parent_mismatch : Error
  reorg_happened : Error
  not_connected_to_tip : Error
  start_above_tip : Error
  already_started : Error
  no_tip_height : Error
  not_enough_params : Error
  from_above_to : Error
  invalid_config : Error
  no_config_file : Error
  home_exists : Error
  symlink_not_mounted : Error
  unrecognized_log_format : Error
  unsupported_log_level : Error
  not_connected : Error
  -- an error that a library returns
  external : ℕ → Error

pub data Result {ℓ} (V : Type ℓ) : Type ℓ where
  panic : Result V
  err : Error → Result V
  ok : V → Result V

-- An error or a panic ends the chain.
infixl 5 ◌>>=◌ ◌>>◌
abbrev pub ◌>>=◌ {ℓ μ} : {V : Type ℓ} {W : Type μ} → Result V → (V → Result W) → Result W
panic >>= next = panic
err x >>= next = err x
ok v >>= next = next v

abbrev pub ◌>>◌ {ℓ} : {W : Type ℓ} → Result (Unit {0}) → Result W → Result W
first >> second = first >>= λ _. second

-- `if !passed { return x }`
abbrev pub guard : Bool → Error → Result (Unit {0})
guard false x = err x
guard true x = ok tt

-- `if err != nil { return fmt.Errorf("...") }`, without the cause.
abbrev pub or_fail {ℓ} : {V : Type ℓ} → Result V → Error → Result V
or_fail (ok v) x = ok v
or_fail (err e) x = err x
or_fail panic x = panic

pub or_fail-ok {ℓ} : {V : Type ℓ} (r : Result V) (x : Error) {v : V} → or_fail r x ≡ ok v → r ≡ ok v
or_fail-ok (ok v) x h = h
or_fail-ok (err e) x h = cc
or_fail-ok panic x h = cc

pub >>=-eq-ok {ℓ μ} :
    {V : Type ℓ} {W : Type μ} (first : Result V) (next : V → Result W) {w : W}
    → (first >>= next) ≡ ok w
    → (v : V) × (first ≡ ok v) × (next v ≡ ok w)
>>=-eq-ok panic next h = cc
>>=-eq-ok (err x) next h = cc
>>=-eq-ok (ok v) next h = (v, refl, h)

pub Result-cases {ℓ} :
    {A : Type ℓ} (r : Result A) → ((a : A) × (r ≡ ok a)) ⊎ ((e : Error) × (r ≡ err e)) ⊎ (r ≡ panic)
Result-cases (ok a) = inl (a, refl)
Result-cases (err e) = inr (inl (e, refl))
Result-cases panic = inr (inr refl)

-- A pair with its two parts.
pub pair-eq : {A B : Type 0} (p : A × B) (a : A) (b : B) → p.0 ≡ a → p.1 ≡ b → p ≡ (a, b)
pair-eq p a b e f = rw (sym e, sym f) refl

pub guard-ok : (b : Bool) (e : Error) {u : Unit {0}} → guard b e ≡ ok u → b ≡ true
guard-ok true e h = refl
guard-ok false e h = cc

-- The same with a goal: what is bound stays a variable there.
pub with_ok {ℓ κ μ} :
    {A : Type ℓ} {B : Type κ} {C : Type μ} (m : Result A) (f : A → Result B) {b : B}
    → (m >>= f) ≡ ok b
    → ((a : A) → m ≡ ok a → f a ≡ ok b → C)
    → C
with_ok (ok a) f h k = k a refl h
with_ok (err e) f h k = absurd (cc)
with_ok panic f h k = absurd (cc)

-- An error of a chain is the error of one of its parts.
pub with_err {ℓ κ μ} :
    {A : Type ℓ} {B : Type κ} {C : Type μ} (m : Result A) (f : A → Result B) {e : Error}
    → (m >>= f) ≡ err e
    → (m ≡ err e → C)
    → ((a : A) → m ≡ ok a → f a ≡ err e → C)
    → C
with_err (ok a) f h k l = l a refl h
with_err (err x) f {e} h k l = let q : x ≡ e = cc in k (ap err q)
with_err panic f h k l = absurd (cc)

pub guard-err : (b : Bool) (x : Error) {e : Error} → guard b x ≡ err e → x ≡ e
guard-err true x h = cc
guard-err false x h = cc

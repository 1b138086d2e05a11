-- ===== src/Tests/Db.antt =====
-- A database of functions, whose writes always succeed.
use Prim.Native.String.{String}
use text.Mathlib.Text.{◌==◌ as str_eq}
use staking_indexer.Prelude.{
  Bool, true, Bytes, bytes_eq, Option, none, some, ◌≡◌, ◌&&◌, refl, ap, sym, inl, if◌then◌else◌,
}
use staking_indexer.Prelude.Result.{Result, ok, err, panic}
use staking_indexer.Kvdb.{Kvdb, KvdbLaws}

pub record Tables : Type 0 where
  pub has : String → Bool
  pub get : String → Bytes → Option Bytes

abbrev run : Result Tables → Tables → Result (Unit {0}) × Tables
run (ok t) s = (ok tt, t)
run (err e) s = (err e, s)
run panic s = (panic, s)

abbrev pub sample_db : Kvdb
sample_db = record {
  State = Tables;
  create = λ n s. ok (record s { has = λ m. if str_eq n m then true else s.has m });
  has = λ n s. s.has n;
  get = λ n k s. s.get n k;
  put = λ n k v s.
      ok (record s { get = λ m j. if str_eq n m && bytes_eq k j then some v else s.get m j });
  batch = λ f s. run (f s) s;
  view = λ f s. f s;
}

ok-injective : (a b : Tables) → ok a ≡ ok b → a ≡ b
ok-injective a b h = cc

pub sample_db-KvdbLaws : KvdbLaws sample_db
sample_db-KvdbLaws = record {
  has-create = λ n m s t e. ap (λ (x : Tables). x.has m) (sym (ok-injective _ t e));
  get-create = λ n m k s t e. ap (λ (x : Tables). x.get m k) (sym (ok-injective _ t e));
  has-put = λ n m k v s t e. ap (λ (x : Tables). x.has m) (sym (ok-injective _ t e));
  get-put = λ n m k j v s t e. ap (λ (x : Tables). x.get m j) (sym (ok-injective _ t e));
  batch_ok = λ f s t e. inl (ap (λ r. run r s) e);
  batch_err = λ f s x e. ap (λ r. run r s) e;
  batch_panic = λ f s e. ap (λ r. run r s) e;
  view_lem = λ A f s. refl;
}

-- The four buckets, empty.
abbrev pub empty_tables : Tables
empty_tables = record { has = λ n. true; get = λ n k. none }

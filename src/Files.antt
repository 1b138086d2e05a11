-- ===== src/Files.antt =====
-- utils/path.go, over the file system and the environment as parameters, and actions on files.
use staking_indexer.Prelude.{
  Bool, true, false, Bytes, [], ◌∷◌, ◌++◌, ◌==◌, if◌then◌else◌, ◌≡◌, refl,
}
use staking_indexer.Prelude.Result.{Error, Result, ok, err, panic, symlink_not_mounted}
use staking_indexer.Config.{Config}

-- The error of `os.Stat`: none, one that `os.IsNotExist` knows, or another.
pub data Stat : Type 0 where
  found : Stat
  not_exist : Stat
  stat_failed : Stat

-- `is_unmounted_link` says of an error
-- of `os.MkdirAll` that it is a path error of a file that exists, whose path is read as a link.
-- `write_ini` and `parse_ini` are `WriteFile` and `ParseFile` of go-flags, `write_file` is that of os.
pub record Files : Type 1 where
  pub State : Type 0
  pub stat : Bytes → State → Stat
  pub mkdir_all : Bytes → State → Result (Unit {0}) × State
  pub is_unmounted_link : Error → State → Bool
  pub open_append : Bytes → State → Result (Unit {0}) × State
  pub write_ini : Config → Bytes → State → Result (Unit {0}) × State
  pub parse_ini : Bytes → State → Result Config
  pub write_file : Bytes → Bytes → State → Result (Unit {0}) × State

-- `filepath.Abs`, `filepath.Clean`, `filepath.Dir`, `os.ExpandEnv`, the home directory of the user,
-- from the user database or else from the environment, and `strings.ToLower`.
pub record Environment : Type 0 where
  pub abs : Bytes → Result Bytes
  pub clean : Bytes → Bytes
  pub dir : Bytes → Bytes
  pub expand_env : Bytes → Bytes
  pub home_dir : Bytes
  pub to_lower : Bytes → Bytes

-- `~` stands for the home directory at the start of a path.
unfoldable pub clean_and_expand_path : Environment → Bytes → Bytes
clean_and_expand_path env [] = []
clean_and_expand_path env (c ∷ rest) =
    if c == b'~'
    then env.clean (env.expand_env (env.home_dir ++ rest))
    else env.clean (env.expand_env (c ∷ rest))

-- A function that reads and writes the state of the files.
abbrev pub FileAct {ℓ} : Type 0 → Type ℓ → Type ℓ
FileAct S A = S → Result A × S

module _ {ℓ} {S : Type 0} {A : Type ℓ} where
  abbrev pub lifted : Result A → FileAct S A
  lifted r s = (r, s)

module _ {ℓ μ} {S : Type 0} {A : Type ℓ} {B : Type μ} where
  abbrev pub go_on : Result A → (A → FileAct S B) → FileAct S B
  go_on (ok a) f s = f a s
  go_on (err e) f s = (err e, s)
  go_on panic f s = (panic, s)

  infixl 5 ◌>>=◌ ◌>>◌
  abbrev pub ◌>>=◌ : FileAct S A → (A → FileAct S B) → FileAct S B
  ◌>>=◌ m f s = let (r, s') = m s in go_on r f s'

  abbrev pub ◌>>◌ : FileAct S A → FileAct S B → FileAct S B
  m >> n = m >>= λ _. n

  -- A success of a chain is a success of its last action, from some state, with a value that the
  -- first one returned.
  pub with_end {κ} :
      (P : S → Type κ) (m : FileAct S A) (f : A → FileAct S B) (s : S) (b : B)
      → ((a : A) (s' : S) → (m s).0 ≡ ok a → (f a s').0 ≡ ok b → P (f a s').1)
      → ((m >>= f) s).0 ≡ ok b
      → P ((m >>= f) s).1
  with_end P m f s b k h = go (m s).0 (m s).1 refl h
    where
      go : (r : Result A) (s' : S) → (m s).0 ≡ r → (go_on r f s').0 ≡ ok b → P (go_on r f s').1
      go (ok a) s' e h' = k a s' e h'
      go (err x) s' e h' = absurd (cc)
      go panic s' e h' = absurd (cc)

  -- The same for a result, which changes no state.
  pub with_lifted {κ} :
      (P : S → Type κ) (r : Result A) (f : A → FileAct S B) (s : S) (b : B)
      → ((a : A) → r ≡ ok a → (f a s).0 ≡ ok b → P (f a s).1)
      → (go_on r f s).0 ≡ ok b
      → P (go_on r f s).1
  with_lifted P (ok a) f s b k h = k a refl h
  with_lifted P (err e) f s b k h = absurd (cc)
  with_lifted P panic f s b k h = absurd (cc)

module _ (fs : Files) where
  abbrev pub file_exists : Bytes → fs.State → Bool
  file_exists name s = elim (fs.stat name s) [
    | found ↦ true
    | not_exist ↦ false
    | stat_failed ↦ true
  ]

  -- The cause of the nicer error is not wrapped.
  abbrev nicer : Result (Unit {0}) × fs.State → Result (Unit {0}) × fs.State
  nicer (ok u, s) = (ok u, s)
  nicer (err e, s) = (if fs.is_unmounted_link e s then err symlink_not_mounted else err e, s)
  nicer (panic, s) = (panic, s)

  unfoldable pub make_directory : Bytes → FileAct fs.State (Unit {0})
  make_directory path s = nicer (fs.mkdir_all path s)

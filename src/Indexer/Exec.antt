-- ===== src/Indexer/Exec.antt =====
-- Methods of the indexer as actions: they read and write the database, push events, and return an
-- error or panic. What was written or pushed before an error stays.
pub mod Steps
pub mod Ensures
pub mod Blind
pub mod Index
use staking_indexer.Prelude.{
  ℕ, zero, Bool, true, false, Bytes, Option, none, some, List, [], ◌∷◌, ◌++◌, get_elem?, length,
  ltb, if◌then◌else◌, ◌-◌,
}
use staking_indexer.Prelude.Result.{Result, ok, err, panic, Error}
use staking_indexer.Indexer.Types.{StakingIndexer, World, Event}

module _ (si : StakingIndexer) where
  abbrev pub Exec : Type 0 → Type 0
  Exec A = World si → Result A × World si

module _ {si : StakingIndexer} {A : Type 0} where
  unfoldable pub pure : A → Exec si A
  pure a w = (ok a, w)

  -- A value, an error or a panic of a function that touches nothing.
  unfoldable pub lift : Result A → Exec si A
  lift r w = (r, w)

  -- A read of the database.
  unfoldable pub reads : (si.store.Db → Result A) → Exec si A
  reads f w = (f w.db, w)

  -- A write of the database.
  unfoldable pub writes : (si.store.Db → Result A × si.store.Db) → Exec si A
  writes f w = let (r, db') = f w.db in (r, record w { db = db' })

module _ {si : StakingIndexer} {A B : Type 0} where
  abbrev pub continue : Result A → (A → Exec si B) → Exec si B
  continue (ok a) f w = f a w
  continue (err e) f w = (err e, w)
  continue panic f w = (panic, w)

  infixl 5 ◌>>=◌ ◌>>◌
  unfoldable pub ◌>>=◌ : Exec si A → (A → Exec si B) → Exec si B
  unfolding pure lift reads writes
  ◌>>=◌ m f w = let (r, w') = m w in continue r f w'

  abbrev pub ◌>>◌ : Exec si A → Exec si B → Exec si B
  m >> n = m >>= λ _. n

module _ {si : StakingIndexer} where
  unfoldable pub push_event : Event → Exec si (Unit {0})
  push_event e w = elim (si.push e w.sent) [
    | none ↦ (ok tt, record w { sent = w.sent ++ e ∷ [] })
    | some er ↦ (err er, w)
  ]

-- `xs[i]`, which panics out of range.
unfoldable pub index {ℓ} : {A : Type ℓ} → List A → ℕ → Result A
index xs i = elim (get_elem? xs i) [ none ↦ panic | some x ↦ ok x ]

-- The script of a witness: the last item but one. Fewer than two items are a panic.
unfoldable pub script_from_witness : List Bytes → Result Bytes
unfolding index
script_from_witness w = if ltb (length w) 2 then panic else index w (length w - 2)

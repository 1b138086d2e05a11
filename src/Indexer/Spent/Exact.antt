-- ===== src/Indexer/Spent/Exact.antt =====
-- The loop over the inputs finds exactly the inputs that spend a stored staking output.
use staking_indexer.Prelude.{
  ℕ, zero, suc, ◌+◌, Bool, true, false, not, Option, none, some, List, [], ◌∷◌, ◌≡◌, ◌↔◌, ◌⊎◌, refl,
  sym, ap, ◌==◌, if◌then◌else◌, arith, inl, inr, Bool-cases, get_elem?,
}
use staking_indexer.Wire.{Hash, MsgTx, TxIn}
use staking_indexer.Store.Record.{StoredStakingTransaction}
use staking_indexer.Indexer.Types.{StakingIndexer}
use staking_indexer.Prelude.{In, In-get_elem?, ◌∙◌}
use staking_indexer.Indexer.Spent.{
  found, add_spent, spent_staking_from, get_spent_staking_txs, get_spent_from_staking_txs,
}

-- The input at `j` spends the staking output of `st`, which `lookup` finds under its hash.
abbrev pub Spends :
    (Hash → Option StoredStakingTransaction) → List TxIn → StoredStakingTransaction → ℕ → Type 0
Spends lookup inputs st j =
    (t : TxIn) × (get_elem? inputs j ≡ some t)
    × (lookup t.previous_out_point.hash ≡ some st)
    × (t.previous_out_point.index ≡ st.staking_output_idx)

module _ (lookup : Hash → Option StoredStakingTransaction) where
  -- What one round adds, or leaves to the later ones.
  add_spent_sound :
      (o : Option StoredStakingTransaction) (t : TxIn) (i j : ℕ) (st : StoredStakingTransaction)
      (later : List (StoredStakingTransaction × ℕ))
      → In (st, j) (add_spent o t i later)
      → ((o ≡ some st) × (t.previous_out_point.index ≡ st.staking_output_idx) × (j ≡ i))
        ⊎ In (st, j) later
  unfolding add_spent
  add_spent_sound none t i j st later h = inr h
  add_spent_sound (some old) t i j st later h =
      go (t.previous_out_point.index == old.staking_output_idx) refl h
    where
      go :
          (b : Bool)
          → (t.previous_out_point.index == old.staking_output_idx) ≡ b
          → In (st, j) (if not b then later else (old, i) ∷ later)
          → ((some old ≡ some st) × (t.previous_out_point.index ≡ st.staking_output_idx) × (j ≡ i))
            ⊎ In (st, j) later
      go true e (inl q) =
          let a : st ≡ old = ap (λ (s : StoredStakingTransaction × ℕ). s.0) q in
          let b : j ≡ i = ap (λ (s : StoredStakingTransaction × ℕ). s.1) q in
          inl (ap some (sym a), rw a (ground (arith, e)), b)
      go true e (inr q) = inr q
      go false e q = inr q

  add_spent-later :
      (o : Option StoredStakingTransaction) (t : TxIn) (i : ℕ) (s : StoredStakingTransaction × ℕ)
      (later : List (StoredStakingTransaction × ℕ))
      → In s later
      → In s (add_spent o t i later)
  unfolding add_spent
  add_spent-later none t i s later h = h
  add_spent-later (some old) t i s later h =
      elim (Bool-cases (t.previous_out_point.index == old.staking_output_idx)) [
        | inl e ↦ rw e (inr h)
        | inr e ↦ rw e h
      ]

  add_spent-here :
      (st : StoredStakingTransaction) (t : TxIn) (i : ℕ)
      (later : List (StoredStakingTransaction × ℕ))
      → t.previous_out_point.index ≡ st.staking_output_idx
      → In (st, i) (add_spent (some st) t i later)
  unfolding add_spent
  add_spent-here st t i later e =
      let q : (t.previous_out_point.index == st.staking_output_idx) ≡ true = ground arith in
      rw q (inl refl)

  spent_from_sound :
      (inputs : List TxIn) (i j : ℕ) (st : StoredStakingTransaction)
      → In (st, j) (spent_staking_from lookup i inputs)
      → (k : ℕ) × (j ≡ i + k) × Spends lookup inputs st k
  unfolding spent_staking_from
  spent_from_sound [] i j st h = elim h [ ]
  spent_from_sound (t ∷ ts) i j st h =
      elim (add_spent_sound (lookup t.previous_out_point.hash) t i j st
        (spent_staking_from lookup (i + 1) ts) h) [
          | inl (e, q, r) ↦ (0, omega arith, (t, refl, e, q))
          | inr l ↦
              let (k, e, s) = spent_from_sound ts (i + 1) j st l in (suc k, omega (arith, e), s)
        ]

  spent_from_complete :
      (inputs : List TxIn) (i k : ℕ) (st : StoredStakingTransaction)
      → Spends lookup inputs st k
      → In (st, i + k) (spent_staking_from lookup i inputs)
  unfolding spent_staking_from
  spent_from_complete [] i k st (t, e, l, q) = cc
  spent_from_complete (t' ∷ ts) i zero st (t, e, l, q) =
      let same : t' ≡ t = cc in
      let l' : lookup t'.previous_out_point.hash ≡ some st = rw same l in
      let q' : t'.previous_out_point.index ≡ st.staking_output_idx = rw same q in
      let n : i + 0 ≡ i = omega arith in
      rw (l', n) (add_spent-here st t' i (spent_staking_from lookup (i + 1) ts) q')
  spent_from_complete (t' ∷ ts) i (suc k) st s =
      let e : i + suc k ≡ i + 1 + k = omega arith in
      rw e (add_spent-later _ t' i _ _ (spent_from_complete ts (i + 1) k st s))

  -- From the first input on.
  spent_from_iff :
      (inputs : List TxIn) (st : StoredStakingTransaction) (j : ℕ)
      → In (st, j) (spent_staking_from lookup 0 inputs) ↔ Spends lookup inputs st j
  spent_from_iff inputs st j = (
    λ h.
        let (k, e, s) = spent_from_sound inputs 0 j st h in
        let q : j ≡ k = omega (arith, e) in rw q s,
    λ s. let q : j ≡ 0 + j = omega arith in rw q (spent_from_complete inputs 0 j st s),
  )

-- A pair of a staking transaction and an index is found for a transaction exactly when its input at
-- the index spends the output of the staking transaction: the database has it under the hash that
-- the input names, and the output's index is the one that the input names.
pub get_spent_staking_txs_iff :
    (si : StakingIndexer) (tx : MsgTx) (db : si.store.Db) (st : StoredStakingTransaction) (j : ℕ)
    → In (st, j) (get_spent_staking_txs si tx db)
      ↔ Spends (λ h. found (si.store.get_staking_transaction h db)) tx.tx_in st j
unfolding get_spent_staking_txs
get_spent_staking_txs_iff si tx db st j =
    spent_from_iff (λ h. found (si.store.get_staking_transaction h db)) tx.tx_in st j

-- The same for the staking transactions of a map.
pub get_spent_from_staking_txs_iff :
    (lookup : Hash → Option StoredStakingTransaction) (tx : MsgTx) (st : StoredStakingTransaction)
    (j : ℕ)
    → In (st, j) (get_spent_from_staking_txs lookup tx) ↔ Spends lookup tx.tx_in st j
unfolding get_spent_from_staking_txs
get_spent_from_staking_txs_iff lookup tx st j = spent_from_iff lookup tx.tx_in st j

-- What is found depends only on the lookups of the hashes that the inputs name.
pub get_spent_staking_txs-cong :
    (si : StakingIndexer) (tx : MsgTx) (s t : si.store.Db) (x : StoredStakingTransaction × ℕ)
    → ((i : TxIn)
        → In i tx.tx_in
        → si.store.get_staking_transaction i.previous_out_point.hash t
          ≡ si.store.get_staking_transaction i.previous_out_point.hash s)
    → In x (get_spent_staking_txs si tx s)
    → In x (get_spent_staking_txs si tx t)
get_spent_staking_txs-cong si tx s t (st, j) same h =
    let (i, e, l, q) = (get_spent_staking_txs_iff si tx s st j).0 h in
    (get_spent_staking_txs_iff si tx t st j).1
      (i, e, ap found (same i (In-get_elem? i tx.tx_in j e)) ∙ l, q)

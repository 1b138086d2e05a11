-- ===== src/Indexer/Tally/Runs.antt =====
-- The loops of `CalculateTvlInUnconfirmedBlocks` make counts only.
use staking_indexer.Prelude.{
  ℕ, ◌+◌, ◌%◌, ℤ, to_u64, Bool, true, false, Option, none, some, List, [], ◌∷◌, In, All, ◌≡◌, refl,
  ◌∙◌, sym, ap, inl, inr, u64_mod, arith, Bool-cases,
}
use staking_indexer.Prelude.Result.{
  Result, ok, err, panic, invalid_unbonding_tx, Error, with_ok, Result-cases,
}
use staking_indexer.Wire.{MsgTx}
use staking_indexer.Wire.Blocks.{Tx, IndexedBlock}
use staking_indexer.Store.Record.{StoredStakingTransaction}
use staking_indexer.Indexer.Types.{StakingIndexer, Params, ParsedStakingTx}
use staking_indexer.Indexer.StartHeight.{get_versioned_params}
use staking_indexer.Indexer.Staking.{try_parse_staking_tx, validate_staking_tx}
use staking_indexer.Indexer.Spending.{is_valid_unbonding_tx}
use staking_indexer.Indexer.Spent.{get_spent_staking_txs, get_spent_from_staking_txs}
use staking_indexer.Indexer.Spent.Exact.{get_spent_staking_txs_iff, get_spent_from_staking_txs_iff}
use staking_indexer.Indexer.Block.{pass_invalid_unbonding}
use staking_indexer.Indexer.Tally.{
  Tally, or_unconfirmed, subtract_unbonded, tally_spend, tally_spends, tally_staking, spent_by,
  tally_tx, tally_txs, tally_blocks, calculate_tvl_in_unconfirmed_blocks,
}
use staking_indexer.Indexer.Process.{stored_staking_tx}
use staking_indexer.Indexer.Tally.Unbonded.{
  Seen, value_if_valid, stored_or_seen, spend_unbonded, spends_unbonded, seen_with, tx_unbonded,
  txs_unbonded, block_unbonded, blocks_unbonded,
}
use staking_indexer.Indexer.Tally.Balance.{
  empty_tally, IsListed, SpendsKnown, Counts, counted, uncounted, no_count, and_count, staked_total,
  unbonded_total, unbonded_total-append_counts, Counts-balance, append_counts,
  staked_total-append_counts, tx_value, txs_value, block_value, blocks_value,
}

abbrev with_tvl : Tally → ℤ → Tally
with_tvl t v = record t { tvl = v }

In-All :
    {P : StoredStakingTransaction × ℕ → Type 0} (ss : List (StoredStakingTransaction × ℕ))
    → ((s : StoredStakingTransaction × ℕ) → In s ss → P s)
    → All P ss
In-All [] f = tt
In-All (s ∷ ss) f = (f s (inl refl), In-All ss (λ x h. f x (inr h)))

module _ (si : StakingIndexer) (db : si.store.Db) (bs : List IndexedBlock) where
  -- A run of counts that adds `n` in all and takes off `k`.
  abbrev pub Run : ℕ → ℕ → Tally → Tally → Type 0
  Run n k t u = (r : Counts si db bs t u) × (staked_total r ≡ n) × (unbonded_total r ≡ k)

  nothing : (t : Tally) → Run 0 0 t t
  nothing t = (no_count, refl, refl)

  Run-trans : (m n k l : ℕ) (t u v : Tally) → Run m k t u → Run n l u v → Run (m + n) (k + l) t v
  Run-trans m n k l t u v (p, e, x) (q, f, y) =
      let g = staked_total-append_counts t u v p q in
      let h = unbonded_total-append_counts t u v p q in
      (append_counts t u v p q, omega (arith, e, f, g), omega (arith, x, y, h))

  Run-as : (m n k l : ℕ) (t u : Tally) → m ≡ n → k ≡ l → Run m k t u → Run n l t u
  Run-as m n k l t u e f (r, x, y) = (r, x ∙ e, y ∙ f)

  verdict-Counts :
      (b : IndexedBlock) (tx : MsgTx) (st : StoredStakingTransaction) (params : Params) (t : Tally)
      (v : ℤ) (r : Result Bool) (verdict : Option Bool)
      → IsListed si db bs b tx
      → SpendsKnown si db tx st t
      → get_versioned_params si st.inclusion_height ≡ ok params
      → is_valid_unbonding_tx si tx st params ≡ r
      → pass_invalid_unbonding r ≡ ok verdict
      → Run 0 (value_if_valid r st) (with_tvl t v) (with_tvl t (subtract_unbonded si verdict st v))
  unfolding subtract_unbonded
  verdict-Counts b tx st params t v (ok true) (some true) l k p q e =
      elim (Bool-cases st.is_overflow) [
        | inl o ↦ rw o (nothing _)
        | inr o ↦
            rw o
              (and_count no_count (uncounted b tx st params l k p q o refl refl), refl, omega arith)
      ]
  verdict-Counts b tx st params t v (ok false) (some false) l k p q e = nothing _
  verdict-Counts b tx st params t v (ok a) none l k p q e = absurd (cc)
  verdict-Counts b tx st params t v (ok true) (some false) l k p q e = absurd (cc)
  verdict-Counts b tx st params t v (ok false) (some true) l k p q e = absurd (cc)
  verdict-Counts b tx st params t v (err invalid_unbonding_tx) none l k p q e = nothing _
  verdict-Counts b tx st params t v (err invalid_unbonding_tx) (some a) l k p q e = absurd (cc)
  verdict-Counts b tx st params t v (err x) verdict l k p q e = absurd (cc)
  verdict-Counts b tx st params t v panic verdict l k p q e = absurd (cc)

  spend_unbonded-eq :
      (tx : MsgTx) (st : StoredStakingTransaction) (params : Params)
      → get_versioned_params si st.inclusion_height ≡ ok params
      → value_if_valid (is_valid_unbonding_tx si tx st params) st ≡ spend_unbonded si db tx st
  spend_unbonded-eq tx st params p = rw (p, spend_unbonded) refl

  spend-Counts :
      (b : IndexedBlock) (tx : MsgTx) (st : StoredStakingTransaction) (t : Tally) (v v' : ℤ)
      → IsListed si db bs b tx
      → SpendsKnown si db tx st t
      → tally_spend si tx st v ≡ ok v'
      → Run 0 (spend_unbonded si db tx st) (with_tvl t v) (with_tvl t v')
  unfolding tally_spend
  spend-Counts b tx st t v v' l k h =
      with_ok (get_versioned_params si st.inclusion_height) _ h λ params p h1.
        with_ok (pass_invalid_unbonding (is_valid_unbonding_tx si tx st params)) _ h1
          λ verdict e h2.
            let q : subtract_unbonded si verdict st v ≡ v' = cc in
            rw (sym q) (
              Run-as 0 0 _ _ _ _ refl (spend_unbonded-eq tx st params p)
                (verdict-Counts b tx st params t v _ verdict l k p refl e))

  spends-Counts :
      (b : IndexedBlock) (tx : MsgTx) (ss : List (StoredStakingTransaction × ℕ)) (t : Tally)
      (v v' : ℤ)
      → IsListed si db bs b tx
      → All (λ s. SpendsKnown si db tx s.0 t) ss
      → tally_spends si tx ss v ≡ ok v'
      → Run 0 (spends_unbonded si db tx ss) (with_tvl t v) (with_tvl t v')
  unfolding tally_spends
  spends-Counts b tx [] t v v' l k h = let q : v ≡ v' = cc in rw q (nothing _)
  spends-Counts b tx (s ∷ ss) t v v' l k h = with_ok (tally_spend si tx s.0 v) _ h λ v1 e h1.
      Run-trans 0 0 (spend_unbonded si db tx s.0) (spends_unbonded si db tx ss) _ (with_tvl t v1) _
        (spend-Counts b tx s.0 t v v1 l k.0 e) (spends-Counts b tx ss t v1 v' l k.1 h1)

  spent_by-known :
      (tx : MsgTx) (t : Tally) → All (λ s. SpendsKnown si db tx s.0 t) (spent_by si tx db t)
  unfolding spent_by
  spent_by-known tx t = go (get_spent_staking_txs si tx db) refl
    where
      go :
          (ss : List (StoredStakingTransaction × ℕ))
          → get_spent_staking_txs si tx db ≡ ss
          → All
              (λ s. SpendsKnown si db tx s.0 t)
              (or_unconfirmed ss (get_spent_from_staking_txs t.staking_txs tx))
      go [] e =
          In-All (get_spent_from_staking_txs t.staking_txs tx)
            (λ s h. (s.1, inr ((get_spent_from_staking_txs_iff t.staking_txs tx s.0 s.1).0 h)))
      go (x ∷ ss) e =
          In-All (x ∷ ss)
            (λ s h. (s.1, inl ((get_spent_staking_txs_iff si tx db s.0 s.1).0 (rw e h))))

  tx_value-valid :
      (tx : MsgTx) (params : Params) (d : ParsedStakingTx) (u : Unit {0})
      → try_parse_staking_tx si tx params ≡ ok d
      → validate_staking_tx params d ≡ ok u
      → tx_value si params tx ≡ to_u64 d.staking_output.value
  tx_value-valid tx params d u e f = rw (e, f, tx_value) refl

  tx_value-invalid :
      (tx : MsgTx) (params : Params) (d : ParsedStakingTx) (x : Error)
      → try_parse_staking_tx si tx params ≡ ok d
      → validate_staking_tx params d ≡ err x
      → tx_value si params tx ≡ 0
  tx_value-invalid tx params d x e f = rw (e, f, tx_value) refl

  tx_value-unparsed :
      (tx : MsgTx) (params : Params) (x : Error)
      → try_parse_staking_tx si tx params ≡ err x
      → tx_value si params tx ≡ 0
  tx_value-unparsed tx params x e = rw (e, tx_value) refl

  stored_or_seen-eq :
      (ss uu : List (StoredStakingTransaction × ℕ)) → or_unconfirmed ss uu ≡ stored_or_seen ss uu
  stored_or_seen-eq [] uu = refl
  stored_or_seen-eq (s ∷ ss) uu = refl

  -- A run of a transaction, with the staking transactions that are known after it.
  abbrev Step : ℕ → ℕ × Seen → Tally → Tally → Type 0
  Step n p t u = Run n p.0 t u × (u.staking_txs ≡ p.1)

  Step-as : (m n : ℕ) (p q : ℕ × Seen) (t u : Tally) → m ≡ n → p ≡ q → Step m p t u → Step n q t u
  Step-as m n p q t u e f (r, g) =
      (Run-as m n p.0 q.0 t u e (ap (λ x. x.0) f) r, g ∙ ap (λ x. x.1) f)

  tx_unbonded-valid :
      (height : ℕ) (tx : MsgTx) (params : Params) (seen : Seen) (d : ParsedStakingTx) (u : Unit {0})
      → try_parse_staking_tx si tx params ≡ ok d
      → validate_staking_tx params d ≡ ok u
      → (0, seen_with si db tx d height seen) ≡ tx_unbonded si db height params tx seen
  tx_unbonded-valid height tx params seen d u e f = rw (e, f, tx_unbonded) refl

  tx_unbonded-invalid :
      (height : ℕ) (tx : MsgTx) (params : Params) (seen : Seen) (d : ParsedStakingTx) (x : Error)
      → try_parse_staking_tx si tx params ≡ ok d
      → validate_staking_tx params d ≡ err x
      → (0, seen) ≡ tx_unbonded si db height params tx seen
  tx_unbonded-invalid height tx params seen d x e f = rw (e, f, tx_unbonded) refl

  tx_unbonded-unparsed :
      (height : ℕ) (tx : MsgTx) (params : Params) (t : Tally) (x : Error)
      → try_parse_staking_tx si tx params ≡ err x
      → (spends_unbonded si db tx (spent_by si tx db t), t.staking_txs)
        ≡ tx_unbonded si db height params tx t.staking_txs
  unfolding spent_by
  tx_unbonded-unparsed height tx params t x e =
      rw
        (
          stored_or_seen-eq (get_spent_staking_txs si tx db)
              (get_spent_from_staking_txs t.staking_txs tx),
          e,
          tx_unbonded,
        )
        refl

  tx-Counts :
      (b : IndexedBlock) (tx : MsgTx) (params : Params) (t u : Tally)
      → IsListed si db bs b tx
      → get_versioned_params si (to_u64 b.height) ≡ ok params
      → tally_tx si db (to_u64 b.height) params tx t ≡ ok u
      → Step
          (tx_value si params tx)
          (tx_unbonded si db (to_u64 b.height) params tx t.staking_txs)
          t
          u
  unfolding tally_tx tally_staking stored_staking_tx
  tx-Counts b tx params t u l p h = elim (Result-cases (try_parse_staking_tx si tx params)) [
    | inl (d, e) ↦ elim (Result-cases (validate_staking_tx params d)) [
      | inl (x, f) ↦
          let q : tally_staking si tx d (to_u64 b.height) t ≡ u = cc (rw (e, f, tally_tx) at h) in
          rw (sym q) (
            Step-as _ _ _ _ t _ (sym (tx_value-valid tx params d x e f))
              (tx_unbonded-valid (to_u64 b.height) tx params t.staking_txs d x e f)
              (
                (and_count no_count (counted b tx d params l p e f refl refl), omega arith, refl),
                refl,
              ))
      | inr (inl (x, f)) ↦
          let q : t ≡ u = cc (rw (e, f, tally_tx) at h) in
          rw (sym q) (
            Step-as 0 _ _ _ t t (sym (tx_value-invalid tx params d x e f))
              (tx_unbonded-invalid (to_u64 b.height) tx params t.staking_txs d x e f)
              (nothing _, refl))
      | inr (inr f) ↦ absurd (cc (rw (e, f, tally_tx) at h))
    ]
    | inr (inl (x, e)) ↦
        with_ok (tally_spends si tx (spent_by si tx db t) t.tvl) _ (rw (e, tally_tx) at h) λ v f h1.
          let q : with_tvl t v ≡ u = cc in
          rw (sym q) (
            Step-as 0 _ _ _ _ _ (sym (tx_value-unparsed tx params x e))
              (tx_unbonded-unparsed (to_u64 b.height) tx params t x e)
              (spends-Counts b tx (spent_by si tx db t) t t.tvl v l (spent_by-known tx t) f, refl))
    | inr (inr e) ↦ absurd (cc (rw (e, tally_tx) at h))
  ]

  txs-Counts :
      (b : IndexedBlock) (params : Params) (txs : List Tx) (t u : Tally)
      → In b bs
      → ((x : Tx) → In x txs → In x b.txs)
      → get_versioned_params si (to_u64 b.height) ≡ ok params
      → tally_txs si db (to_u64 b.height) params txs t ≡ ok u
      → Step
          (txs_value si params txs)
          (txs_unbonded si db (to_u64 b.height) params txs t.staking_txs)
          t
          u
  unfolding tally_txs
  txs-Counts b params [] t u l sub p h = let q : t ≡ u = cc in rw q (nothing _, refl)
  txs-Counts b params (x ∷ txs) t u l sub p h =
      with_ok (tally_tx si db (to_u64 b.height) params x.msg_tx t) _ h λ v e h1.
        let (r, f) =
          tx-Counts b x.msg_tx params t v
            (record { block = l; wrapped = x; listed = sub x (inl refl); same = refl }) p e in
        let (r', g) =
          Step-as _ (txs_value si params txs) _ _ v u refl
            (ap (txs_unbonded si db (to_u64 b.height) params txs) f)
            (txs-Counts b params txs v u l (λ y i. sub y (inr i)) p h1) in
        (Run-trans (tx_value si params x.msg_tx) (txs_value si params txs) _ _ t v u r r', g)

  blocks-Counts :
      (rest : List IndexedBlock) (t u : Tally)
      → ((b : IndexedBlock) → In b rest → In b bs)
      → tally_blocks si db rest t ≡ ok u
      → Run (blocks_value si rest) (blocks_unbonded si db rest t.staking_txs) t u
  unfolding tally_blocks
  blocks-Counts [] t u sub h = let q : t ≡ u = cc in rw q (nothing _)
  blocks-Counts (b ∷ rest) t u sub h =
      with_ok (get_versioned_params si (to_u64 b.height)) _ h λ params p h1.
        with_ok (tally_txs si db (to_u64 b.height) params b.txs t) _ h1 λ v e h2.
          let (r, f) =
            Step-as _ (block_value si b) _ (block_unbonded si db b t.staking_txs) t v
              (rw (p, block_value) refl) (rw (p, block_unbonded) refl)
              (txs-Counts b params b.txs t v (sub b (inl refl)) (λ x i. i) p e) in
          let r' =
            Run-as _ (blocks_value si rest) _ _ v u refl (ap (blocks_unbonded si db rest) f)
              (blocks-Counts rest v u (λ y i. sub y (inr i)) h2) in
          Run-trans (block_value si b) (blocks_value si rest) _ _ t v u r r'

-- The TVL that is calculated for unconfirmed blocks is the sum of a run of counts, modulo 2 ^ 64:
-- each count adds the value of a staking transaction of the blocks that parses and is valid under the
-- parameters of its height, or takes off the value of a staking transaction, of the database or
-- counted before and no overflow, that a valid unbonding transaction of the blocks spends. What is
-- added is, in all, the sum of the values of the transactions of the blocks that parse and are valid,
-- and what is taken off is the sum of the values of all that the other transactions validly unbond: of
-- the staking transactions of the database that each spends, or, if it spends none of them, of those
-- of the blocks before it.
pub calculate_tvl-Counts :
    (si : StakingIndexer) (db : si.store.Db) (bs : List IndexedBlock) (tvl : ℤ)
    → calculate_tvl_in_unconfirmed_blocks si bs db ≡ ok tvl
    → (t : Tally) × (r : Counts si db bs empty_tally t) × (t.tvl ≡ tvl)
      × (staked_total r ≡ blocks_value si bs)
      × (unbonded_total r ≡ blocks_unbonded si db bs (λ h. none))
      × ((to_u64 tvl + blocks_unbonded si db bs (λ h. none)) % u64_mod
          ≡ blocks_value si bs % u64_mod)
unfolding calculate_tvl_in_unconfirmed_blocks to_u64
calculate_tvl-Counts si db bs tvl h = with_ok (tally_blocks si db bs empty_tally) _ h λ t e h1.
    let (r, all, gone) = blocks-Counts si db bs bs empty_tally t (λ b i. i) e in
    let q : t.tvl ≡ tvl = cc in
    let b = Counts-balance empty_tally t r in
    (t, r, q, all, gone, rw (sym q, sym all, sym gone) (omega (arith, b)))

-- ===== src/Indexer/Tally/Balance.antt =====
-- What the tally counts: each staking transaction that is valid, and each valid unbonding of one that
-- is no overflow, with the reason for which it is counted.
use staking_indexer.Prelude.{
  [], ◌∷◌, ℕ, ◌+◌, ◌%◌, pos, ◌+ℤ◌, ◌-ℤ◌, to_u64, to_i64, wrap_i64, true, false, none, List, In, ◌≡◌,
  ◌⊎◌, refl, u64_mod, arith,
}
use staking_indexer.Prelude.Result.{err, panic, ok}
use staking_indexer.Wire.{MsgTx}
use staking_indexer.Wire.Blocks.{Tx, IndexedBlock}
use staking_indexer.Store.Record.{StoredStakingTransaction}
use staking_indexer.Indexer.Types.{StakingIndexer, Params, ParsedStakingTx}
use staking_indexer.Indexer.StartHeight.{get_versioned_params}
use staking_indexer.Indexer.Staking.{try_parse_staking_tx, validate_staking_tx}
use staking_indexer.Indexer.Spending.{is_valid_unbonding_tx}
use staking_indexer.Indexer.Spent.{found}
use staking_indexer.Indexer.Spent.Exact.{Spends}
use staking_indexer.Indexer.Process.{stored_staking_tx}
use staking_indexer.Indexer.Tally.{Tally, put}
use staking_indexer.Indexer.Tally.Words.{wrap_add, wrap_sub}

abbrev pub empty_tally : Tally
empty_tally = record { tvl = pos 0; staking_txs = λ h. none }

module _ (si : StakingIndexer) (db : si.store.Db) where
  -- The transaction is one of a block of the list.
  pub record IsListed (bs : List IndexedBlock) (b : IndexedBlock) (tx : MsgTx) : Type 0 where
    pub block : In b bs
    pub wrapped : Tx
    pub listed : In wrapped b.txs
    pub same : wrapped.msg_tx ≡ tx

  -- An input of the transaction spends the staking output of `st`, a staking transaction of the
  -- database or one that was counted before.
  abbrev pub SpendsKnown : MsgTx → StoredStakingTransaction → Tally → Type 0
  SpendsKnown tx st t =
      (i : ℕ) × (Spends (λ h. found (si.store.get_staking_transaction h db)) tx.tx_in st i
        ⊎ Spends t.staking_txs tx.tx_in st i)

  -- One count, for a list of blocks.
  pub data Count (bs : List IndexedBlock) (t u : Tally) : Type 0 where
    counted :
        (b : IndexedBlock) (tx : MsgTx) (d : ParsedStakingTx) (params : Params)
        → IsListed bs b tx
        → get_versioned_params si (to_u64 b.height) ≡ ok params
        → try_parse_staking_tx si tx params ≡ ok d
        → validate_staking_tx params d ≡ ok tt
        → u.tvl ≡ wrap_i64 (t.tvl +ℤ d.staking_output.value)
        → u.staking_txs
          ≡ put
              (si.codec.tx_hash tx)
              (stored_staking_tx si tx d (to_u64 b.height) false)
              t.staking_txs
        → Count bs t u
    uncounted :
        (b : IndexedBlock) (tx : MsgTx) (st : StoredStakingTransaction) (params : Params)
        → IsListed bs b tx
        → SpendsKnown tx st t
        → get_versioned_params si st.inclusion_height ≡ ok params
        → is_valid_unbonding_tx si tx st params ≡ ok true
        → st.is_overflow ≡ false
        → u.tvl ≡ wrap_i64 (t.tvl -ℤ to_i64 st.staking_value)
        → u.staking_txs ≡ t.staking_txs
        → Count bs t u

  pub data Counts (bs : List IndexedBlock) (t : Tally) : Tally → Type 0 where
    no_count : Counts bs t t
    and_count : {u v : Tally} → Counts bs t u → Count bs u v → Counts bs t v

module _ {si : StakingIndexer} {db : si.store.Db} {bs : List IndexedBlock} where
  abbrev pub count_staked : {t u : Tally} → Count si db bs t u → ℕ
  count_staked (counted b tx d params l v p ok' e m) = to_u64 d.staking_output.value
  count_staked (uncounted b tx st params l k v p o e m) = 0

  abbrev pub count_unbonded : {t u : Tally} → Count si db bs t u → ℕ
  count_unbonded (counted b tx d params l v p ok' e m) = 0
  count_unbonded (uncounted b tx st params l k v p o e m) = st.staking_value

  -- The values that were counted, and those that were taken off.
  abbrev pub staked_total : {t u : Tally} → Counts si db bs t u → ℕ
  staked_total no_count = 0
  staked_total (and_count r s) = staked_total r + count_staked s

  abbrev pub unbonded_total : {t u : Tally} → Counts si db bs t u → ℕ
  unbonded_total no_count = 0
  unbonded_total (and_count r s) = unbonded_total r + count_unbonded s

  pub Count-balance :
      (t u : Tally) (s : Count si db bs t u)
      → (to_u64 u.tvl + count_unbonded s) % u64_mod ≡ (to_u64 t.tvl + count_staked s) % u64_mod
  Count-balance t u (counted b tx d params l v p ok' e m) =
      let w = wrap_add t.tvl d.staking_output.value in rw e (omega (arith, w))
  Count-balance t u (uncounted b tx st params l k v p o e m) =
      let w = wrap_sub t.tvl st.staking_value in rw e (omega (arith, w))

  pub Counts-balance :
      (t u : Tally) (r : Counts si db bs t u)
      → (to_u64 u.tvl + unbonded_total r) % u64_mod ≡ (to_u64 t.tvl + staked_total r) % u64_mod
  Counts-balance t u no_count = refl
  Counts-balance t u (and_count {u = v} r s) =
      let a = Counts-balance t v r in let b = Count-balance v u s in omega (arith, a, b)

  pub append_counts :
      (t u v : Tally) → Counts si db bs t u → Counts si db bs u v → Counts si db bs t v
  append_counts t u v p no_count = p
  append_counts t u v p (and_count q s) = and_count (append_counts t u _ p q) s

  pub staked_total-append_counts :
      (t u v : Tally) (p : Counts si db bs t u) (q : Counts si db bs u v)
      → staked_total (append_counts t u v p q) ≡ staked_total p + staked_total q
  unfolding append_counts
  staked_total-append_counts t u v p no_count = omega arith
  staked_total-append_counts t u v p (and_count {u = x} q s) =
      let e = staked_total-append_counts t u x p q in omega (arith, e)

  pub unbonded_total-append_counts :
      (t u v : Tally) (p : Counts si db bs t u) (q : Counts si db bs u v)
      → unbonded_total (append_counts t u v p q) ≡ unbonded_total p + unbonded_total q
  unfolding append_counts
  unbonded_total-append_counts t u v p no_count = omega arith
  unbonded_total-append_counts t u v p (and_count {u = x} q s) =
      let e = unbonded_total-append_counts t u x p q in omega (arith, e)

-- What the blocks stake, by a description of its own: the values of the transactions that parse and are
-- valid under the parameters of their height.
module _ (si : StakingIndexer) where
  abbrev pub tx_value : Params → MsgTx → ℕ
  tx_value params tx = elim (try_parse_staking_tx si tx params) [
    | ok d ↦ elim (validate_staking_tx params d) [
      | ok u ↦ to_u64 d.staking_output.value
      | err e ↦ 0
      | panic ↦ 0
    ]
    | err e ↦ 0
    | panic ↦ 0
  ]

  abbrev pub txs_value : Params → List Tx → ℕ
  txs_value params [] = 0
  txs_value params (x ∷ xs) = tx_value params x.msg_tx + txs_value params xs

  abbrev pub block_value : IndexedBlock → ℕ
  block_value b = elim (get_versioned_params si (to_u64 b.height)) [
    | ok params ↦ txs_value params b.txs
    | err e ↦ 0
    | panic ↦ 0
  ]

  abbrev pub blocks_value : List IndexedBlock → ℕ
  blocks_value [] = 0
  blocks_value (b ∷ bs) = block_value b + blocks_value bs

-- ===== src/Store/Interface.antt =====
-- What the indexer uses of the store: the operations of `IndexerStore`, and what each call that
-- succeeds or fails does to what the others return.
use staking_indexer.Prelude.{
  ℕ, ◌+◌, ◌-◌, ◌%◌, ◌≤◌, ◌<◌, ◌≡◌, ◌≢◌, true, false, Option, none, some, length, u64_mod,
}
use staking_indexer.Prelude.Result.{Result, ok, err, duplicate_transaction}
use staking_indexer.Wire.{Hash, MsgTx, Codec, IsXOnly}
use staking_indexer.Store.Record.{StoredStakingTransaction, StoredUnbondingTransaction}

pub record IndexerStore : Type 1 where
  pub Db : Type 0
  pub add_staking_transaction : StoredStakingTransaction → Db → Result (Unit {0}) × Db
  pub get_staking_transaction : Hash → Db → Result (Option StoredStakingTransaction)
  pub add_unbonding_transaction : MsgTx → Hash → Db → Result (Unit {0}) × Db
  pub get_unbonding_transaction : Hash → Db → Result (Option StoredUnbondingTransaction)
  pub get_confirmed_tvl : Db → Result ℕ
  pub save_last_processed_height : ℕ → Db → Result (Unit {0}) × Db
  pub get_last_processed_height : Db → Result ℕ

module _ (c : Codec) (is : IndexerStore) where
  -- A staking transaction was added: it was not there, it is read back, and it counts for the TVL
  -- unless it is an overflow.
  pub record AddedStaking (st : StoredStakingTransaction) (s t : is.Db) : Type 0 where
    pub was_absent : is.get_staking_transaction (c.tx_hash st.tx) s ≡ ok none
    pub added :
        IsXOnly c st.staker_pk
        → IsXOnly c st.finality_provider_pk
        → is.get_staking_transaction (c.tx_hash st.tx) t ≡ ok (some st)
    pub others :
        (h : Hash)
        → c.tx_hash st.tx ≢ h
        → is.get_staking_transaction h t ≡ is.get_staking_transaction h s
    pub unbonding : (h : Hash) → is.get_unbonding_transaction h t ≡ is.get_unbonding_transaction h s
    pub height : is.get_last_processed_height t ≡ is.get_last_processed_height s
    pub tvl_overflow : st.is_overflow ≡ true → is.get_confirmed_tvl t ≡ is.get_confirmed_tvl s
    pub tvl_active :
        st.is_overflow ≡ false
        → (w : ℕ) × (is.get_confirmed_tvl s ≡ ok w)
          × (is.get_confirmed_tvl t ≡ ok ((w + st.staking_value) % u64_mod))

  -- An unbonding transaction was added: its staking transaction is known, and its value leaves the
  -- TVL unless it is an overflow.
  pub record AddedUnbonding (tx : MsgTx) (staking_hash : Hash) (s t : is.Db) : Type 0 where
    pub known : is.get_staking_transaction staking_hash s ≢ ok none
    pub was_absent : is.get_unbonding_transaction (c.tx_hash tx) s ≡ ok none
    pub added :
        length staking_hash ≡ 32
        → is.get_unbonding_transaction (c.tx_hash tx) t
          ≡ ok (some (record { tx = tx; staking_tx_hash = staking_hash }))
    pub others :
        (h : Hash)
        → c.tx_hash tx ≢ h
        → is.get_unbonding_transaction h t ≡ is.get_unbonding_transaction h s
    pub staking : (h : Hash) → is.get_staking_transaction h t ≡ is.get_staking_transaction h s
    pub height : is.get_last_processed_height t ≡ is.get_last_processed_height s
    pub tvl_overflow :
        (st : StoredStakingTransaction)
        → is.get_staking_transaction staking_hash s ≡ ok (some st)
        → st.is_overflow ≡ true
        → is.get_confirmed_tvl t ≡ is.get_confirmed_tvl s
    pub tvl_active :
        (st : StoredStakingTransaction)
        → is.get_staking_transaction staking_hash s ≡ ok (some st)
        → st.is_overflow ≡ false
        → (w : ℕ) × (is.get_confirmed_tvl s ≡ ok w)
          × (st.staking_value ≤ w)
          × (is.get_confirmed_tvl t ≡ ok (w - st.staking_value))

  -- The height was saved, and nothing else changed.
  pub record SavedHeight (height : ℕ) (s t : is.Db) : Type 0 where
    pub saved : height < u64_mod → is.get_last_processed_height t ≡ ok height
    pub staking : (h : Hash) → is.get_staking_transaction h t ≡ is.get_staking_transaction h s
    pub unbonding : (h : Hash) → is.get_unbonding_transaction h t ≡ is.get_unbonding_transaction h s
    pub tvl : is.get_confirmed_tvl t ≡ is.get_confirmed_tvl s

  pub record IndexerStoreLaws : Type 0 where
    pub add_staking_ok :
        (st : StoredStakingTransaction) (s t : is.Db)
        → is.add_staking_transaction st s ≡ (ok tt, t)
        → AddedStaking st s t
    pub add_staking_failed :
        (st : StoredStakingTransaction) (s : is.Db)
        → (is.add_staking_transaction st s).0 ≢ ok tt
        → (is.add_staking_transaction st s).1 ≡ s
    pub add_unbonding_ok :
        (tx : MsgTx) (staking_hash : Hash) (s t : is.Db)
        → is.add_unbonding_transaction tx staking_hash s ≡ (ok tt, t)
        → AddedUnbonding tx staking_hash s t
    pub add_unbonding_failed :
        (tx : MsgTx) (staking_hash : Hash) (s : is.Db)
        → (is.add_unbonding_transaction tx staking_hash s).0 ≢ ok tt
        → (is.add_unbonding_transaction tx staking_hash s).1 ≡ s
    pub save_height_ok :
        (height : ℕ) (s t : is.Db)
        → is.save_last_processed_height height s ≡ (ok tt, t)
        → SavedHeight height s t
    pub save_height_failed :
        (height : ℕ) (s : is.Db)
        → (is.save_last_processed_height height s).0 ≢ ok tt
        → (is.save_last_processed_height height s).1 ≡ s

-- A duplicate is reported only where a record is bound.
pub record ReportsDuplicates (c : Codec) (is : IndexerStore) : Type 0 where
  pub staking :
      (st : StoredStakingTransaction) (s : is.Db)
      → (is.add_staking_transaction st s).0 ≡ err duplicate_transaction
      → is.get_staking_transaction (c.tx_hash st.tx) s ≢ ok none
  pub unbonding :
      (tx : MsgTx) (staking_hash : Hash) (s : is.Db)
      → (is.add_unbonding_transaction tx staking_hash s).0 ≡ err duplicate_transaction
      → is.get_unbonding_transaction (c.tx_hash tx) s ≢ ok none

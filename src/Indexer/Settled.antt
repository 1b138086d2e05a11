-- ===== src/Indexer/Settled.antt =====
-- Blocks that are handled again, as after a restart from an earlier height: the order of their
-- transactions, what the database has of a transaction that was handled, and when two databases have
-- the same records.
pub mod Leaves
pub mod Frame
pub mod Calls
pub mod First
pub mod Blocks
pub mod Again
use staking_indexer.Prelude.{ℕ, true, none, List, [], ◌∷◌, ◌≡◌, ◌≢◌, ◌∙◌, refl, to_u64, In}
use staking_indexer.Prelude.Result.{ok}
use staking_indexer.Wire.{Hash, MsgTx, TxIn}
use staking_indexer.Wire.Blocks.{Tx, IndexedBlock}
use staking_indexer.Store.Record.{StoredStakingTransaction}
use staking_indexer.Indexer.Types.{StakingIndexer, World, Params, ParsedStakingTx}
use staking_indexer.Indexer.StartHeight.{get_versioned_params}
use staking_indexer.Indexer.Staking.{try_parse_staking_tx, validate_staking_tx}
use staking_indexer.Indexer.Spending.{is_valid_unbonding_tx}
use staking_indexer.Indexer.Spent.{get_spent_staking_txs}

module _ (si : StakingIndexer) where
  -- No input of the transaction names the other one.
  abbrev pub Apart : MsgTx → MsgTx → Type 0
  Apart tx other = (t : TxIn) → In t tx.tx_in → si.codec.tx_hash other ≢ t.previous_out_point.hash

  -- No transaction names itself or a later one, as a hash cannot.
  abbrev pub TxsOrdered : List Tx → List IndexedBlock → Type 0
  TxsOrdered [] later = Unit
  TxsOrdered (x ∷ xs) later =
      Apart x.msg_tx x.msg_tx
      × ((y : Tx) → In y xs → Apart x.msg_tx y.msg_tx)
      × ((b : IndexedBlock) → In b later → (y : Tx) → In y b.txs → Apart x.msg_tx y.msg_tx)
      × TxsOrdered xs later

  abbrev pub IsOrdered : List IndexedBlock → Type 0
  IsOrdered [] = Unit
  IsOrdered (b ∷ bs) = TxsOrdered b.txs bs × IsOrdered bs

  -- Every record and the TVL read the same; the last processed height may differ.
  pub record SameRecords (s t : si.store.Db) : Type 0 where
    pub staking :
        (h : Hash) → si.store.get_staking_transaction h t ≡ si.store.get_staking_transaction h s
    pub unbonding :
        (h : Hash) → si.store.get_unbonding_transaction h t ≡ si.store.get_unbonding_transaction h s
    pub tvl : si.store.get_confirmed_tvl t ≡ si.store.get_confirmed_tvl s

  -- The database has a record of the transaction if it is a valid staking transaction, and if it is a
  -- valid unbonding transaction of a stored staking transaction.
  pub record Settled (tx : MsgTx) (params : Params) (db : si.store.Db) : Type 0 where
    pub staking :
        (d : ParsedStakingTx)
        → try_parse_staking_tx si tx params ≡ ok d
        → validate_staking_tx params d ≡ ok tt
        → si.store.get_staking_transaction (si.codec.tx_hash tx) db ≢ ok none
    pub unbonding :
        (s : StoredStakingTransaction × ℕ) (old : Params)
        → In s (get_spent_staking_txs si tx db)
        → get_versioned_params si s.0.inclusion_height ≡ ok old
        → is_valid_unbonding_tx si tx s.0 old ≡ ok true
        → si.store.get_unbonding_transaction (si.codec.tx_hash tx) db ≢ ok none

  -- All transactions of the blocks, under the parameters of their heights.
  abbrev pub AreSettled : List IndexedBlock → si.store.Db → Type 0
  AreSettled bs db =
      (b : IndexedBlock) (params : Params) (t : Tx)
      → In b bs
      → get_versioned_params si (to_u64 b.height) ≡ ok params
      → In t b.txs
      → Settled t.msg_tx params db

module _ {si : StakingIndexer} where
  pub SameRecords-refl : (s : si.store.Db) → SameRecords si s s
  SameRecords-refl s = record { staking = λ h. refl; unbonding = λ h. refl; tvl = refl }

  pub SameRecords-trans :
      (s t u : si.store.Db) → SameRecords si s t → SameRecords si t u → SameRecords si s u
  SameRecords-trans s t u p q = record {
    staking = λ h. q.staking h ∙ p.staking h;
    unbonding = λ h. q.unbonding h ∙ p.unbonding h;
    tvl = q.tvl ∙ p.tvl;
  }

-- ===== src/Indexer/Ledger/Laws.antt =====
-- What the indexer relies on: the laws of the store, and that a staking transaction is parsed into
-- x-only keys, as its OP_RETURN data carries 32 bytes
-- for each, and that a hash has 32 bytes.
use staking_indexer.Prelude.{ℕ, Bytes, List, ◌≡◌, length}
use staking_indexer.Prelude.Result.{ok}
use staking_indexer.Wire.{MsgTx, PublicKey, IsXOnly}
use staking_indexer.Store.Interface.{IndexerStoreLaws}
use staking_indexer.Indexer.Types.{StakingIndexer, ParsedStakingTx}

pub record IndexerLaws (si : StakingIndexer) : Type 0 where
  pub store : IndexerStoreLaws si.codec si.store
  pub parsed_keys :
      (tx : MsgTx) (tag : Bytes) (pks : List PublicKey) (quorum : ℕ) (d : ParsedStakingTx)
      → si.btc.parse_v0_staking_tx tx tag pks quorum ≡ ok d
      → IsXOnly si.codec d.staker_public_key × IsXOnly si.codec d.finality_provider_public_key
  pub hash_length : (tx : MsgTx) → length (si.codec.tx_hash tx) ≡ 32

-- ===== src/Tests/Node.antt =====
-- A node with one version of the parameters: a cap of 1000, a maximal amount of 500, a fee of 10. A
-- transaction without an input stakes, and any other is a transfer.
use staking_indexer.Prelude.{ℕ, pos, true, false, none, some, List, [], ◌∷◌, ◌≡◌, refl, sym}
use staking_indexer.Prelude.Result.{Result, ok, err, external}
use staking_indexer.Wire.{MsgTx, TxIn, TxOut, PublicKey, IsXOnly}
use staking_indexer.Wire.Blocks.{IndexedBlock, new_indexed_block_from_msg_block}
use staking_indexer.Store.Implements.{kv_store-IndexerStoreLaws}
use staking_indexer.Store.Implements.Instance.{kv_store}
use staking_indexer.Store.Record.{StoredStakingTransaction}
use staking_indexer.Indexer.Types.{StakingIndexer, World, Params, ParsedStakingTx, BtcStaking}
use staking_indexer.Indexer.Ledger.Laws.{IndexerLaws}
use staking_indexer.Tests.Codec.{
  sample_codec, sample_proto, sample_codec-CodecLaws, sample_proto-ProtoLaws, sample_in, sample_tx,
}
use staking_indexer.Tests.Db.{sample_db, sample_db-KvdbLaws, empty_tables}

abbrev pub sample_params : Params
sample_params = record {
  activation_height = 100;
  staking_cap = pos 1000;
  cap_height = 0;
  tag = [];
  covenant_pks = [];
  covenant_quorum = 1;
  unbonding_time = 5;
  unbonding_fee = pos 10;
  max_staking_amount = pos 500;
  min_staking_amount = pos 1;
  max_staking_time = 1000;
  min_staking_time = 1;
}

abbrev pub sample_key : ℕ → PublicKey
sample_key x = record { x = x; y = 0 }

abbrev pub sample_parsed : TxOut → ParsedStakingTx
sample_parsed out = record {
  staking_output = out;
  staking_output_idx = 0;
  staker_public_key = sample_key 1;
  finality_provider_public_key = sample_key 2;
  staking_time = 20;
}

abbrev parse_parts : List TxIn → List TxOut → Result ParsedStakingTx
parse_parts [] (out ∷ outs) = ok (sample_parsed out)
parse_parts _ _ = err (external 7)

abbrev pub sample_btc : BtcStaking
sample_btc = record {
  is_possible_v0_staking_tx = λ tx tag. true;
  parse_v0_staking_tx = λ tx tag pks quorum. parse_parts tx.tx_in tx.tx_out;
  is_transfer_tx = λ tx. true;
  build_staking_info = λ r. ok (record { time_lock_path = ok (7 ∷ []); unbonding_path = ok [] });
  build_unbonding_info = λ r. ok (record {
    unbonding_output = record { value = r.amount; pk_script = [] };
    time_lock_path = ok [];
  });
}

abbrev pub sample_node : StakingIndexer
sample_node = record {
  store = kv_store sample_db sample_codec sample_proto;
  codec = sample_codec;
  btc = sample_btc;
  params_by_height = λ h. some sample_params;
  first_activation_height = 100;
  extra_event_enabled = true;
  push = λ e sent. none;
}

parse-keys :
    (ins : List TxIn) (outs : List TxOut) (d : ParsedStakingTx)
    → parse_parts ins outs ≡ ok d
    → IsXOnly sample_codec d.staker_public_key × IsXOnly sample_codec d.finality_provider_public_key
parse-keys [] (out ∷ outs) d h =
    let e : sample_parsed out ≡ d = cc in rw (sym e) ((1 ∷ [], refl), (2 ∷ [], refl))
parse-keys _ _ d h = cc

pub sample_node-IndexerLaws : IndexerLaws sample_node
sample_node-IndexerLaws = record {
  store =
      kv_store-IndexerStoreLaws sample_db-KvdbLaws sample_codec-CodecLaws sample_proto-ProtoLaws;
  parsed_keys = λ tx tag pks quorum d h. parse-keys tx.tx_in tx.tx_out d h;
  hash_length = λ tx. refl;
}

abbrev pub empty_world : World sample_node
empty_world = record { db = empty_tables; sent = [] }

-- Stakes 300, with the lock time 1 as the identity; unbonds it for the 290 that the fee leaves; and
-- withdraws the unbonding output.
abbrev pub staking_tx : MsgTx
staking_tx = sample_tx 2 300 1 []

abbrev pub unbonding_tx : MsgTx
unbonding_tx = sample_tx 2 290 0 (sample_in (sample_codec.tx_hash staking_tx) 0 0xffffffff ∷ [])

abbrev pub withdrawal_tx : MsgTx
withdrawal_tx = sample_tx 2 280 3 (sample_in (sample_codec.tx_hash unbonding_tx) 0 0xffffffff ∷ [])

abbrev pub sample_block : ℕ → List MsgTx → IndexedBlock
sample_block height txs = new_indexed_block_from_msg_block (pos height) (record {
  header = record {
    version = pos 1;
    prev_block = [];
    merkle_root = [];
    timestamp = pos 1700000000;
    bits = 0;
    nonce = height;
  };
  transactions = txs;
})

abbrev pub sample_blocks : List IndexedBlock
sample_blocks =
    sample_block 100 (staking_tx ∷ []) ∷ sample_block 101 (unbonding_tx ∷ withdrawal_tx ∷ []) ∷ []

abbrev pub sample_staking : StoredStakingTransaction
sample_staking = record {
  tx = staking_tx;
  staking_output_idx = 0;
  inclusion_height = 100;
  staker_pk = sample_key 1;
  staking_time = 20;
  finality_provider_pk = sample_key 2;
  is_overflow = false;
  staking_value = 300;
}

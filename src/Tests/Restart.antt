-- ===== src/Tests/Restart.antt =====
-- The sample blocks are handled, and the second of them again.
use staking_indexer.Prelude.{
  ◌+ℤ◌, ◌-ℤ◌, ℕ, bytes_eq, to_u64, to_i64, wrap_i64, List, [], ◌∷◌, ◌≡◌, ◌≢◌, refl, inl, inr, ap,
  ◌∙◌, arith,
}
use staking_indexer.Prelude.Result.{ok}
use staking_indexer.Wire.{Hash, MsgTx, TxIn}
use staking_indexer.Wire.Blocks.{IndexedBlock, new_indexed_block_from_msg_block, get_wrapped_txs}
use staking_indexer.Store.Record.{
  staking_message, proto_staking_tx_to_stored_staking_tx, proto_unbonding_tx_to_stored_unbonding_tx,
  or_invalid_hash,
}
use staking_indexer.Store.Implements.Duplicates.{ForeignErrors, kv_store-ReportsDuplicates}
use staking_indexer.Store.Staking.{
  add_staking_transaction, add_staking_message, add_staking_body, get_staking_transaction,
  get_staking_body,
}
use staking_indexer.Store.Unbonding.{
  add_unbonding_transaction, add_unbonding_message, add_unbonding_body, get_unbonding_transaction,
  get_unbonding_body,
}
use staking_indexer.Store.Height.{save_last_processed_height}
use staking_indexer.Store.Tvl.{
  increment_confirmed_tvl, subtract_confirmed_tvl, get_confirmed_tvl, stored_tvl, required_tvl,
}
use staking_indexer.Store.Word.{uint64_to_bytes, uint64_from_bytes}
use staking_indexer.Indexer.Exec.{
  ◌>>=◌, lift, pure, reads, writes, push_event, index, script_from_witness,
}
use staking_indexer.Indexer.StartHeight.{get_versioned_params}
use staking_indexer.Indexer.Staking.{try_parse_staking_tx, validate_staking_tx, is_overflow}
use staking_indexer.Indexer.Spending.{
  is_valid_unbonding_tx, spends_staking_output, unlocks_unbonding_path, check_unbonding_output,
  staking_request, unbonding_request, validate_withdrawal_tx_from_staking,
  validate_withdrawal_tx_from_unbonding,
}
use staking_indexer.Indexer.Spent.{
  found, add_spent, spent_staking_from, spent_unbonding_from, get_spent_staking_txs,
  get_spent_unbonding_txs,
}
use staking_indexer.Indexer.Process.{
  get_tx_hex, staking_event, save, decide_overflow, stored_staking_tx, add_decided,
  process_staking_tx, unbonding_event, process_unbonding_tx, process_withdraw_tx,
}
use staking_indexer.Indexer.Process as Process
use staking_indexer.Indexer.Block.{
  for_each, ignore_duplicate, withdraw_if, handle_verdict, handle_spending_staking_transaction,
  handle_spending_unbonding_transaction, try_staking, handle_tx, emit_confirmed_info,
  handle_confirmed_block, handle_confirmed_blocks,
}
use staking_indexer.Indexer.Types.{World}
use staking_indexer.Tests.Indexing.{empty-IsKeyed}
use staking_indexer.Indexer.Settled.{Apart, IsOrdered, SameRecords}
use staking_indexer.Indexer.Settled.Calls.{OwnDuplicates}
use staking_indexer.Indexer.Settled.Blocks.{handle_confirmed_blocks_again}
use staking_indexer.Tests.Codec.{
  sample_codec, sample_proto, sample_codec-CodecLaws, serialize-foreign, marshal_staking-foreign,
  sample_tx, sample_in,
}
use staking_indexer.Tests.Db.{sample_db, sample_db-KvdbLaws}
use staking_indexer.Tests.Node.{
  sample_node, sample_node-IndexerLaws, empty_world, sample_blocks, sample_block, unbonding_tx,
  withdrawal_tx,
}

sample_blocks-handled : (handle_confirmed_blocks sample_node sample_blocks empty_world).0 ≡ ok tt
unfolding ◌+ℤ◌ ◌-ℤ◌ bytes_eq to_u64 to_i64 wrap_i64 new_indexed_block_from_msg_block get_wrapped_txs
    staking_message proto_staking_tx_to_stored_staking_tx proto_unbonding_tx_to_stored_unbonding_tx
    or_invalid_hash add_staking_transaction add_staking_message add_staking_body
    get_staking_transaction get_staking_body add_unbonding_transaction add_unbonding_message
    add_unbonding_body get_unbonding_transaction get_unbonding_body save_last_processed_height
    increment_confirmed_tvl subtract_confirmed_tvl get_confirmed_tvl stored_tvl required_tvl
    uint64_to_bytes uint64_from_bytes ◌>>=◌ lift pure reads writes push_event index
    script_from_witness get_versioned_params try_parse_staking_tx validate_staking_tx is_overflow
    is_valid_unbonding_tx spends_staking_output unlocks_unbonding_path check_unbonding_output
    staking_request unbonding_request validate_withdrawal_tx_from_staking
    validate_withdrawal_tx_from_unbonding found add_spent spent_staking_from spent_unbonding_from
    get_spent_staking_txs get_spent_unbonding_txs get_tx_hex staking_event save decide_overflow
    stored_staking_tx add_decided process_staking_tx unbonding_event process_unbonding_tx
    process_withdraw_tx for_each ignore_duplicate withdraw_if handle_verdict
    handle_spending_staking_transaction handle_spending_unbonding_transaction try_staking handle_tx
    emit_confirmed_info handle_confirmed_block handle_confirmed_blocks
    Process.add_staking_transaction
sample_blocks-handled = refl

foreign : ForeignErrors sample_db sample_codec sample_proto
foreign = record {
  serialize = serialize-foreign;
  marshal_staking = marshal_staking-foreign;
  marshal_unbonding = λ m h. cc h;
  put = λ n k v s h. cc h;
}

sample_node-OwnDuplicates : OwnDuplicates sample_node
sample_node-OwnDuplicates = record {
  store = kv_store-ReportsDuplicates foreign sample_db-KvdbLaws sample_codec-CodecLaws;
  serialize = serialize-foreign;
  push = λ e sent h. cc h;
}

-- A transaction with one input is apart from all but the one that the input names.
one_input-Apart :
    (u v n i : ℕ) (h : Hash) (other : MsgTx)
    → sample_node.codec.tx_hash other ≢ h
    → Apart sample_node (sample_tx u v n (sample_in h i 0xffffffff ∷ [])) other
one_input-Apart u v n i h other ne t (inl e) q =
    ne (q ∙ ap (λ (x : TxIn). x.previous_out_point.hash) e)
one_input-Apart u v n i h other ne t (inr m) q = elim m [ ]

first_byte : (a b : ℕ) (xs ys : List ℕ) → (a ∷ xs) ≡ b ∷ ys → a ≡ b
first_byte a b xs ys h = cc

sample_blocks-IsOrdered : IsOrdered sample_node sample_blocks
unfolding new_indexed_block_from_msg_block get_wrapped_txs
sample_blocks-IsOrdered = (
  (λ t m. elim m [ ], λ y m. elim m [ ], λ b i y j t m. elim m [ ], tt),
  (
    (
      one_input-Apart 2 290 0 0 _ unbonding_tx (λ h. omega (arith, first_byte 0 1 _ _ h)),
      λ y i. elim i [
        | inl e ↦
            rw e
              (one_input-Apart 2 290 0 0 _ withdrawal_tx (λ h. omega (arith, first_byte 3 1 _ _ h)))
        | inr m ↦ elim m [ ]
      ],
      λ b i. elim i [ ],
      (
        one_input-Apart 2 280 3 0 _ withdrawal_tx (λ h. omega (arith, first_byte 3 0 _ _ h)),
        λ y i. elim i [ ],
        λ b i. elim i [ ],
        tt,
      ),
    ),
    tt,
  ),
)

abbrev handled : World sample_node
handled = (handle_confirmed_blocks sample_node sample_blocks empty_world).1

abbrev second_again : List IndexedBlock
second_again = sample_block 101 (unbonding_tx ∷ withdrawal_tx ∷ []) ∷ []

handle_confirmed_blocks_again_example :
    SameRecords sample_node handled.db
      (handle_confirmed_blocks sample_node second_again handled).1.db
handle_confirmed_blocks_again_example =
    handle_confirmed_blocks_again sample_node-IndexerLaws sample_node-OwnDuplicates sample_blocks
      empty_world empty-IsKeyed sample_blocks-IsOrdered sample_blocks-handled second_again
      (λ c i. inr i)

-- ===== src/Tests/Unconfirmed.antt =====
-- The theorems on unconfirmed blocks and on the updates of the scanner, on the sample node.
use staking_indexer.Prelude.{
  ◌+◌, ◌%◌, pos, ◌+ℤ◌, ◌-ℤ◌, to_u64, to_i64, wrap_i64, u64_mod, none, List, [], ◌∷◌, ◌≡◌, ◌≢◌, ◌⊎◌,
  refl, bytes_eq,
}
use staking_indexer.Prelude.Result.{ok}
use staking_indexer.Wire.Blocks.{IndexedBlock, new_indexed_block_from_msg_block, get_wrapped_txs}
use staking_indexer.Indexer.StartHeight.{get_versioned_params, get_start_height}
use staking_indexer.Indexer.Staking.{try_parse_staking_tx, validate_staking_tx}
use staking_indexer.Store.Tvl.{get_confirmed_tvl, stored_tvl}
use staking_indexer.Store.Height.{save_last_processed_height}
use staking_indexer.Store.Word.{uint64_to_bytes, uint64_from_bytes}
use staking_indexer.Indexer.Exec.{
  script_from_witness, index, ◌>>=◌, reads, writes, lift, pure, push_event,
}
use staking_indexer.Indexer.Exec.Blind.{Accepts}
use staking_indexer.Indexer.Block.{
  handle_confirmed_blocks, handle_confirmed_block, for_each, emit_confirmed_info,
}
use staking_indexer.Indexer.Tally.{
  Tally, calculate_tvl_in_unconfirmed_blocks, tally_blocks, tally_txs, tally_tx, tally_spends,
  tally_spend, tally_staking, spent_by, subtract_unbonded,
}
use staking_indexer.Indexer.Tally.Balance.{
  Counts, empty_tally, staked_total, blocks_value, unbonded_total,
}
use staking_indexer.Indexer.Tally.Unbonded.{blocks_unbonded}
use staking_indexer.Store.Staking.{get_staking_transaction, get_staking_body}
use staking_indexer.Indexer.Process.{stored_staking_tx}
use staking_indexer.Indexer.Spent.{
  found, add_spent, spent_staking_from, get_spent_staking_txs, get_spent_from_staking_txs,
}
use staking_indexer.Indexer.Spending.{
  is_valid_unbonding_tx, spends_staking_output, unlocks_unbonding_path, check_unbonding_output,
  staking_request, unbonding_request,
}
use staking_indexer.Tests.Codec.{sample_tx}
use staking_indexer.Indexer.Tally.Runs.{calculate_tvl-Counts}
use staking_indexer.Indexer.Unconfirmed.{process_unconfirmed_info, handle_update, handle_updates}
use staking_indexer.Indexer.Unconfirmed.Info.{IsTold, process_unconfirmed_info_lem}
use staking_indexer.Indexer.Stream.Updates.{handle_updates-confirmed_stream}
use staking_indexer.Indexer.Stream.Height.{handle_confirmed_blocks-get_start_height}
use staking_indexer.Scanner.Poller.{ChainUpdateInfo}
use staking_indexer.Scanner.Poller.Commits.{confirmed_stream}
use staking_indexer.Tests.Node.{
  sample_node, sample_node-IndexerLaws, empty_world, sample_block, staking_tx, unbonding_tx,
}

-- Stakes 300, unbonds it, and stakes 200.
abbrev unbonding_block : IndexedBlock
unbonding_block = sample_block 100 (staking_tx ∷ unbonding_tx ∷ sample_tx 2 200 1 [] ∷ [])

unbonding_block-calculated :
    calculate_tvl_in_unconfirmed_blocks sample_node (unbonding_block ∷ []) empty_world.db
    ≡ ok (pos 200)
unfolding calculate_tvl_in_unconfirmed_blocks tally_blocks tally_txs tally_tx tally_spends
    tally_spend tally_staking spent_by subtract_unbonded get_versioned_params try_parse_staking_tx
    validate_staking_tx to_u64 to_i64 wrap_i64 ◌+ℤ◌ ◌-ℤ◌ new_indexed_block_from_msg_block
    get_wrapped_txs get_spent_staking_txs get_spent_from_staking_txs spent_staking_from add_spent
    found get_staking_transaction get_staking_body stored_staking_tx is_valid_unbonding_tx
    spends_staking_output unlocks_unbonding_path check_unbonding_output staking_request
    unbonding_request script_from_witness index bytes_eq
unbonding_block-calculated = refl

-- What is taken off is not nothing.
unbonding_block-unbonded :
    blocks_unbonded sample_node empty_world.db (unbonding_block ∷ []) (λ h. none) ≡ 300
unfolding get_versioned_params try_parse_staking_tx validate_staking_tx to_u64 to_i64 wrap_i64 ◌+ℤ◌
    ◌-ℤ◌ new_indexed_block_from_msg_block get_wrapped_txs get_spent_staking_txs
    get_spent_from_staking_txs spent_staking_from add_spent found get_staking_transaction
    get_staking_body is_valid_unbonding_tx spends_staking_output unlocks_unbonding_path
    check_unbonding_output staking_request unbonding_request script_from_witness index bytes_eq
unbonding_block-unbonded = refl

calculate_tvl-Counts_example :
    (t : Tally) × (r : Counts sample_node empty_world.db (unbonding_block ∷ []) empty_tally t)
    × (t.tvl ≡ pos 200)
    × (staked_total r ≡ blocks_value sample_node (unbonding_block ∷ []))
    × (unbonded_total r
        ≡ blocks_unbonded sample_node empty_world.db (unbonding_block ∷ []) (λ h. none))
    × ((to_u64 (pos 200)
            + blocks_unbonded sample_node empty_world.db (unbonding_block ∷ []) (λ h. none))
          % u64_mod
        ≡ blocks_value sample_node (unbonding_block ∷ []) % u64_mod)
calculate_tvl-Counts_example =
    calculate_tvl-Counts sample_node empty_world.db (unbonding_block ∷ []) (pos 200)
      unbonding_block-calculated

process_unconfirmed_info_lem_example :
    IsTold sample_node (sample_block 100 (staking_tx ∷ [])) (sample_block 101 [] ∷ []) empty_world
    ⊎ (((process_unconfirmed_info sample_node
            (sample_block 100 (staking_tx ∷ []) ∷ sample_block 101 [] ∷ [])
            empty_world).0
          ≢ ok tt)
        × ((process_unconfirmed_info sample_node
              (sample_block 100 (staking_tx ∷ []) ∷ sample_block 101 [] ∷ [])
              empty_world).1
            ≡ empty_world))
process_unconfirmed_info_lem_example =
    process_unconfirmed_info_lem sample_node (sample_block 100 (staking_tx ∷ []))
      (sample_block 101 [] ∷ []) empty_world

sample_node-Accepts : Accepts sample_node
sample_node-Accepts = record { takes = λ e sent. refl }

abbrev sample_updates : List ChainUpdateInfo
sample_updates =
    record {
      confirmed_blocks = sample_block 100 [] ∷ [];
      unconfirmed_blocks = sample_block 101 (staking_tx ∷ []) ∷ [];
    }
    ∷ []

sample_updates-handled : (handle_updates sample_node sample_updates empty_world).0 ≡ ok tt
unfolding handle_updates handle_update process_unconfirmed_info handle_confirmed_blocks ◌>>=◌
    for_each handle_confirmed_block get_versioned_params new_indexed_block_from_msg_block
    get_wrapped_txs emit_confirmed_info get_confirmed_tvl push_event save_last_processed_height
    reads writes lift pure bytes_eq stored_tvl uint64_from_bytes uint64_to_bytes
    calculate_tvl_in_unconfirmed_blocks tally_blocks tally_txs tally_tx tally_spends tally_spend
    tally_staking spent_by subtract_unbonded try_parse_staking_tx validate_staking_tx to_u64 to_i64
    wrap_i64 ◌+ℤ◌ ◌-ℤ◌
sample_updates-handled = refl

handle_updates-confirmed_stream_example :
    ((handle_updates sample_node sample_updates empty_world).0
      ≡ (handle_confirmed_blocks sample_node (confirmed_stream sample_updates) empty_world).0)
    × ((handle_updates sample_node sample_updates empty_world).1.db
        ≡ (handle_confirmed_blocks sample_node (confirmed_stream sample_updates) empty_world).1.db)
handle_updates-confirmed_stream_example =
    handle_updates-confirmed_stream sample_node-Accepts sample_updates empty_world empty_world refl
      (λ p. cc (sample_updates-handled, p))

sample_block-handled :
    (handle_confirmed_blocks sample_node
      (sample_block 100 [] ∷ sample_block 101 [] ∷ [])
      empty_world).0
    ≡ ok tt
unfolding handle_confirmed_blocks ◌>>=◌ for_each handle_confirmed_block get_versioned_params
    new_indexed_block_from_msg_block get_wrapped_txs emit_confirmed_info get_confirmed_tvl
    push_event save_last_processed_height reads writes lift pure bytes_eq stored_tvl
    uint64_from_bytes uint64_to_bytes to_u64
sample_block-handled = refl

handle_confirmed_blocks-get_start_height_example :
    get_start_height sample_node
      (handle_confirmed_blocks sample_node
        (sample_block 100 [] ∷ sample_block 101 [] ∷ [])
        empty_world).1.db
    ≡ ok ((to_u64 (pos 101) + 1) % u64_mod)
unfolding new_indexed_block_from_msg_block
handle_confirmed_blocks-get_start_height_example =
    handle_confirmed_blocks-get_start_height sample_node-IndexerLaws (sample_block 100 [])
      (sample_block 101 [] ∷ []) empty_world sample_block-handled

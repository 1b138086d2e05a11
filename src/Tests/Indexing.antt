-- ===== src/Tests/Indexing.antt =====
-- The indexer's theorems on the sample node, which indexes a staking transaction and the spending of
-- its output.
use staking_indexer.Prelude.{
  bytes_eq, wrap_i64, to_i64, ◌-ℤ◌, ℕ, ◌+◌, ◌<◌, ◌≤◌, pos, true, false, Bool, Bytes, none, some, [],
  ◌∷◌, ◌++◌, ◌≡◌, ◌≢◌, ◌↔◌, ◌⊎◌, refl, sym, arith, to_u64, ◌≤ℤ◌, In, Extends,
}
use staking_indexer.Prelude.Result.{ok, err, last_processed_height_not_found}
use staking_indexer.Wire.{Hash}
use staking_indexer.Store.Record.{StoredStakingTransaction, StoredUnbondingTransaction}
use staking_indexer.Store.Staking.{
  add_staking_transaction, get_staking_transaction, get_staking_body,
}
use staking_indexer.Store.Unbonding.{get_unbonding_transaction, get_unbonding_body}
use staking_indexer.Store.Tvl.{get_confirmed_tvl}
use staking_indexer.Store.Word.{uint64_to_bytes, uint64_from_bytes}
use staking_indexer.Store.Record.{staking_message, proto_staking_tx_to_stored_staking_tx}
use staking_indexer.Store.Staking.{add_staking_message, add_staking_body}
use staking_indexer.Store.Tvl.{increment_confirmed_tvl, stored_tvl}
use staking_indexer.Store.Height.{
  required_height, get_last_processed_height, save_last_processed_height,
}
use staking_indexer.Indexer.Types.{World}
use staking_indexer.Indexer.StartHeight.{
  validate_start_height, get_start_height, get_versioned_params,
}
use staking_indexer.Indexer.StartHeight.Range.{
  validate_start_height_iff, validate_start_height_empty_iff,
}
use staking_indexer.Indexer.Staking.{validate_staking_tx, is_overflow}
use staking_indexer.Indexer.Staking.Limits.{
  validate_staking_tx_iff, is_overflow_by_height, is_overflow_by_cap,
}
use staking_indexer.Indexer.Spending.{
  is_valid_unbonding_tx, spends_staking_output, unlocks_unbonding_path, check_unbonding_output,
  staking_request, unbonding_request,
}
use staking_indexer.Indexer.Exec.{script_from_witness, index}
use staking_indexer.Indexer.Spending.Verdict.{
  SpendsByUnbondingPath, IsUnbonding, is_valid_unbonding_tx-IsUnbonding,
}
use staking_indexer.Indexer.Spent.{found, get_spent_staking_txs}
use staking_indexer.Indexer.Spent.Exact.{Spends, get_spent_staking_txs_iff}
use staking_indexer.Indexer.Process.{process_staking_tx}
use staking_indexer.Indexer.Process.Replay.{event_with, process_staking_tx_replay}
use staking_indexer.Indexer.Block.{handle_confirmed_blocks}
use staking_indexer.Indexer.Ledger.{Reach}
use staking_indexer.Indexer.Ledger.Records.{IsKeyed}
use staking_indexer.Indexer.Ledger.Announced.{IsAnnounced}
use staking_indexer.Indexer.Ledger.Tvl.{Tvl, staked_value, unbonded_value}
use staking_indexer.Indexer.Ledger.Cap.{IsCapped}
use staking_indexer.Indexer.History.{
  handle_confirmed_blocks-Reach, handle_confirmed_blocks-keeps, handle_confirmed_blocks-IsAnnounced,
  handle_confirmed_blocks-Tvl,
}
use staking_indexer.Tests.Codec.{sample_codec, sample_proto}
use staking_indexer.Tests.Db.{Tables, sample_db}
use staking_indexer.Tests.Node.{
  sample_node, sample_params, sample_parsed, sample_node-IndexerLaws, empty_world, sample_blocks,
  sample_staking, staking_tx, unbonding_tx,
}

staking-absent : (h : Hash) → sample_node.store.get_staking_transaction h empty_world.db ≡ ok none
unfolding get_staking_transaction get_staking_body
staking-absent h = refl

unbonding-absent :
    (h : Hash) → sample_node.store.get_unbonding_transaction h empty_world.db ≡ ok none
unfolding get_unbonding_transaction get_unbonding_body
unbonding-absent h = refl

empty-Tvl : Tvl empty_world 0
unfolding get_confirmed_tvl
empty-Tvl = refl

pub empty-IsKeyed : IsKeyed sample_node empty_world
empty-IsKeyed = record { keyed = λ h st e. cc (staking-absent h, e) }

empty-IsAnnounced : IsAnnounced sample_node empty_world
empty-IsAnnounced = record {
  staking = λ h st e. cc (staking-absent h, e);
  unbonding = λ h ut e. cc (unbonding-absent h, e);
}

sample-IsCapped : IsCapped sample_node 1499
unfolding get_versioned_params to_u64
sample-IsCapped = record {
  fits = omega arith;
  version = λ h params e.
      let q : sample_params ≡ params = cc in rw (sym q) (refl, omega arith, omega arith);
}

handle_confirmed_blocks-Reach_example :
    Reach sample_node empty_world (handle_confirmed_blocks sample_node sample_blocks empty_world).1
handle_confirmed_blocks-Reach_example =
    handle_confirmed_blocks-Reach sample_node-IndexerLaws sample_blocks empty_world empty-IsKeyed

abbrev after : World sample_node
after = (handle_confirmed_blocks sample_node sample_blocks empty_world).1

handle_confirmed_blocks-keeps_example :
    ((h : Hash) (st : StoredStakingTransaction)
      → sample_node.store.get_staking_transaction h empty_world.db ≡ ok (some st)
      → sample_node.store.get_staking_transaction h after.db ≡ ok (some st))
    × ((h : Hash) (ut : StoredUnbondingTransaction)
        → sample_node.store.get_unbonding_transaction h empty_world.db ≡ ok (some ut)
        → sample_node.store.get_unbonding_transaction h after.db ≡ ok (some ut))
    × Extends empty_world.sent after.sent
handle_confirmed_blocks-keeps_example =
    handle_confirmed_blocks-keeps sample_node-IndexerLaws sample_blocks empty_world empty-IsKeyed

handle_confirmed_blocks-IsAnnounced_example : IsAnnounced sample_node after
handle_confirmed_blocks-IsAnnounced_example =
    handle_confirmed_blocks-IsAnnounced sample_node-IndexerLaws sample_blocks empty_world
      empty-IsKeyed empty-IsAnnounced

handle_confirmed_blocks-Tvl_example :
    (r : Reach sample_node empty_world after) × (t' : ℕ) × Tvl after t'
    × (t' ≤ 1499)
    × (t' + unbonded_value r ≡ 0 + staked_value r)
handle_confirmed_blocks-Tvl_example =
    handle_confirmed_blocks-Tvl sample_node-IndexerLaws sample_blocks empty_world empty-IsKeyed 1499
      sample-IsCapped 0 empty-Tvl (omega arith)

validate_staking_tx_iff_example :
    (validate_staking_tx sample_params (sample_parsed (record { value = pos 300; pk_script = [] }))
      ≡ ok tt)
    ↔ ((pos 1 ≤ℤ pos 300) × (pos 300 ≤ℤ pos 500) × (1 ≤ 20) × (20 ≤ 1000))
validate_staking_tx_iff_example =
    validate_staking_tx_iff sample_params
      (sample_parsed (record { value = pos 300; pk_script = [] }))

is_overflow_by_height_example :
    (o : Bool) × (is_overflow 200
        (record sample_params { cap_height = 150 })
        (err last_processed_height_not_found)
      ≡ ok o)
    × ((o ≡ true) ↔ (150 < 200))
is_overflow_by_height_example =
    is_overflow_by_height 200 (record sample_params { cap_height = 150 })
      (err last_processed_height_not_found) (omega arith) (omega arith)

is_overflow_by_cap_example :
    (o : Bool) × (is_overflow 200 sample_params (ok 1000) ≡ ok o)
    × ((o ≡ true) ↔ (to_u64 (pos 1000) ≤ 1000))
is_overflow_by_cap_example = is_overflow_by_cap 200 sample_params 1000 refl

unbonding_tx-valid :
    is_valid_unbonding_tx sample_node unbonding_tx sample_staking sample_params ≡ ok true
unfolding is_valid_unbonding_tx spends_staking_output unlocks_unbonding_path check_unbonding_output
    staking_request unbonding_request script_from_witness index bytes_eq wrap_i64 to_i64 to_u64 ◌-ℤ◌
unbonding_tx-valid = refl

-- The unbonding transaction pays what it has to.
unbonding_tx-IsUnbonding : IsUnbonding sample_node unbonding_tx sample_staking sample_params
unbonding_tx-IsUnbonding =
    (is_valid_unbonding_tx-IsUnbonding sample_node unbonding_tx sample_staking sample_params).0.0
      unbonding_tx-valid

is_valid_unbonding_tx-IsUnbonding_example :
    ((is_valid_unbonding_tx sample_node unbonding_tx sample_staking sample_params ≡ ok true)
      ↔ IsUnbonding sample_node unbonding_tx sample_staking sample_params)
    × (is_valid_unbonding_tx sample_node unbonding_tx sample_staking sample_params ≡ ok false
        → ¬ SpendsByUnbondingPath sample_node unbonding_tx sample_staking sample_params)
is_valid_unbonding_tx-IsUnbonding_example =
    is_valid_unbonding_tx-IsUnbonding sample_node unbonding_tx sample_staking sample_params

abbrev db_150 : Tables
db_150 = (save_last_processed_height sample_db 150 empty_world.db).1

db_150-height : sample_node.store.get_last_processed_height db_150 ≡ ok 150
unfolding save_last_processed_height get_last_processed_height required_height bytes_eq
    uint64_to_bytes uint64_from_bytes
db_150-height = refl

db_150-start : get_start_height sample_node db_150 ≡ ok 151
unfolding get_start_height save_last_processed_height get_last_processed_height required_height
    bytes_eq uint64_to_bytes uint64_from_bytes
db_150-start = refl

validate_start_height_iff_example :
    (validate_start_height sample_node 120 db_150 ≡ ok tt) ↔ ((100 ≤ 120) × (120 ≤ 150 + 1))
validate_start_height_iff_example =
    validate_start_height_iff sample_node db_150 120 150 db_150-height (omega arith) (omega arith)

empty-height :
    sample_node.store.get_last_processed_height empty_world.db ≡ err last_processed_height_not_found
unfolding get_last_processed_height required_height
empty-height = refl

validate_start_height_empty_iff_example :
    (validate_start_height sample_node 101 empty_world.db ≡ ok tt)
    ↔ (101 ≡ sample_node.first_activation_height)
validate_start_height_empty_iff_example =
    validate_start_height_empty_iff sample_node empty_world.db 101 last_processed_height_not_found
      empty-height

abbrev staked_db : Tables
staked_db =
    (add_staking_transaction sample_db sample_codec sample_proto sample_staking empty_world.db).1

staked_db-staking :
    sample_node.store.get_staking_transaction (sample_node.codec.tx_hash staking_tx) staked_db
    ≡ ok (some sample_staking)
unfolding add_staking_transaction add_staking_message add_staking_body staking_message
    increment_confirmed_tvl get_staking_transaction get_staking_body
    proto_staking_tx_to_stored_staking_tx bytes_eq stored_tvl uint64_to_bytes
staked_db-staking = refl

get_spent_staking_txs_iff_example :
    In (sample_staking, 0) (get_spent_staking_txs sample_node unbonding_tx staked_db)
    ↔ Spends
        (λ h. found (sample_node.store.get_staking_transaction h staked_db))
        unbonding_tx.tx_in
        sample_staking
        0
get_spent_staking_txs_iff_example =
    get_spent_staking_txs_iff sample_node unbonding_tx staked_db sample_staking 0

abbrev staked_world : World sample_node
staked_world = record { db = staked_db; sent = [] }

process_staking_tx_replay_example :
    let d = sample_parsed (record { value = pos 300; pk_script = [] }) in
    let run =
      process_staking_tx sample_node staking_tx d 100 (pos 1700000000) sample_params staked_world in
    let event = event_with sample_node staking_tx d 100 (pos 1700000000) false in
    (run.1.db ≡ staked_db)
    × (((bytes : Bytes) × (sample_codec.serialize staking_tx ≡ ok bytes)
          × (sample_node.push (event bytes) [] ≡ none)
          × (run.1.sent ≡ [] ++ event bytes ∷ []))
        ⊎ (((bytes : Bytes)
              → sample_codec.serialize staking_tx ≡ ok bytes
              → sample_node.push (event bytes) [] ≢ none)
            × (run.0 ≢ ok tt)
            × (run.1.sent ≡ [])))
process_staking_tx_replay_example =
    process_staking_tx_replay sample_node-IndexerLaws staking_tx
      (sample_parsed (record { value = pos 300; pk_script = [] })) 100 (pos 1700000000)
      sample_params staked_world sample_staking staked_db-staking

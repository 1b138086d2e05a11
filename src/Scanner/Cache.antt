-- ===== src/Scanner/Cache.antt =====
-- btcscanner/btc_cache.go: the cache of unconfirmed blocks, oldest first. The locks are left out: an
-- operation is one step. Blocks are pointers that are never written through.
pub mod Bounds
use staking_indexer.Prelude.{
  ℕ, ◌-◌, ℤ, pos, negsuc, to_i64, Bool, true, false, Option, none, some, List, [], ◌∷◌, ◌++◌, ltb,
  leb, ltb_ℤ, ◌==◌, ◌&&◌, not, if◌then◌else◌, length, drop, take, get_last?,
}
use staking_indexer.Prelude.Result.{
  Result, ok, err, panic, invalid_max_entries, too_many_entries, unsorted_blocks,
}
use staking_indexer.Wire.Blocks.{IndexedBlock}

pub record BtcCache : Type 0 where
  pub blocks : List IndexedBlock
  pub max_entries : ℕ

unfoldable pub new_btc_cache : ℕ → Result BtcCache
new_btc_cache max_entries =
    if max_entries == 0
    then err invalid_max_entries
    else ok (record { blocks = []; max_entries = max_entries })

-- The oldest block is dropped; `b.blocks[0]` of an empty slice is a panic.
abbrev pub evict_first : List IndexedBlock → Result (List IndexedBlock)
evict_first [] = panic
evict_first (x ∷ xs) = ok xs

abbrev pub append_block :
    Result (List IndexedBlock) → IndexedBlock → BtcCache → Result (Unit {0}) × BtcCache
append_block (ok blocks) ib b = (ok tt, record b { blocks = blocks ++ ib ∷ [] })
append_block (err e) ib b = (err e, b)
append_block panic ib b = (panic, b)

unfoldable pub add : IndexedBlock → BtcCache → Result (Unit {0}) × BtcCache
add ib b =
    if ltb b.max_entries (length b.blocks)
    then (err too_many_entries, b)
    else append_block
        (if length b.blocks == b.max_entries then evict_first b.blocks else ok b.blocks) ib b

-- `sort.SliceIsSorted` by height: no block lies below the one before it.
abbrev pub sorted_by_height : List IndexedBlock → Bool
sorted_by_height [] = true
sorted_by_height (x ∷ []) = true
sorted_by_height (x ∷ y ∷ rest) = not (ltb_ℤ y.height x.height) && sorted_by_height (y ∷ rest)

-- The loop of `Init`, which stops at the first error.
unfoldable pub add_all : List IndexedBlock → BtcCache → Result (Unit {0}) × BtcCache
add_all [] b = (ok tt, b)
add_all (x ∷ xs) b =
    let (r, b') = add x b in
    let rest = add_all xs b' in elim r [ ok u ↦ rest | err e ↦ (err e, b') | panic ↦ (panic, b') ]

unfoldable pub init : List IndexedBlock → BtcCache → Result (Unit {0}) × BtcCache
unfolding add_all
init ibs b =
    if ltb_ℤ (to_i64 b.max_entries) (pos (length ibs))
    then (err too_many_entries, b)
    else if not (sorted_by_height ibs)
    then (err unsorted_blocks, b)
    else add_all ibs b

abbrev first_of : List IndexedBlock → Option IndexedBlock
first_of [] = none
first_of (x ∷ xs) = some x

unfoldable pub first : BtcCache → Option IndexedBlock
first b = first_of b.blocks

unfoldable pub tip : BtcCache → Option IndexedBlock
tip b = get_last? b.blocks

unfoldable pub remove_all : BtcCache → BtcCache
remove_all b = record b { blocks = [] }

unfoldable pub size : BtcCache → ℕ
size b = length b.blocks

unfoldable pub get_all_blocks : BtcCache → List IndexedBlock
get_all_blocks b = b.blocks

-- A negative `k` panics: the length of a new slice cannot be negative.
unfoldable pub get_last_blocks : ℤ → BtcCache → Result (List IndexedBlock)
get_last_blocks (pos k) b =
    if leb (length b.blocks) k then ok b.blocks else ok (drop (length b.blocks - k) b.blocks)
get_last_blocks (negsuc k) b = panic

-- A negative `k` panics: the slice is cut beyond its end.
unfoldable pub trim_confirmed_blocks : ℤ → BtcCache → Result (List IndexedBlock) × BtcCache
trim_confirmed_blocks (pos k) b = if leb (length b.blocks) k then (ok [], b) else (
  ok (take (length b.blocks - k) b.blocks),
  record b { blocks = drop (length b.blocks - k) b.blocks },
)
trim_confirmed_blocks (negsuc k) b = (panic, b)

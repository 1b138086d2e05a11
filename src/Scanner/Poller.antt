-- ===== src/Scanner/Poller.antt =====
-- The poller of btcscanner/btc_scanner.go and block_handler.go: `Bootstrap`, `HandleNewBlock` and
-- `commitChainUpdate`, with the Bitcoin client as a parameter. The updates that were sent on the
-- channel are a list; the shutdown, where an update is dropped, is left out.
pub mod Commits
pub mod Rounds
pub mod Complete
use staking_indexer.Prelude.{
  ℕ, zero, suc, ◌+◌, ◌-◌, ℤ, pos, negsuc, ◌+ℤ◌, ltb_ℤ, leb_ℤ, to_u64, Bool, true, false, not, Bytes,
  bytes_eq, Option, none, some, List, [], ◌∷◌, ◌++◌, ltb, leb, if◌then◌else◌, length, get_last?,
  ◌==◌, ◌%◌,
}
use staking_indexer.Prelude.Result.{
  Result, ok, err, panic, guard, no_unconfirmed_blocks, missing_blocks, parent_mismatch,
  reorg_happened, not_connected_to_tip, start_above_tip, or_fail, no_tip_height,
}
use staking_indexer.Wire.{Hash, BlockHeader, Codec}
use staking_indexer.Wire.Blocks.{IndexedBlock, block_hash}
use staking_indexer.Scanner.Cache.{
  BtcCache, add, tip, remove_all, get_last_blocks, trim_confirmed_blocks,
}

abbrev pub confirmed_block_batch_size : ℕ
confirmed_block_batch_size = 100

pub record ChainUpdateInfo : Type 0 where
  pub confirmed_blocks : List IndexedBlock
  pub unconfirmed_blocks : List IndexedBlock

-- `sent` is what went through `chainUpdateInfoChan`, oldest first.
pub record BtcPoller : Type 0 where
  pub unconfirmed_block_cache : BtcCache
  pub confirmation_depth : ℕ
  pub confirmed_tip_block : Option IndexedBlock
  pub sent : List ChainUpdateInfo

-- The answers of the Bitcoin client during one call of the poller. `Bootstrap` asks for each height
-- at most once.
pub record Client : Type 0 where
  pub get_tip_height : Result ℕ
  pub get_block_by_height : ℕ → Result IndexedBlock

-- `notifier.BlockEpoch`
pub record BlockEpoch : Type 0 where
  pub hash : Hash
  pub height : ℤ
  pub block_header : BlockHeader

-- `h + 1` of an int32.
abbrev pub next_height : ℤ → ℤ
next_height h = if leb_ℤ (pos 0x7fffffff) h then negsuc 0x7fffffff else h +ℤ pos 1

abbrev pub Act : Type 0 → Type 0
Act A = BtcPoller → Result A × BtcPoller

module _ {A : Type 0} where
  unfoldable pub done : A → Act A
  done a s = (ok a, s)

  unfoldable pub lift : Result A → Act A
  lift r s = (r, s)

  -- An operation of the cache.
  unfoldable pub on_cache : (BtcCache → Result A × BtcCache) → Act A
  on_cache f s =
      let (r, cache') = f s.unconfirmed_block_cache in
      (r, record s { unconfirmed_block_cache = cache' })

module _ {A B : Type 0} where
  abbrev pub continue : Result A → (A → Act B) → Act B
  continue (ok a) f s = f a s
  continue (err e) f s = (err e, s)
  continue panic f s = (panic, s)

  infixl 5 ◌>>=◌ ◌>>◌
  unfoldable pub ◌>>=◌ : Act A → (A → Act B) → Act B
  ◌>>=◌ m f s = let (r, s') = m s in continue r f s'

  abbrev pub ◌>>◌ : Act A → Act B → Act B
  m >> n = m >>= λ _. n

-- `int(confirmationDepth) - 1`
abbrev pub kept_blocks : ℕ → ℤ
kept_blocks zero = negsuc 0
kept_blocks (suc d) = pos d

unfoldable pub get_unconfirmed_blocks : BtcPoller → Result (List IndexedBlock)
get_unconfirmed_blocks s = elim (tip s.unconfirmed_block_cache) [
  | none ↦ ok []
  | some t ↦ get_last_blocks (kept_blocks s.confirmation_depth) s.unconfirmed_block_cache
]

unfoldable pub last_confirmed_height : BtcPoller → ℕ
last_confirmed_height s = elim s.confirmed_tip_block [ none ↦ 0 | some t ↦ to_u64 t.height ]

module _ (c : Codec) where
  -- The confirmed blocks follow the confirmed tip; they do not after a major reorganisation.
  abbrev pub follows : Option IndexedBlock → List IndexedBlock → Bool
  follows none bs = true
  follows (some t) [] = true
  follows (some t) (b ∷ bs) = bytes_eq (block_hash c t) b.header.prev_block

  abbrev pub new_tip : Option IndexedBlock → List IndexedBlock → Option IndexedBlock
  new_tip o [] = o
  new_tip o (b ∷ bs) = get_last? (b ∷ bs)

  -- The tip moves before the update is sent.
  unfoldable pub advance_tip : List IndexedBlock → Act (Unit {0})
  advance_tip confirmed_blocks s =
      if follows s.confirmed_tip_block confirmed_blocks
      then (
        ok tt,
        record s { confirmed_tip_block = new_tip s.confirmed_tip_block confirmed_blocks },
      )
      else (panic, s)

  unfoldable pub send : ChainUpdateInfo → Act (Unit {0})
  send info s = (ok tt, record s { sent = s.sent ++ info ∷ [] })

  unfoldable pub commit_chain_update : List IndexedBlock → Act (Unit {0})
  unfolding advance_tip send
  commit_chain_update confirmed_blocks = do
    advance_tip confirmed_blocks
    unconfirmed_blocks ← (λ s. (get_unconfirmed_blocks s, s))
    send (record { confirmed_blocks = confirmed_blocks; unconfirmed_blocks = unconfirmed_blocks })

  -- The block follows the tip of the cache, if there is one.
  abbrev pub connects : Option IndexedBlock → IndexedBlock → Bool
  connects none ib = true
  connects (some t) ib = bytes_eq (block_hash c t) ib.header.prev_block

  -- A full batch is committed, and the next one starts empty.
  unfoldable pub commit_batch : List IndexedBlock → Act (List IndexedBlock)
  unfolding commit_chain_update
  commit_batch confirmed_blocks =
      if leb confirmed_block_batch_size (length confirmed_blocks)
      then (commit_chain_update confirmed_blocks >>= λ _. done [])
      else done confirmed_blocks

  -- One round of the loop of `Bootstrap`: from the confirmed blocks so far to the new ones.
  unfoldable pub bootstrap_block : Client → ℕ → List IndexedBlock → Act (List IndexedBlock)
  unfolding commit_batch
  bootstrap_block client height confirmed_blocks = do
    ib ← lift (client.get_block_by_height height)
    (λ s. (guard (connects (tip s.unconfirmed_block_cache) ib) not_connected_to_tip, s))
    on_cache (add ib)
    depth ← (λ s. (ok s.confirmation_depth, s))
    more ← on_cache (trim_confirmed_blocks (kept_blocks depth))
    commit_batch (confirmed_blocks ++ more)

  -- The loop, over `n` heights from `height` on.
  unfoldable pub bootstrap_loop : Client → ℕ → ℕ → List IndexedBlock → Act (List IndexedBlock)
  unfolding bootstrap_block
  bootstrap_loop client zero height confirmed_blocks = done confirmed_blocks
  bootstrap_loop client (suc n) height confirmed_blocks =
      bootstrap_block client height confirmed_blocks >>= bootstrap_loop client n (height + 1)

  -- `if len(confirmedBlocks) != 0 || len(bs.getUnconfirmedBlocks()) != 0`
  unfoldable pub commit_rest : List IndexedBlock → Act (Unit {0})
  commit_rest [] = do
    unconfirmed_blocks ← (λ s. (get_unconfirmed_blocks s, s))
    (if length unconfirmed_blocks == 0 then done tt else commit_chain_update [])
  commit_rest (b ∷ bs) = commit_chain_update (b ∷ bs)

  unfoldable pub bootstrap : Client → ℕ → Act (Unit {0})
  unfolding bootstrap_loop commit_rest
  bootstrap client start_height = do
    on_cache (λ b. (ok tt, remove_all b))
    tip_height ← lift (or_fail client.get_tip_height no_tip_height)
    lift (guard (not (ltb tip_height start_height)) start_above_tip)
    confirmed_blocks ← bootstrap_loop client (tip_height + 1 - start_height) start_height []
    commit_rest confirmed_blocks

  -- A new block that connects to the tip of the cache.
  unfoldable pub accept_block : Client → BlockEpoch → Act (Unit {0})
  accept_block client block_epoch = do
    ib ← lift (client.get_block_by_height (to_u64 block_epoch.height))
    lift (guard (bytes_eq (block_hash c ib) block_epoch.hash) reorg_happened)
    on_cache (add ib)
    depth ← (λ s. (ok s.confirmation_depth, s))
    confirmed_blocks ← on_cache (trim_confirmed_blocks (kept_blocks depth))
    commit_chain_update confirmed_blocks

  -- A low block is passed over; a gap or another branch is an error, and wants a bootstrap.
  unfoldable pub handle_new_block : Client → BlockEpoch → Act (Unit {0})
  unfolding accept_block
  handle_new_block client block_epoch s = elim (tip s.unconfirmed_block_cache) [
    | none ↦ (err no_unconfirmed_blocks, s)
    | some t ↦
        if leb_ℤ block_epoch.height t.height
        then (ok tt, s)
        else if ltb_ℤ (next_height t.height) block_epoch.height
        then (err missing_blocks, s)
        else if not (bytes_eq block_epoch.block_header.prev_block (block_hash c t))
        then (err parent_mismatch, s)
        else accept_block client block_epoch s
  ]

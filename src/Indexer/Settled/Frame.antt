-- ===== src/Indexer/Settled/Frame.antt =====
-- The handling of transactions leaves alone the staking records under other hashes than theirs.
use staking_indexer.Prelude.{ℕ, ℤ, List, ◌≡◌, ◌≢◌, ◌∙◌, refl, In}
use staking_indexer.Wire.{Hash, MsgTx}
use staking_indexer.Wire.Blocks.{Tx, IndexedBlock}
use staking_indexer.Indexer.Types.{StakingIndexer, World, Params, ParsedStakingTx}
use staking_indexer.Indexer.Exec.{writes, ◌>>=◌}
use staking_indexer.Indexer.Exec.Steps.{Steps, Stable}
use staking_indexer.Indexer.Staking.{try_parse_staking_tx}
use staking_indexer.Indexer.Process.{process_staking_tx, process_unbonding_tx, stored_staking_tx}
use staking_indexer.Indexer.Block.{
  for_each, try_staking, handle_tx, emit_confirmed_info, handle_confirmed_blocks,
}
use staking_indexer.Indexer.Block.Steps as BlockSteps
use staking_indexer.Indexer.Block.Steps.{Pushes}
use staking_indexer.Indexer.Ledger.Laws.{IndexerLaws}
use staking_indexer.Indexer.Settled.Leaves.{
  OfDb, OfDb-IsPreorder, OfDb-Pushes, save_height-Steps, process_unbonding-Steps,
  process_staking-Steps,
}

module _ {si : StakingIndexer} (laws : IndexerLaws si) (h : Hash) where
  -- The staking record under `h` reads the same.
  abbrev pub SameAt : si.store.Db → si.store.Db → Type 0
  SameAt s t = si.store.get_staking_transaction h t ≡ si.store.get_staking_transaction h s

  same : (s : si.store.Db) → SameAt s s
  same s = refl

  trans : (s t u : si.store.Db) → SameAt s t → SameAt t u → SameAt s u
  trans s t u p q = q ∙ p

  abbrev Any : World si → Type 0
  Any w = Unit {0}

  abbrev Kept : World si → World si → Type 0
  Kept = OfDb SameAt

  any : Stable Kept Any
  any = record { keep = λ w u r q. tt }

  staking-Steps :
      (tx : MsgTx) (d : ParsedStakingTx) (height : ℕ) (timestamp : ℤ) (params : Params)
      → si.codec.tx_hash tx ≢ h
      → Steps Kept Any (process_staking_tx si tx d height timestamp params)
  unfolding stored_staking_tx
  staking-Steps tx d height timestamp params ne =
      process_staking-Steps SameAt same laws Any trans tx d height timestamp params
        λ stored overflow w t q a. a.others h ne

  unbonding-Steps :
      (Q : World si → Type 0) (tx : MsgTx) (sh : Hash) (height : ℕ) (timestamp : ℤ)
      (params : Params)
      → Steps Kept Q (process_unbonding_tx si tx sh height timestamp params)
  unbonding-Steps Q tx sh height timestamp params =
      process_unbonding-Steps SameAt same laws Q tx sh height timestamp params
        λ w t q a. a.staking h

  module _ (tx : MsgTx) (height : ℕ) (timestamp : ℤ) (params : Params)
      (ne : si.codec.tx_hash tx ≢ h) where
    pub try_staking-same :
        (w : World si)
        → SameAt w.db
            (try_staking si (try_parse_staking_tx si tx params) tx height timestamp params w).1.db
    try_staking-same w =
        (BlockSteps.try_staking-Steps (OfDb-IsPreorder SameAt same trans) (OfDb-Pushes SameAt same)
            Any any (λ s. Any) (λ s. any) tx height timestamp params (λ w s q i. tt)
            (λ d p. staking-Steps tx d height timestamp params ne)
            (λ s old v p. unbonding-Steps _ tx _ height timestamp old) _ refl).at
          w tt

    tx-Steps : Steps Kept Any (handle_tx si tx height timestamp params)
    tx-Steps =
        BlockSteps.handle_tx-Steps (OfDb-IsPreorder SameAt same trans) (OfDb-Pushes SameAt same) Any
          any (λ s. Any) (λ s. any) tx height timestamp params (λ w s q i. tt)
          (λ d p. staking-Steps tx d height timestamp params ne)
          (λ s old v p. unbonding-Steps _ tx _ height timestamp old)

    pub handle_tx-same :
        (w : World si) → SameAt w.db (handle_tx si tx height timestamp params w).1.db
    handle_tx-same w = tx-Steps.at w tt

  pub txs-same :
      (ts : List Tx) (height : ℕ) (timestamp : ℤ) (params : Params)
      → ((t : Tx) → In t ts → si.codec.tx_hash t.msg_tx ≢ h)
      → (w : World si)
      → SameAt w.db (for_each si ts (λ t. handle_tx si t.msg_tx height timestamp params) w).1.db
  txs-same ts height timestamp params ne w =
      (BlockSteps.for_all-Steps (OfDb-IsPreorder SameAt same trans) Any any ts _
          (λ t i. tx-Steps t.msg_tx height timestamp params (ne t i))).at
        w tt

  save-Steps : (height : ℕ) → Steps Kept Any (writes (si.store.save_last_processed_height height))
  save-Steps = save_height-Steps SameAt same laws Any λ height s t a. a.staking h

  pub finish-same :
      (height : ℕ) (w : World si)
      → SameAt w.db
          ((writes (si.store.save_last_processed_height height) >>= λ _.
              emit_confirmed_info si height)
            w).1.db
  finish-same height w =
      (BlockSteps.finish-Steps (OfDb-IsPreorder SameAt same trans) (OfDb-Pushes SameAt same) Any any
          save-Steps height).at
        w tt

  pub blocks-same :
      (bs : List IndexedBlock)
      → ((b : IndexedBlock) → In b bs → (t : Tx) → In t b.txs → si.codec.tx_hash t.msg_tx ≢ h)
      → (w : World si) → SameAt w.db (handle_confirmed_blocks si bs w).1.db
  blocks-same bs ne w =
      let pre = OfDb-IsPreorder SameAt same trans in
      let pushes = OfDb-Pushes SameAt same in
      (BlockSteps.handle_confirmed_blocks-Steps pre pushes Any any save-Steps bs λ b i.
          BlockSteps.handle_confirmed_block-Steps pre pushes Any any save-Steps b
            λ params t v j. tx-Steps t.msg_tx _ _ params (ne b i t j)).at
        w tt

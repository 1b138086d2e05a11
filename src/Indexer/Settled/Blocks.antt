-- ===== src/Indexer/Settled/Blocks.antt =====
-- The transactions of blocks that were handled without an error are settled, and handling the blocks
-- again changes no record.
use staking_indexer.Prelude.{ℕ, ℤ, to_u64, List, [], ◌∷◌, ◌≡◌, sym, inl, inr, In}
use staking_indexer.Prelude.Result.{ok}
use staking_indexer.Wire.{MsgTx, TxIn}
use staking_indexer.Wire.Blocks.{Tx, IndexedBlock}
use staking_indexer.Indexer.Types.{StakingIndexer, World, Params}
use staking_indexer.Indexer.Exec.Ensures.{Ensures, Ensures-bind, Ensures-bind-lift}
use staking_indexer.Indexer.StartHeight.{get_versioned_params}
use staking_indexer.Indexer.Spent.Exact.{get_spent_staking_txs-cong}
use staking_indexer.Indexer.Block.{
  for_each, handle_tx, handle_confirmed_block, handle_confirmed_blocks,
}
use staking_indexer.Indexer.Ledger.{Reach}
use staking_indexer.Indexer.Ledger.Laws.{IndexerLaws}
use staking_indexer.Indexer.Ledger.Records.{IsKeyed, Reach-IsKeyed}
use staking_indexer.Indexer.Refines.Blocks as Refines
use staking_indexer.Indexer.Settled.{
  Apart, TxsOrdered, IsOrdered, Settled, AreSettled, SameRecords, SameRecords-refl,
}
use staking_indexer.Indexer.Settled.Frame.{SameAt, txs-same, finish-same, blocks-same}
use staking_indexer.Indexer.Settled.Calls.{OwnDuplicates, Reach-HasStaking, Reach-HasUnbonding}
use staking_indexer.Indexer.Settled.First.{handle_tx-Settled}
use staking_indexer.Indexer.Settled.Again.{blocks-Steps}

module _ {si : StakingIndexer} (laws : IndexerLaws si) where
  -- A settled transaction stays settled while the records that its inputs name read the same.
  Settled-later :
      (tx : MsgTx) (params : Params) (w u : World si)
      → Reach si w u
      → ((t : TxIn) → In t tx.tx_in → SameAt laws t.previous_out_point.hash w.db u.db)
      → Settled si tx params w.db
      → Settled si tx params u.db
  Settled-later tx params w u r same z = record {
    staking = λ d p valid. Reach-HasStaking w u _ r (z.staking d p valid);
    unbonding = λ s old i v valid. Reach-HasUnbonding w u _ r (
        z.unbonding s old (get_spent_staking_txs-cong si tx u.db w.db s (λ t j. sym (same t j)) i) v
          valid);
  }

  module _ (own : OwnDuplicates si) where
    txs-Settled :
        (ts : List Tx) (later : List IndexedBlock) (height : ℕ) (timestamp : ℤ) (params : Params)
        → get_versioned_params si height ≡ ok params
        → TxsOrdered si ts later
        → Ensures
            (IsKeyed si)
            (λ _ v. (t : Tx) → In t ts → Settled si t.msg_tx params v.db)
            (for_each si ts (λ t. handle_tx si t.msg_tx height timestamp params))
    unfolding for_each
    txs-Settled [] later height timestamp params v o = record { at = λ w a k h t i. elim i [ ] }
    txs-Settled (x ∷ ts) later height timestamp params v o =
        Ensures-bind _ _ (λ _ w. IsKeyed si w × Settled si x.msg_tx params w.db) _ _
          (record {
            at = λ w a k h. (
              Reach-IsKeyed laws w _
                  ((Refines.handle_tx-Steps laws x.msg_tx height timestamp params v).at w k) k,
              (handle_tx-Settled laws own x.msg_tx height timestamp params v o.0).at w a k h,
            );
          })
          λ _. record {
            at = λ w a q h t i. elim i [
              | inl e ↦ rw e (
                  Settled-later x.msg_tx params w _
                    ((Refines.txs-Steps laws ts height timestamp params v).at w q.0)
                    (λ j m. txs-same laws _ ts height timestamp params (λ y n. o.1 y n j m) w) q.1)
              | inr n ↦ (txs-Settled ts later height timestamp params v o.3).at w a q.0 h t n
            ];
          }

    block-Settled :
        (b : IndexedBlock) (later : List IndexedBlock)
        → TxsOrdered si b.txs later
        → Ensures
            (IsKeyed si)
            (λ _ w.
              (params : Params) (t : Tx)
              → get_versioned_params si (to_u64 b.height) ≡ ok params
              → In t b.txs
              → Settled si t.msg_tx params w.db)
            (handle_confirmed_block si b)
    unfolding handle_confirmed_block
    block-Settled b later o = Ensures-bind-lift _ _ _ _ λ params v.
        Ensures-bind _ _
          (λ _ w. IsKeyed si w × ((t : Tx) → In t b.txs → Settled si t.msg_tx params w.db)) _ _
          (record {
            at = λ w a k h. (
              Reach-IsKeyed laws w _
                  ((Refines.txs-Steps laws b.txs _ b.header.timestamp params v).at w k) k,
              (txs-Settled b.txs later _ b.header.timestamp params v o).at w a k h,
            );
          })
          λ _. record {
            at = λ w a q h params' t v' i.
                let same : params ≡ params' = cc in
                rw (← same) (
                  Settled-later t.msg_tx params w _
                    ((Refines.finish-Steps laws (to_u64 b.height)).at w q.0)
                    (λ j m. finish-same laws _ (to_u64 b.height) w) (q.1 t i));
          }

    later-Apart :
        (ts : List Tx) (later : List IndexedBlock)
        → TxsOrdered si ts later
        → (t : Tx) → In t ts
        → (b : IndexedBlock) → In b later
        → (y : Tx) → In y b.txs
        → Apart si t.msg_tx y.msg_tx
    later-Apart [] later o t i = elim i [ ]
    later-Apart (x ∷ ts) later o t (inl e) = rw e o.2
    later-Apart (x ∷ ts) later o t (inr i) = later-Apart ts later o.3 t i

    blocks-Settled :
        (bs : List IndexedBlock)
        → IsOrdered si bs
        → Ensures (IsKeyed si) (λ _ w. AreSettled si bs w.db) (handle_confirmed_blocks si bs)
    unfolding handle_confirmed_blocks for_each
    blocks-Settled [] o = record { at = λ w a k h b params t i. elim i [ ] }
    blocks-Settled (b ∷ bs) o =
        Ensures-bind _ _
          (λ _ w.
            IsKeyed si w
            × ((params : Params) (t : Tx)
                → get_versioned_params si (to_u64 b.height) ≡ ok params
                → In t b.txs
                → Settled si t.msg_tx params w.db))
          _ _
          (record {
            at = λ w a k h. (
              Reach-IsKeyed laws w _ ((Refines.handle_confirmed_block-Steps laws b).at w k) k,
              (block-Settled b bs o.0).at w a k h,
            );
          })
          λ _. record {
            at = λ w a q h c params t i v j. elim i [
              | inl e ↦
                  Settled-later t.msg_tx params w _
                    ((Refines.handle_confirmed_blocks-Steps laws bs).at w q.0)
                    (λ n m.
                      blocks-same laws _ bs
                        (λ b' i' y n'. later-Apart b.txs bs o.0 t (rw (← e) j) b' i' y n' n m) w)
                    (q.1 params t (rw (← e) v) (rw (← e) j))
              | inr i' ↦ (blocks-Settled bs o.1).at w a q.0 h c params t i' v j
            ];
          }

    -- Where some confirmed blocks were handled successfully, handling any of them again, in any
    -- number and order, changes no staking record, no unbonding record and not the TVL, whether it
    -- succeeds, fails or panics: from a state whose staking records are stored under the hashes of
    -- their transactions, where no transaction spends itself or a later one, and only the store
    -- reports duplicates, truly.
    pub handle_confirmed_blocks_again :
        (bs : List IndexedBlock) (w : World si)
        → IsKeyed si w
        → IsOrdered si bs
        → (handle_confirmed_blocks si bs w).0 ≡ ok tt
        → (cs : List IndexedBlock) → ((c : IndexedBlock) → In c cs → In c bs)
        → SameRecords si
            (handle_confirmed_blocks si bs w).1.db
            (handle_confirmed_blocks si cs (handle_confirmed_blocks si bs w).1).1.db
    handle_confirmed_blocks_again bs w k o h cs sub =
        let u = (handle_confirmed_blocks si bs w).1 in
        let z = (blocks-Settled bs o).at w tt k h in
        (blocks-Steps laws u.db cs (λ b params t i. z b params t (sub b i))).at u
          (SameRecords-refl u.db)

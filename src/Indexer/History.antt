-- ===== src/Indexer/History.antt =====
-- What the handling of confirmed blocks guarantees, whether it succeeds, fails or panics: the runs
-- of Ledger.antt, read off the code.
use staking_indexer.Prelude.{ℕ, ◌+◌, ◌≤◌, some, List, ◌≡◌}
use staking_indexer.Prelude.Result.{ok}
use staking_indexer.Wire.{Hash}
use staking_indexer.Wire.Blocks.{IndexedBlock}
use staking_indexer.Store.Record.{StoredStakingTransaction, StoredUnbondingTransaction}
use staking_indexer.Indexer.Types.{StakingIndexer, World}
use staking_indexer.Prelude.{Extends}
use staking_indexer.Indexer.Block.{handle_confirmed_blocks}
use staking_indexer.Indexer.Ledger.{Reach}
use staking_indexer.Indexer.Ledger.Laws.{IndexerLaws}
use staking_indexer.Indexer.Ledger.Records.{IsKeyed, Reach-staking, Reach-unbonding}
use staking_indexer.Indexer.Ledger.Announced.{IsAnnounced, Reach-IsAnnounced, Reach-Extends}
use staking_indexer.Indexer.Ledger.Tvl.{Tvl, staked_value, unbonded_value}
use staking_indexer.Indexer.Ledger.Cap.{IsCapped, Reach-Tvl_within}
use staking_indexer.Indexer.Refines.Blocks.{handle_confirmed_blocks-Steps}

module _ {si : StakingIndexer} (laws : IndexerLaws si) (bs : List IndexedBlock) (w : World si)
    (k : IsKeyed si w) where
  -- From a state whose staking records are stored under the hashes of their transactions, the
  -- handling of confirmed blocks takes steps of the ledger only, whether it succeeds, fails or
  -- panics: staking transactions that parse and are valid under the parameters of their height and
  -- that were absent, valid unbonding transactions of stored staking transactions, events, and
  -- heights.
  pub handle_confirmed_blocks-Reach : Reach si w (handle_confirmed_blocks si bs w).1
  handle_confirmed_blocks-Reach = (handle_confirmed_blocks-Steps laws bs).at w k

  -- From a state whose staking records are stored under the hashes of their transactions, no
  -- staking record and no unbonding record that can be read is changed or lost, and the events
  -- that were taken stay, in order, before the new ones.
  pub handle_confirmed_blocks-keeps :
      ((h : Hash) (st : StoredStakingTransaction)
        → si.store.get_staking_transaction h w.db ≡ ok (some st)
        → si.store.get_staking_transaction h (handle_confirmed_blocks si bs w).1.db ≡ ok (some st))
      × ((h : Hash) (ut : StoredUnbondingTransaction)
          → si.store.get_unbonding_transaction h w.db ≡ ok (some ut)
          → si.store.get_unbonding_transaction h (handle_confirmed_blocks si bs w).1.db
            ≡ ok (some ut))
      × Extends w.sent (handle_confirmed_blocks si bs w).1.sent
  handle_confirmed_blocks-keeps =
      let r = handle_confirmed_blocks-Reach in
      (
        λ h st e. Reach-staking laws w _ h st r e,
        λ h ut e. Reach-unbonding laws w _ h ut r e,
        Reach-Extends w _ r,
      )

  -- From a state whose staking records are stored under the hashes of their transactions, if every
  -- stored record was announced to the consumer, then every stored record was announced
  -- afterwards: a staking record by an active staking event with its fields and its overflow flag,
  -- an unbonding record by an unbonding event with its two hashes.
  pub handle_confirmed_blocks-IsAnnounced :
      IsAnnounced si w → IsAnnounced si (handle_confirmed_blocks si bs w).1
  handle_confirmed_blocks-IsAnnounced a = Reach-IsAnnounced laws w _ handle_confirmed_blocks-Reach a

  -- From a state whose staking records are stored under the hashes of their transactions with a
  -- TVL of at most `bound`, where every version of the parameters has no cap height, a minimal
  -- amount that is not negative, and a cap and maximal amount that together exceed `bound` by one
  -- at most: the TVL can be read afterwards, is at most `bound`, and is the old one with the
  -- active staking values that a run of the ledger added, less those that it unbonded.
  pub handle_confirmed_blocks-Tvl :
      (bound : ℕ)
      → IsCapped si bound
      → (t : ℕ) → Tvl w t
      → t ≤ bound
      → (r : Reach si w (handle_confirmed_blocks si bs w).1) × (t' : ℕ) × Tvl
          (handle_confirmed_blocks si bs w).1
          t'
        × (t' ≤ bound)
        × (t' + unbonded_value r ≡ t + staked_value r)
  handle_confirmed_blocks-Tvl bound capped t e le =
      let r = handle_confirmed_blocks-Reach in
      let (t', e', le', q) = Reach-Tvl_within bound capped r t e le in (r, t', e', le', q)

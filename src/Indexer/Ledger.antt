-- ===== src/Indexer/Ledger.antt =====
-- The abstract view of a run of the indexer: what one step may do to the database and to the
-- events, with the reason for which it is done.
pub mod Laws
pub mod Records
pub mod Announced
pub mod Tvl
pub mod Cap
use staking_indexer.Prelude.{ℕ, ℤ, Bool, true, Bytes, Option, none, some, List, [], ◌∷◌, ◌++◌, ◌≡◌}
use staking_indexer.Prelude.Result.{ok}
use staking_indexer.Wire.{Hash, MsgTx}
use staking_indexer.Store.Record.{StoredStakingTransaction}
use staking_indexer.Store.Interface.{AddedStaking, AddedUnbonding, SavedHeight}
use staking_indexer.Indexer.Types.{StakingIndexer, World, Event, Params, ParsedStakingTx}
use staking_indexer.Indexer.StartHeight.{get_versioned_params}
use staking_indexer.Indexer.Staking.{try_parse_staking_tx}
use staking_indexer.Indexer.Spending.{is_valid_unbonding_tx}
use staking_indexer.Indexer.Process.{
  decide_overflow, stored_staking_tx, staking_event, unbonding_event,
}

-- The record is stored under the hash of its transaction.
abbrev pub Known : (si : StakingIndexer) → StoredStakingTransaction → World si → Type 0
Known si st w = si.store.get_staking_transaction (si.codec.tx_hash st.tx) w.db ≡ ok (some st)

module _ (si : StakingIndexer) where
  -- `staked`: a transaction that parses as staking under the parameters of its height, and is valid
  -- under them, was announced and stored, with the overflow flag that the TVL before it gives.
  -- `unbonded`: a valid unbonding transaction of a stored staking transaction was announced and
  -- stored. `pushed`: an event, with no change of the database.
  pub data Step (w u : World si) : Type 0 where
    staked :
        (tx : MsgTx) (staking_data : ParsedStakingTx) (height : ℕ) (timestamp : ℤ) (params : Params)
        (overflow : Bool) (tx_hex : Bytes)
        → get_versioned_params si height ≡ ok params
        → try_parse_staking_tx si tx params ≡ ok staking_data
        → decide_overflow si none staking_data height params w.db ≡ ok (some overflow)
        → AddedStaking si.codec si.store
            (stored_staking_tx si tx staking_data height overflow)
            w.db
            u.db
        → u.sent
          ≡ w.sent
            ++ staking_event si
                (stored_staking_tx si tx staking_data height overflow)
                timestamp
                tx_hex
              ∷ []
        → Step w u
    unbonded :
        (tx : MsgTx) (st : StoredStakingTransaction) (height : ℕ) (timestamp : ℤ) (params : Params)
        (tx_hex : Bytes)
        → Known si st w
        → get_versioned_params si st.inclusion_height ≡ ok params
        → is_valid_unbonding_tx si tx st params ≡ ok true
        → AddedUnbonding si.codec si.store tx (si.codec.tx_hash st.tx) w.db u.db
        → u.sent
          ≡ w.sent
            ++ unbonding_event si tx (si.codec.tx_hash st.tx) height timestamp params tx_hex ∷ []
        → Step w u
    pushed : (e : Event) → u.db ≡ w.db → u.sent ≡ w.sent ++ e ∷ [] → Step w u
    saved :
        (height : ℕ) → SavedHeight si.codec si.store height w.db u.db → u.sent ≡ w.sent → Step w u

  pub data Reach (w : World si) : World si → Type 0 where
    here : Reach w w
    next : {u v : World si} → Reach w u → Step u v → Reach w v

module _ {si : StakingIndexer} where
  pub Reach-trans : (w u v : World si) → Reach si w u → Reach si u v → Reach si w v
  Reach-trans w u v p here = p
  Reach-trans w u v p (next q s) = next (Reach-trans w u _ p q) s

  pub Reach-one : {w u : World si} → Step si w u → Reach si w u
  Reach-one s = next here s

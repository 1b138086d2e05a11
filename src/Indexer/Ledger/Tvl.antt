-- ===== src/Indexer/Ledger/Tvl.antt =====
-- The confirmed TVL along a run of the ledger: conservation, and the bound that the caps give.
use staking_indexer.Prelude.{
  ℕ, ◌+◌, ◌-◌, ◌<◌, to_u64, Bool, true, false, some, ◌≡◌, ◌∙◌, refl, ap, u64_mod, arith,
}
use staking_indexer.Prelude.Result.{ok}
use staking_indexer.Wire.{MsgTx}
use staking_indexer.Store.Record.{StoredStakingTransaction}
use staking_indexer.Store.Interface.{AddedStaking, AddedUnbonding}
use staking_indexer.Indexer.Types.{StakingIndexer, World}
use staking_indexer.Indexer.Process.{stored_staking_tx}
use staking_indexer.Indexer.Ledger.{Step, Reach, staked, unbonded, pushed, saved, here, next}

-- The value if the flag is off: an overflow does not count.
abbrev pub counted : Bool → ℕ → ℕ
counted true v = 0
counted false v = v

module _ {si : StakingIndexer} where
  -- What a step added to the TVL, and what it took from it.
  abbrev pub step_staked : {w u : World si} → Step si w u → ℕ
  step_staked (staked tx d height ts params o hex v p dec a s) =
      counted o (to_u64 d.staking_output.value)
  step_staked _ = 0

  abbrev pub step_unbonded : {w u : World si} → Step si w u → ℕ
  step_unbonded (unbonded tx st height ts params hex k v valid a s) =
      counted st.is_overflow st.staking_value
  step_unbonded _ = 0

  abbrev pub staked_value : {w u : World si} → Reach si w u → ℕ
  staked_value here = 0
  staked_value (next r s) = staked_value r + step_staked s

  abbrev pub unbonded_value : {w u : World si} → Reach si w u → ℕ
  unbonded_value here = 0
  unbonded_value (next r s) = unbonded_value r + step_unbonded s

  -- The TVL of the state is `t`.
  abbrev pub Tvl : World si → ℕ → Type 0
  Tvl w t = si.store.get_confirmed_tvl w.db ≡ ok t

  pub staked-Tvl :
      (w u : World si) (t v : ℕ) (o : Bool) (st : StoredStakingTransaction)
      → AddedStaking si.codec si.store st w.db u.db
      → st.is_overflow ≡ o
      → st.staking_value ≡ v
      → Tvl w t
      → t + counted o v < u64_mod
      → Tvl u (t + counted o v)
  staked-Tvl w u t v true st a eo ev e lt = a.tvl_overflow eo ∙ e ∙ ap ok (omega arith)
  staked-Tvl w u t v false st a eo ev e lt =
      let (x, before, after) = a.tvl_active eo in
      let same : x ≡ t = cc (before, e) in after ∙ ap ok (rw (same, ev) (omega arith))

  pub unbonded-Tvl :
      (w u : World si) (t : ℕ) (o : Bool) (tx : MsgTx) (st : StoredStakingTransaction)
      → AddedUnbonding si.codec si.store tx (si.codec.tx_hash st.tx) w.db u.db
      → si.store.get_staking_transaction (si.codec.tx_hash st.tx) w.db ≡ ok (some st)
      → st.is_overflow ≡ o
      → Tvl w t
      → (t' : ℕ) × Tvl u t' × (t' + counted o st.staking_value ≡ t)
  unbonded-Tvl w u t true tx st a k eo e = (t, a.tvl_overflow st k eo ∙ e, omega arith)
  unbonded-Tvl w u t false tx st a k eo e =
      let (x, before, le, after) = a.tvl_active st k eo in
      let same : x ≡ t = cc (before, e) in (x - st.staking_value, after, omega arith)

  pub Step-Tvl :
      {w u : World si} (s : Step si w u) (t : ℕ)
      → Tvl w t
      → t + step_staked s < u64_mod
      → (t' : ℕ) × Tvl u t' × (t' + step_unbonded s ≡ t + step_staked s)
  unfolding stored_staking_tx
  Step-Tvl {w} {u} (staked tx d height ts params o hex v p dec a s) t e lt = (
    t + counted o (to_u64 d.staking_output.value),
    staked-Tvl w u t (to_u64 d.staking_output.value) o _ a refl refl e lt,
    omega arith,
  )
  Step-Tvl {w} {u} (unbonded tx st height ts params hex k v valid a s) t e lt =
      let (t', e', q) = unbonded-Tvl w u t st.is_overflow tx st a k refl e in
      (t', e', omega (arith, q))
  Step-Tvl (pushed ev d s) t e lt = (t, rw d e, refl)
  Step-Tvl (saved height a s) t e lt = (t, a.tvl ∙ e, refl)

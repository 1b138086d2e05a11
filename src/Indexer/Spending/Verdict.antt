-- ===== src/Indexer/Spending/Verdict.antt =====
-- When a transaction is taken for a valid unbonding transaction.
use staking_indexer.Prelude.{
  Bool-cases, inl, inr, some, List, length, get_elem?, ltb, ◌≤◌, ◌-◌, ℕ, ◌%◌, ◌^◌, to_i64, [], ◌∷◌,
  ◌≢◌, ◌↔◌, bytes_eq_refl, refl, ℤ, pos, negsuc, ◌-ℤ◌, leb_ℤ, ◌≤ℤ◌, wrap_i64, Bool, true, false,
  not, Bytes, bytes_eq, ◌≡◌, ◌∙◌, ◌&&◌, sym, ap, ◌==◌, if◌then◌else◌, arith, bytes_eq→eq,
}
use staking_indexer.Prelude.Result.{Result, ok, guard, guard-ok, with_ok}
use staking_indexer.Wire.{MsgTx, TxIn, TxOut}
use staking_indexer.Store.Record.{StoredStakingTransaction}
use staking_indexer.Indexer.Types.{StakingIndexer, Params, StakingInfo, UnbondingInfo, InfoRequest}
use staking_indexer.Prelude.{eq_of_parts, ==→eq}
use staking_indexer.Indexer.Exec.{index, script_from_witness}
use staking_indexer.Indexer.Exec.Index.{index-some, some-index}
use staking_indexer.Indexer.Spending.{
  max_tx_in_sequence_num, eq_ℤ, staking_request, unbonding_request, spends_staking_output,
  unlocks_unbonding_path, check_unbonding_output, is_valid_unbonding_tx,
}

eq_ℤ→eq : (a b : ℤ) → eq_ℤ a b ≡ true → a ≡ b
eq_ℤ→eq a b h = eq_of_parts a b (ground arith)

eq_ℤ_refl : (a : ℤ) → eq_ℤ a a ≡ true
eq_ℤ_refl a = ground arith

leb_ℤ-not : (z : ℤ) → pos 1 ≤ℤ z → not (leb_ℤ z (pos 0)) ≡ true
leb_ℤ-not (pos n) h = ground arith
leb_ℤ-not (negsuc n) h = ground arith

-- A positive integer is not at most zero.
not-leb_ℤ : (z : ℤ) → not (leb_ℤ z (pos 0)) ≡ true → pos 1 ≤ℤ z
not-leb_ℤ (pos n) h = ground arith
not-leb_ℤ (negsuc n) h = ground arith

ok-injective : {a b : Bool} → ok a ≡ ok b → a ≡ b
ok-injective h = cc

-- The early return of `false` was not taken.
if_not-true : (b : Bool) (r : Result Bool) → (if not b then ok false else r) ≡ ok true → b ≡ true
if_not-true b r h = ground arith

and-left : (a b : Bool) → (a && b) ≡ true → a ≡ true
and-left a b h = ground arith

and-right : (a b : Bool) → (a && b) ≡ true → b ≡ true
and-right a b h = ground arith

-- The script of a witness is its last item but one.
from_witness :
    (w : List Bytes) (script : Bytes)
    → script_from_witness w ≡ ok script
    → (2 ≤ length w) × (get_elem? w (length w - 2) ≡ some script)
unfolding script_from_witness
from_witness w script e = elim (Bool-cases (ltb (length w) 2)) [
  | inl q ↦ absurd (cc (rw (q, script_from_witness) at e))
  | inr q ↦
      (ground (arith, q), index-some w (length w - 2) script (rw (q, script_from_witness) at e))
]

witness_script :
    (w : List Bytes) (script : Bytes)
    → 2 ≤ length w
    → get_elem? w (length w - 2) ≡ some script
    → script_from_witness w ≡ ok script
unfolding script_from_witness
witness_script w script l e =
    let q : ltb (length w) 2 ≡ false = ground (arith, l) in
    let i = some-index w (length w - 2) script e in rw (q, i, script_from_witness) refl

module _ (si : StakingIndexer) where
  -- The keys of the record, and the covenant of the parameters, with a lock time and an amount.
  abbrev pub outputs_of : StoredStakingTransaction → Params → ℕ → ℤ → InfoRequest
  outputs_of st params time amount = record {
    staker_pk = st.staker_pk;
    finality_provider_pks = st.finality_provider_pk ∷ [];
    covenant_pks = params.covenant_pks;
    covenant_quorum = params.covenant_quorum;
    time = time;
    amount = amount;
  }

  -- The witness of the input carries the unbonding path script of the staking output, which is rebuilt
  -- for the staking time and the staking value of the record.
  pub record UnlocksPath (tx_in : TxIn) (st : StoredStakingTransaction) (params : Params)
      : Type 0 where
    pub staking_info : StakingInfo
    pub rebuilt :
        si.btc.build_staking_info
          (outputs_of st params (st.staking_time % 2 ^ 16) (to_i64 st.staking_value))
        ≡ ok staking_info
    pub script : Bytes
    pub path : staking_info.unbonding_path ≡ ok script
    pub two_items : 2 ≤ length tx_in.witness
    pub unlocked : get_elem? tx_in.witness (length tx_in.witness - 2) ≡ some script

  -- No replacement, no lock time, and the unbonding output of the parameters: the script, for the
  -- unbonding time, and the staking value less the unbonding fee, which is positive.
  pub record PaysUnbondingOutput (tx : MsgTx) (tx_in : TxIn) (st : StoredStakingTransaction)
      (params : Params) : Type 0 where
    pub no_replacement : tx_in.sequence ≡ 0xffffffff
    pub no_lock_time : tx.lock_time ≡ 0
    pub staking_output : TxOut
    pub staked : get_elem? st.tx.tx_out st.staking_output_idx ≡ some staking_output
    pub positive : pos 1 ≤ℤ wrap_i64 (staking_output.value -ℤ params.unbonding_fee)
    pub unbonding_info : UnbondingInfo
    pub expected :
        si.btc.build_unbonding_info (
          outputs_of st params params.unbonding_time
            (wrap_i64 (staking_output.value -ℤ params.unbonding_fee)))
        ≡ ok unbonding_info
    pub out : TxOut
    pub first_output : get_elem? tx.tx_out 0 ≡ some out
    pub same_script : out.pk_script ≡ unbonding_info.unbonding_output.pk_script
    pub same_value : out.value ≡ unbonding_info.unbonding_output.value

  -- A transfer whose first input spends the staking output, by the unbonding path.
  pub record SpendsByUnbondingPath (tx : MsgTx) (st : StoredStakingTransaction) (params : Params)
      : Type 0 where
    pub transfer : si.btc.is_transfer_tx tx ≡ true
    pub tx_in : TxIn
    pub first_input : get_elem? tx.tx_in 0 ≡ some tx_in
    pub spends_tx : tx_in.previous_out_point.hash ≡ si.codec.tx_hash st.tx
    pub spends_output : tx_in.previous_out_point.index ≡ st.staking_output_idx
    pub unlocks : UnlocksPath tx_in st params

  -- It spends so, into the unbonding output.
  pub record IsUnbonding (tx : MsgTx) (st : StoredStakingTransaction) (params : Params)
      : Type 0 where
    pub spends : SpendsByUnbondingPath tx st params
    pub pays : PaysUnbondingOutput tx spends.tx_in st params

  unlocks-UnlocksPath :
      (tx_in : TxIn) (st : StoredStakingTransaction) (params : Params)
      → unlocks_unbonding_path si tx_in st params ≡ ok true
      → UnlocksPath tx_in st params
  unfolding unlocks_unbonding_path staking_request
  unlocks-UnlocksPath tx_in st params h =
      with_ok (si.btc.build_staking_info (staking_request st params)) _ h λ info e1 h1.
        with_ok info.unbonding_path _ h1 λ path e2 h2.
          with_ok (script_from_witness tx_in.witness) _ h2 λ script e3 h3.
            let same : path ≡ script = bytes_eq→eq path script (ok-injective h3) in
            record {
              staking_info = info;
              rebuilt = e1;
              script = path;
              path = e2;
              two_items = (from_witness tx_in.witness script e3).0;
              unlocked = (from_witness tx_in.witness script e3).1 ∙ ap some (sym same);
            }

  check-PaysUnbondingOutput :
      (tx : MsgTx) (tx_in : TxIn) (st : StoredStakingTransaction) (params : Params)
      → check_unbonding_output si tx tx_in st params ≡ ok true
      → PaysUnbondingOutput tx tx_in st params
  unfolding check_unbonding_output unbonding_request
  check-PaysUnbondingOutput tx tx_in st params h =
      with_ok (guard (tx_in.sequence == max_tx_in_sequence_num) _) _ h λ _ g1 h1.
        with_ok (guard (tx.lock_time == 0) _) _ h1 λ _ g2 h2.
          with_ok (index st.tx.tx_out st.staking_output_idx) _ h2 λ so e3 h3.
            with_ok (guard (not (leb_ℤ (wrap_i64 (so.value -ℤ params.unbonding_fee)) (pos 0))) _) _
              h3
              λ _ g4 h4. with_ok (si.btc.build_unbonding_info _) _ h4 λ info e5 h5.
                with_ok (index tx.tx_out 0) _ h5 λ out e6 h6.
                  with_ok (guard (bytes_eq out.pk_script info.unbonding_output.pk_script) _) _ h6
                    λ _ g7 h7.
                      with_ok (guard (eq_ℤ out.value info.unbonding_output.value) _) _ h7 λ _ g8 h8.
                        record {
                          no_replacement = ==→eq _ _ (guard-ok _ _ g1);
                          no_lock_time = ==→eq _ _ (guard-ok _ _ g2);
                          staking_output = so;
                          staked = index-some _ _ _ e3;
                          positive = not-leb_ℤ _ (guard-ok _ _ g4);
                          unbonding_info = info;
                          expected = e5;
                          out = out;
                          first_output = index-some _ _ _ e6;
                          same_script = bytes_eq→eq _ _ (guard-ok _ _ g7);
                          same_value = eq_ℤ→eq _ _ (guard-ok _ _ g8);
                        }

  UnlocksPath-unlocks :
      (tx_in : TxIn) (st : StoredStakingTransaction) (params : Params)
      → UnlocksPath tx_in st params
      → unlocks_unbonding_path si tx_in st params ≡ ok true
  unfolding unlocks_unbonding_path staking_request
  UnlocksPath-unlocks tx_in st params u =
      let w = witness_script tx_in.witness u.script u.two_items u.unlocked in
      rw (u.rebuilt, u.path, w, bytes_eq_refl u.script) refl

  PaysUnbondingOutput-check :
      (tx : MsgTx) (tx_in : TxIn) (st : StoredStakingTransaction) (params : Params)
      → PaysUnbondingOutput tx tx_in st params
      → check_unbonding_output si tx tx_in st params ≡ ok true
  unfolding check_unbonding_output unbonding_request
  PaysUnbondingOutput-check tx tx_in st params p =
      let a : (tx_in.sequence == max_tx_in_sequence_num) ≡ true = rw p.no_replacement refl in
      let b : (tx.lock_time == 0) ≡ true = rw p.no_lock_time refl in
      let c = leb_ℤ-not _ p.positive in
      let d : bytes_eq p.out.pk_script p.unbonding_info.unbonding_output.pk_script ≡ true =
        rw p.same_script (bytes_eq_refl p.unbonding_info.unbonding_output.pk_script) in
      let e : eq_ℤ p.out.value p.unbonding_info.unbonding_output.value ≡ true =
        rw p.same_value (eq_ℤ_refl p.unbonding_info.unbonding_output.value) in
      let f = some-index st.tx.tx_out st.staking_output_idx p.staking_output p.staked in
      let g = some-index tx.tx_out 0 p.out p.first_output in
      rw (a, b, f, c, p.expected, g, d, e, check_unbonding_output) refl

  check-not_false :
      (tx : MsgTx) (tx_in : TxIn) (st : StoredStakingTransaction) (params : Params)
      → check_unbonding_output si tx tx_in st params ≢ ok false
  unfolding check_unbonding_output
  check-not_false tx tx_in st params h =
      with_ok (guard (tx_in.sequence == max_tx_in_sequence_num) _) _ h λ _ _ h1.
        with_ok (guard (tx.lock_time == 0) _) _ h1 λ _ _ h2.
          with_ok (index st.tx.tx_out st.staking_output_idx) _ h2 λ so _ h3.
            with_ok (guard (not (leb_ℤ (wrap_i64 (so.value -ℤ params.unbonding_fee)) (pos 0))) _) _
              h3
              λ _ _ h4. with_ok (si.btc.build_unbonding_info _) _ h4 λ info _ h5.
                with_ok (index tx.tx_out 0) _ h5 λ out _ h6.
                  with_ok (guard (bytes_eq out.pk_script info.unbonding_output.pk_script) _) _ h6
                    λ _ _ h7.
                      with_ok (guard (eq_ℤ out.value info.unbonding_output.value) _) _ h7
                        λ _ _ h8. cc

  -- What is checked of a transaction that spends by the unbonding path is the unbonding output.
  spends-check :
      (tx : MsgTx) (st : StoredStakingTransaction) (params : Params)
      (s : SpendsByUnbondingPath tx st params)
      → is_valid_unbonding_tx si tx st params ≡ check_unbonding_output si tx s.tx_in st params
  unfolding is_valid_unbonding_tx spends_staking_output
  spends-check tx st params s =
      let same : (st.staking_output_idx == st.staking_output_idx) ≡ true = ground arith in
      let first = some-index tx.tx_in 0 s.tx_in s.first_input in
      let spent : spends_staking_output si s.tx_in st ≡ true =
        rw
          (
            s.spends_tx,
            s.spends_output,
            bytes_eq_refl (si.codec.tx_hash st.tx),
            same,
            spends_staking_output,
          )
          refl in
      rw
        (
          s.transfer,
          first,
          spent,
          UnlocksPath-unlocks s.tx_in st params s.unlocks,
          is_valid_unbonding_tx,
        )
        refl

  valid-IsUnbonding :
      (tx : MsgTx) (st : StoredStakingTransaction) (params : Params)
      → is_valid_unbonding_tx si tx st params ≡ ok true
      → IsUnbonding tx st params
  unfolding is_valid_unbonding_tx spends_staking_output
  valid-IsUnbonding tx st params h =
      let e0 : si.btc.is_transfer_tx tx ≡ true = ground arith in
      with_ok (index tx.tx_in 0) _ (rw e0 at h) λ i e1 h1.
        let e2 : spends_staking_output si i st ≡ true = if_not-true _ _ h1 in
        with_ok (unlocks_unbonding_path si i st params) _ (rw (e2, is_valid_unbonding_tx) at h1)
          λ u e3 h3.
            let e4 : u ≡ true = if_not-true _ _ h3 in
            record {
              spends = record {
                transfer = e0;
                tx_in = i;
                first_input = index-some _ _ _ e1;
                spends_tx = bytes_eq→eq _ _ (and-left _ _ e2);
                spends_output = ==→eq _ _ (and-right _ _ e2);
                unlocks = unlocks-UnlocksPath i st params (e3 ∙ ap ok e4);
              };
              pays = check-PaysUnbondingOutput tx i st params (rw e4 at h3);
            }

  -- A transaction is taken for a valid unbonding transaction of a staking transaction exactly when it
  -- is one: it is a transfer, its first input spends the staking output, by its hash and its index, and
  -- unlocks its unbonding path, as it is rebuilt from the keys, the staking time and the value of the
  -- record and the covenant keys and quorum of the parameters; it neither allows replacement nor sets a
  -- lock time, and its first output has the script and the value of the unbonding output, which is
  -- rebuilt from the same keys and quorum, the unbonding time of the parameters and the staking value
  -- less the unbonding fee, which is positive. It is passed over as no unbonding transaction, without
  -- an error, only if it is no transfer that spends the staking output so.
  pub is_valid_unbonding_tx-IsUnbonding :
      (tx : MsgTx) (st : StoredStakingTransaction) (params : Params)
      → ((is_valid_unbonding_tx si tx st params ≡ ok true) ↔ IsUnbonding tx st params)
        × (is_valid_unbonding_tx si tx st params ≡ ok false → ¬ SpendsByUnbondingPath tx st params)
  is_valid_unbonding_tx-IsUnbonding tx st params = (
    (
      valid-IsUnbonding tx st params,
      λ u.
          spends-check tx st params u.spends
          ∙ PaysUnbondingOutput-check tx u.spends.tx_in st params u.pays,
    ),
    λ h s. check-not_false tx s.tx_in st params (sym (spends-check tx st params s) ∙ h),
  )

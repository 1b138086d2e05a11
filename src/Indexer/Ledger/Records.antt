-- ===== src/Indexer/Ledger/Records.antt =====
-- Records are never changed or lost: a step keeps every record that is stored, and stores a record
-- under the hash of its transaction.
use staking_indexer.Prelude.{
  bytes_eq, some, ◌≡◌, ◌≢◌, ◌⊎◌, ◌∙◌, sym, ap, arith, inl, inr, Bool-cases, bytes_eq_refl,
  bytes_eq→eq,
}
use staking_indexer.Prelude.Result.{ok}
use staking_indexer.Wire.{Hash, MsgTx, IsXOnly}
use staking_indexer.Store.Record.{StoredStakingTransaction, StoredUnbondingTransaction}
use staking_indexer.Indexer.Types.{StakingIndexer, World, Params, ParsedStakingTx}
use staking_indexer.Indexer.Staking.{try_parse_staking_tx}
use staking_indexer.Indexer.Process.{stored_staking_tx}
use staking_indexer.Indexer.Ledger.{Step, Reach, staked, unbonded, pushed, saved, here, next}
use staking_indexer.Indexer.Ledger.Laws.{IndexerLaws}

-- Every staking record is stored under the hash of its transaction.
pub record IsKeyed (si : StakingIndexer) (w : World si) : Type 0 where
  pub keyed :
      (h : Hash) (st : StoredStakingTransaction)
      → si.store.get_staking_transaction h w.db ≡ ok (some st)
      → si.codec.tx_hash st.tx ≡ h

pub Hash-cases : (a b : Hash) → (a ≡ b) ⊎ (a ≢ b)
Hash-cases a b = elim (Bool-cases (bytes_eq a b)) [
  | inl e ↦ inl (bytes_eq→eq a b e)
  | inr e ↦ inr (λ q. cc (rw q at e, bytes_eq_refl b))
]

module _ {si : StakingIndexer} (laws : IndexerLaws si) where
  pub parsed-IsXOnly :
      (tx : MsgTx) (params : Params) (d : ParsedStakingTx)
      → try_parse_staking_tx si tx params ≡ ok d
      → IsXOnly si.codec d.staker_public_key × IsXOnly si.codec d.finality_provider_public_key
  unfolding try_parse_staking_tx
  parsed-IsXOnly tx params d h =
      laws.parsed_keys tx params.tag params.covenant_pks params.covenant_quorum d (ground arith)

  pub Step-staking :
      (w u : World si) (h : Hash) (st : StoredStakingTransaction)
      → Step si w u
      → si.store.get_staking_transaction h w.db ≡ ok (some st)
      → si.store.get_staking_transaction h u.db ≡ ok (some st)
  unfolding stored_staking_tx
  Step-staking w u h st (staked tx d height ts params o hex v p dec a s) e =
      elim (Hash-cases (si.codec.tx_hash tx) h) [
        | inl q ↦ cc a.was_absent
        | inr ne ↦ a.others h ne ∙ e
      ]
  Step-staking w u h st (unbonded tx st' height ts params hex k v ok' a s) e = a.staking h ∙ e
  Step-staking w u h st (pushed ev d s) e = rw d e
  Step-staking w u h st (saved height a s) e = a.staking h ∙ e

  pub Step-unbonding :
      (w u : World si) (h : Hash) (ut : StoredUnbondingTransaction)
      → Step si w u
      → si.store.get_unbonding_transaction h w.db ≡ ok (some ut)
      → si.store.get_unbonding_transaction h u.db ≡ ok (some ut)
  Step-unbonding w u h ut (staked tx d height ts params o hex v p dec a s) e = a.unbonding h ∙ e
  Step-unbonding w u h ut (unbonded tx st height ts params hex k v valid a s) e =
      elim (Hash-cases (si.codec.tx_hash tx) h) [
        | inl q ↦ cc a.was_absent
        | inr ne ↦ a.others h ne ∙ e
      ]
  Step-unbonding w u h ut (pushed ev d s) e = rw d e
  Step-unbonding w u h ut (saved height a s) e = a.unbonding h ∙ e

  -- A record of the new state is an old one, or the one that a `staked` step added.
  pub Step-IsKeyed : (w u : World si) → Step si w u → IsKeyed si w → IsKeyed si u
  unfolding stored_staking_tx
  Step-IsKeyed w u (staked tx d height ts params o hex v p dec a s) k = record {
    keyed = λ h st e. elim (Hash-cases (si.codec.tx_hash tx) h) [
      | inl q ↦
          let (ks, kf) = parsed-IsXOnly tx params d p in
          let r = a.added ks kf in
          let same : stored_staking_tx si tx d height o ≡ st = cc (r, q, e) in
          ap (λ (x : StoredStakingTransaction). si.codec.tx_hash x.tx) (sym same) ∙ q
      | inr ne ↦ k.keyed h st (sym (a.others h ne) ∙ e)
    ];
  }
  Step-IsKeyed w u (unbonded tx st' height ts params hex kn v valid a s) k = record {
    keyed = λ h st e. k.keyed h st (sym (a.staking h) ∙ e);
  }
  Step-IsKeyed w u (pushed ev d s) k = record { keyed = λ h st e. k.keyed h st (rw d at e) }
  Step-IsKeyed w u (saved height a s) k = record {
    keyed = λ h st e. k.keyed h st (sym (a.staking h) ∙ e);
  }

  -- The same for any number of steps.
  pub Reach-staking :
      (w u : World si) (h : Hash) (st : StoredStakingTransaction)
      → Reach si w u
      → si.store.get_staking_transaction h w.db ≡ ok (some st)
      → si.store.get_staking_transaction h u.db ≡ ok (some st)
  Reach-staking w u h st here e = e
  Reach-staking w u h st (next {u = v} r s) e = Step-staking v u h st s (Reach-staking w v h st r e)

  pub Reach-unbonding :
      (w u : World si) (h : Hash) (ut : StoredUnbondingTransaction)
      → Reach si w u
      → si.store.get_unbonding_transaction h w.db ≡ ok (some ut)
      → si.store.get_unbonding_transaction h u.db ≡ ok (some ut)
  Reach-unbonding w u h ut here e = e
  Reach-unbonding w u h ut (next {u = v} r s) e =
      Step-unbonding v u h ut s (Reach-unbonding w v h ut r e)

  pub Reach-IsKeyed : (w u : World si) → Reach si w u → IsKeyed si w → IsKeyed si u
  Reach-IsKeyed w u here k = k
  Reach-IsKeyed w u (next {u = v} r s) k = Step-IsKeyed v u s (Reach-IsKeyed w v r k)

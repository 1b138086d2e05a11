-- ===== src/Indexer/Ledger/Announced.antt =====
-- The events: every record that is stored was announced, with the contents of the record.
use staking_indexer.Prelude.{ℕ, ℤ, Bytes, some, List, [], ◌++◌, ◌≡◌, ◌∙◌, sym, ap, inl, inr}
use staking_indexer.Prelude.Result.{ok}
use staking_indexer.Wire.{Hash}
use staking_indexer.Store.Record.{StoredStakingTransaction, StoredUnbondingTransaction}
use staking_indexer.Indexer.Types.{StakingIndexer, World, Event, Params}
use staking_indexer.Prelude.{In, In-left, In-last, Extends, append_assoc, append-nil}
use staking_indexer.Indexer.Process.{stored_staking_tx, staking_event, unbonding_event}
use staking_indexer.Indexer.Ledger.{Step, Reach, staked, unbonded, pushed, saved, here, next}
use staking_indexer.Indexer.Ledger.Laws.{IndexerLaws}
use staking_indexer.Indexer.Ledger.Records.{Hash-cases, parsed-IsXOnly}

module _ (si : StakingIndexer) where
  -- The consumer took an active staking event with the fields of the record.
  abbrev pub StakingAnnounced : StoredStakingTransaction → List Event → Type 0
  StakingAnnounced st sent =
      (timestamp : ℤ) × (tx_hex : Bytes) × In (staking_event si st timestamp tx_hex) sent

  -- The consumer took an unbonding event for the record.
  abbrev pub UnbondingAnnounced : StoredUnbondingTransaction → List Event → Type 0
  UnbondingAnnounced ut sent =
      (height : ℕ) × (timestamp : ℤ) × (params : Params) × (tx_hex : Bytes) × In
        (unbonding_event si ut.tx ut.staking_tx_hash height timestamp params tx_hex) sent

  -- Every record of the database was announced.
  pub record IsAnnounced (w : World si) : Type 0 where
    pub staking :
        (h : Hash) (st : StoredStakingTransaction)
        → si.store.get_staking_transaction h w.db ≡ ok (some st)
        → StakingAnnounced st w.sent
    pub unbonding :
        (h : Hash) (ut : StoredUnbondingTransaction)
        → si.store.get_unbonding_transaction h w.db ≡ ok (some ut)
        → UnbondingAnnounced ut w.sent

module _ (si : StakingIndexer) where
  staking_later :
      (st : StoredStakingTransaction) (sent more : List Event)
      → StakingAnnounced si st sent
      → StakingAnnounced si st (sent ++ more)
  staking_later st sent more (ts, hex, i) = (ts, hex, In-left _ sent more i)

  unbonding_later :
      (ut : StoredUnbondingTransaction) (sent more : List Event)
      → UnbondingAnnounced si ut sent
      → UnbondingAnnounced si ut (sent ++ more)
  unbonding_later ut sent more (h, ts, params, hex, i) = (h, ts, params, hex, In-left _ sent more i)

module _ {si : StakingIndexer} where
  pub Step-Extends : (w u : World si) → Step si w u → Extends w.sent u.sent
  Step-Extends w u (staked tx d height ts params o hex v p dec a s) = (_, s)
  Step-Extends w u (unbonded tx st height ts params hex k v valid a s) = (_, s)
  Step-Extends w u (pushed e d s) = (_, s)
  Step-Extends w u (saved height a s) = ([], s ∙ sym (append-nil w.sent))

  pub Reach-Extends : (w u : World si) → Reach si w u → Extends w.sent u.sent
  Reach-Extends w u here = ([], sym (append-nil w.sent))
  Reach-Extends w u (next {u = v} r s) =
      let (xs, p) = Reach-Extends w v r in
      let (ys, q) = Step-Extends v u s in
      (xs ++ ys, q ∙ ap (λ l. l ++ ys) p ∙ append_assoc w.sent xs ys)

module _ {si : StakingIndexer} (laws : IndexerLaws si) where
  -- A step that keeps what the reads return keeps the invariant.
  same_reads-IsAnnounced :
      (w u : World si)
      → ((h : Hash)
          → si.store.get_staking_transaction h u.db ≡ si.store.get_staking_transaction h w.db)
      → ((h : Hash)
          → si.store.get_unbonding_transaction h u.db ≡ si.store.get_unbonding_transaction h w.db)
      → Extends w.sent u.sent
      → IsAnnounced si w
      → IsAnnounced si u
  same_reads-IsAnnounced w u gs gu (more, e) a = record {
    staking = λ h st q. rw e (staking_later si st w.sent more (a.staking h st (sym (gs h) ∙ q)));
    unbonding =
        λ h ut q. rw e (unbonding_later si ut w.sent more (a.unbonding h ut (sym (gu h) ∙ q)));
  }

  Step-IsAnnounced : (w u : World si) → Step si w u → IsAnnounced si w → IsAnnounced si u
  unfolding stored_staking_tx
  Step-IsAnnounced w u (staked tx d height ts params o hex v p dec a s) an = record {
    staking = λ h st q. elim (Hash-cases (si.codec.tx_hash tx) h) [
      | inl e ↦
          let (ks, kf) = parsed-IsXOnly laws tx params d p in
          let r = a.added ks kf in
          let same : stored_staking_tx si tx d height o ≡ st = cc (r, e, q) in
          (ts, hex, rw s (rw (← same) (In-last _ w.sent)))
      | inr ne ↦ rw s (staking_later si st w.sent _ (an.staking h st (sym (a.others h ne) ∙ q)))
    ];
    unbonding = λ h ut q.
        rw s (unbonding_later si ut w.sent _ (an.unbonding h ut (sym (a.unbonding h) ∙ q)));
  }
  Step-IsAnnounced w u (unbonded tx st' height ts params hex k v valid a s) an = record {
    staking =
        λ h st q. rw s (staking_later si st w.sent _ (an.staking h st (sym (a.staking h) ∙ q)));
    unbonding = λ h ut q. elim (Hash-cases (si.codec.tx_hash tx) h) [
      | inl e ↦
          let r = a.added (laws.hash_length st'.tx) in
          let same : ◌≡◌ {A = StoredUnbondingTransaction}
              (record { tx = tx; staking_tx_hash = si.codec.tx_hash st'.tx }) ut =
            cc (r, e, q) in
          (height, ts, params, hex, rw s (rw (← same) (In-last _ w.sent)))
      | inr ne ↦ rw s (unbonding_later si ut w.sent _ (an.unbonding h ut (sym (a.others h ne) ∙ q)))
    ];
  }
  Step-IsAnnounced w u (pushed e d s) an =
      same_reads-IsAnnounced w u (λ h. rw d) (λ h. rw d) (_, s) an
  Step-IsAnnounced w u (saved height a s) an =
      same_reads-IsAnnounced w u a.staking a.unbonding ([], s ∙ sym (append-nil w.sent)) an

  pub Reach-IsAnnounced : (w u : World si) → Reach si w u → IsAnnounced si w → IsAnnounced si u
  Reach-IsAnnounced w u here a = a
  Reach-IsAnnounced w u (next {u = v} r s) a = Step-IsAnnounced v u s (Reach-IsAnnounced w v r a)

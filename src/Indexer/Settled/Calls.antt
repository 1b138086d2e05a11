-- ===== src/Indexer/Settled/Calls.antt =====
-- A staking or unbonding transaction that was processed without an error has a record.
use staking_indexer.Prelude.{
  ℕ, ℤ, Bool, Bytes, List, Option, none, some, ◌≡◌, ◌≢◌, ◌⊎◌, refl, sym, ap, ◌∙◌, arith, inl, inr,
  Option-cases,
}
use staking_indexer.Prelude.Result.{Result, ok, err, panic, duplicate_transaction, Result-cases}
use staking_indexer.Wire.{Hash, MsgTx}
use staking_indexer.Store.Record.{StoredStakingTransaction}
use staking_indexer.Store.Interface.{ReportsDuplicates}
use staking_indexer.Indexer.Types.{StakingIndexer, World, Event, Params, ParsedStakingTx}
use staking_indexer.Indexer.Exec.{◌>>=◌, lift, reads, push_event}
use staking_indexer.Indexer.Exec.Ensures.{Ensures, Ensures-bind-reads}
use staking_indexer.Indexer.StartHeight.{get_versioned_params}
use staking_indexer.Indexer.Staking.{try_parse_staking_tx, validate_staking_tx}
use staking_indexer.Indexer.Process.{
  get_tx_hex, staking_event, unbonding_event, add_staking_transaction, process_staking_tx,
  process_unbonding_tx, decide_overflow, add_decided, stored_staking_tx, unless_duplicate, save,
}
use staking_indexer.Indexer.Process.Decided.{undecided}
use staking_indexer.Indexer.Block.{ignore_duplicate}
use staking_indexer.Indexer.Ledger.{Step, Reach, staked, unbonded, pushed, saved, here, next}
use staking_indexer.Indexer.Ledger.Laws.{IndexerLaws}
use staking_indexer.Indexer.Ledger.Records.{Hash-cases, parsed-IsXOnly}
use staking_indexer.Indexer.Refines.Writes.{announce}
use staking_indexer.Indexer.Refines.Process.{process_staking-Steps}

-- `ErrDuplicateTransaction` comes from the store only, and only where a record is bound.
pub record OwnDuplicates (si : StakingIndexer) : Type 0 where
  pub store : ReportsDuplicates si.codec si.store
  pub serialize : (tx : MsgTx) → si.codec.serialize tx ≢ err duplicate_transaction
  pub push : (e : Event) (sent : List Event) → si.push e sent ≢ some duplicate_transaction

unless_duplicate-ok :
    (r : Result (Unit {0}))
    → unless_duplicate r ≡ ok tt
    → (r ≡ ok tt) ⊎ (r ≡ err duplicate_transaction)
unless_duplicate-ok (ok tt) h = inl refl
unless_duplicate-ok (err duplicate_transaction) h = inr refl
unless_duplicate-ok (err e) h = cc
unless_duplicate-ok panic h = cc

unless_duplicate-err : (r : Result (Unit {0})) → unless_duplicate r ≢ err duplicate_transaction
unless_duplicate-err (ok tt) h = cc
unless_duplicate-err (err duplicate_transaction) h = cc
unless_duplicate-err (err e) h = ground arith
unless_duplicate-err panic h = cc

module _ {si : StakingIndexer} where
  -- A record is bound, readable or not.
  abbrev pub HasStaking : Hash → World si → Type 0
  HasStaking h w = si.store.get_staking_transaction h w.db ≢ ok none

  abbrev pub HasUnbonding : Hash → World si → Type 0
  HasUnbonding h w = si.store.get_unbonding_transaction h w.db ≢ ok none

  Step-HasStaking : (w u : World si) (h : Hash) → Step si w u → HasStaking h w → HasStaking h u
  unfolding stored_staking_tx
  Step-HasStaking w u h (staked tx d height ts params o hex v p dec a s) b e =
      elim (Hash-cases (si.codec.tx_hash tx) h) [
        | inl q ↦ b (rw q at a.was_absent)
        | inr ne ↦ b (sym (a.others h ne) ∙ e)
      ]
  Step-HasStaking w u h (unbonded tx st height ts params hex k v ok' a s) b e =
      b (sym (a.staking h) ∙ e)
  Step-HasStaking w u h (pushed ev d s) b e = b (rw d at e)
  Step-HasStaking w u h (saved height a s) b e = b (sym (a.staking h) ∙ e)

  Step-HasUnbonding :
      (w u : World si) (h : Hash) → Step si w u → HasUnbonding h w → HasUnbonding h u
  Step-HasUnbonding w u h (staked tx d height ts params o hex v p dec a s) b e =
      b (sym (a.unbonding h) ∙ e)
  Step-HasUnbonding w u h (unbonded tx st height ts params hex k v ok' a s) b e =
      elim (Hash-cases (si.codec.tx_hash tx) h) [
        | inl q ↦ b (rw q at a.was_absent)
        | inr ne ↦ b (sym (a.others h ne) ∙ e)
      ]
  Step-HasUnbonding w u h (pushed ev d s) b e = b (rw d at e)
  Step-HasUnbonding w u h (saved height a s) b e = b (sym (a.unbonding h) ∙ e)

  -- A bound record stays bound.
  pub Reach-HasStaking :
      (w u : World si) (h : Hash) → Reach si w u → HasStaking h w → HasStaking h u
  Reach-HasStaking w u h here b = b
  Reach-HasStaking w u h (next {u = v} r s) b = Step-HasStaking v u h s (Reach-HasStaking w v h r b)

  pub Reach-HasUnbonding :
      (w u : World si) (h : Hash) → Reach si w u → HasUnbonding h w → HasUnbonding h u
  Reach-HasUnbonding w u h here b = b
  Reach-HasUnbonding w u h (next {u = v} r s) b =
      Step-HasUnbonding v u h s (Reach-HasUnbonding w v h r b)

module _ {si : StakingIndexer} (laws : IndexerLaws si) (own : OwnDuplicates si) where
  get_tx_hex-own : (tx : MsgTx) → get_tx_hex si tx ≢ err duplicate_transaction
  unfolding get_tx_hex
  get_tx_hex-own tx h = elim (Result-cases (si.codec.serialize tx)) [
    | inl (b, e) ↦ cc (rw (e, get_tx_hex) at h)
    | inr (inl (x, e)) ↦
        let q : x ≡ duplicate_transaction = cc (rw (e, get_tx_hex) at h) in
        own.serialize tx (e ∙ ap err q)
    | inr (inr e) ↦ cc (rw (e, get_tx_hex) at h)
  ]

  -- An announced write never reports a duplicate; where it succeeds the store was called, and it
  -- succeeded or found the record there.
  announce-own :
      (tx : MsgTx) (event : Bytes → Event) (op : si.store.Db → Result (Unit {0}) × si.store.Db)
      (w : World si)
      → ((announce (get_tx_hex si tx) event op w).0 ≢ err duplicate_transaction)
        × ((announce (get_tx_hex si tx) event op w).0 ≡ ok tt
            → (((op w.db).0 ≡ ok tt) ⊎ ((op w.db).0 ≡ err duplicate_transaction))
              × ((announce (get_tx_hex si tx) event op w).1.db ≡ (op w.db).1))
  unfolding announce ◌>>=◌ lift push_event save
  announce-own tx event op w = elim (Result-cases (get_tx_hex si tx)) [
    | inl (hex, e) ↦ elim (Option-cases (si.push (event hex) w.sent)) [
      | inl q ↦
          rw (e, q, announce, push_event)
            (unless_duplicate-err (op w.db).0, λ h. (unless_duplicate-ok (op w.db).0 h, refl))
      | inr (x, q) ↦
          rw (e, q, announce, push_event)
            (λ h. own.push (event hex) w.sent (cc (q, h)), λ h. absurd (cc h))
    ]
    | inr (inl (x, e)) ↦ rw (e, announce) (λ h. get_tx_hex-own tx (cc (e, h)), λ h. absurd (cc h))
    | inr (inr e) ↦ rw (e, announce) (λ h. cc h, λ h. absurd (cc h))
  ]

  pub process_unbonding-HasUnbonding :
      (Q : World si → Type 0) (tx : MsgTx) (st : StoredStakingTransaction) (height : ℕ)
      (timestamp : ℤ) (params : Params)
      → Ensures Q
          (λ _ v. HasUnbonding (si.codec.tx_hash tx) v)
          (ignore_duplicate si
            (process_unbonding_tx si tx (si.codec.tx_hash st.tx) height timestamp params))
  unfolding ignore_duplicate process_unbonding_tx announce
  process_unbonding-HasUnbonding Q tx st height timestamp params = record {
    at = λ w a q h.
        let op = si.store.add_unbonding_transaction tx (si.codec.tx_hash st.tx) in
        let (own', done) =
          announce-own tx (unbonding_event si tx (si.codec.tx_hash st.tx) height timestamp params)
            op w in
        elim (unless_duplicate-ok _ h) [
          | inl g ↦ elim (done g).0 [
            | inl o ↦
                let r =
                  (laws.store.add_unbonding_ok tx _ w.db _ (λ i. (o i, (op w.db).1))).added
                    (laws.hash_length st.tx) in
                λ e. cc (rw (done g).1 at e, r)
            | inr o ↦
                let b = own.store.unbonding tx _ w.db o in
                let same =
                  laws.store.add_unbonding_failed tx (si.codec.tx_hash st.tx) w.db
                    (λ q'. cc (o, q')) in
                rw ((done g).1, same) b
          ]
          | inr g ↦ absurd (own' g)
        ];
  }

  add_staking-HasStaking :
      (tx : MsgTx) (d : ParsedStakingTx) (height : ℕ) (timestamp : ℤ) (params : Params)
      (overflow : Bool) (Q : World si → Type 0)
      → try_parse_staking_tx si tx params ≡ ok d
      → ((w : World si)
          → Q w
          → si.store.get_staking_transaction (si.codec.tx_hash tx) w.db ≡ ok none)
      → Ensures Q
          (λ _ v. HasStaking (si.codec.tx_hash tx) v)
          (add_staking_transaction si (stored_staking_tx si tx d height overflow) timestamp)
  unfolding add_staking_transaction announce stored_staking_tx
  add_staking-HasStaking tx d height timestamp params overflow Q p fresh = record {
    at = λ w a q h.
        let st = stored_staking_tx si tx d height overflow in
        let op = si.store.add_staking_transaction st in
        let (own', done) = announce-own tx (staking_event si st timestamp) op w in
        let (ks, kf) = parsed-IsXOnly laws tx params d p in
        elim (done h).0 [
          | inl o ↦
              let r = (laws.store.add_staking_ok st w.db _ (λ i. (o i, (op w.db).1))).added ks kf in
              λ e. cc (rw (done h).1 at e, r)
          | inr o ↦ absurd (own.store.staking st w.db o (fresh w q))
        ];
  }

  abbrev IsFresh : MsgTx → World si → Type 0
  IsFresh tx w = si.store.get_staking_transaction (si.codec.tx_hash tx) w.db ≡ ok none

  -- A valid staking transaction that was processed.
  pub process_staking-HasStaking :
      (Q : World si → Type 0) (tx : MsgTx) (d : ParsedStakingTx) (height : ℕ) (timestamp : ℤ)
      (params : Params)
      → get_versioned_params si height ≡ ok params
      → try_parse_staking_tx si tx params ≡ ok d
      → validate_staking_tx params d ≡ ok tt
      → Ensures Q
          (λ _ v. HasStaking (si.codec.tx_hash tx) v)
          (process_staking_tx si tx d height timestamp params)
  unfolding process_staking_tx add_decided
  process_staking-HasStaking Q tx d height timestamp params v p valid = record {
    at = λ w a q h.
        elim (Result-cases (si.store.get_staking_transaction (si.codec.tx_hash tx) w.db)) [
          | inl (none, e) ↦ fresh.at w a e h
          | inl (some old, e) ↦ again w (λ n. cc (e, n))
          | inr (inl (x, e)) ↦ again w (λ n. cc (e, n))
          | inr (inr e) ↦ again w (λ n. cc (e, n))
        ];
  }
    where
      again :
          (w : World si)
          → HasStaking (si.codec.tx_hash tx) w
          → HasStaking
              (si.codec.tx_hash tx)
              (process_staking_tx si tx d height timestamp params w).1
      again w b =
          Reach-HasStaking w _ _
            ((process_staking-Steps laws tx d height timestamp params v p (λ _. Unit {0})).at w tt)
            b

      decided :
          (o : Option Bool)
          → Ensures
              (λ w.
                (IsFresh tx w
                  × (si.store.get_staking_transaction (si.codec.tx_hash tx) w.db ≡ ok none))
                × (decide_overflow si none d height params w.db ≡ ok o))
              (λ _ v'. HasStaking (si.codec.tx_hash tx) v')
              (add_decided si tx d height timestamp o)
      decided none = record { at = λ w a q h. absurd (undecided si d height params w.db valid q.1) }
      decided (some o) = add_staking-HasStaking tx d height timestamp params o _ p (λ w q. q.0.0)

      looked_up :
          (stored : Option StoredStakingTransaction)
          → Ensures
              (λ w.
                IsFresh tx w
                × (si.store.get_staking_transaction (si.codec.tx_hash tx) w.db ≡ ok stored))
              (λ _ v'. HasStaking (si.codec.tx_hash tx) v')
              (reads (decide_overflow si stored d height params) >>= λ o.
                add_decided si tx d height timestamp o)
      looked_up none = Ensures-bind-reads _ _ _ _ decided
      looked_up (some old) = record { at = λ w a q h. absurd (cc (q.0, q.1)) }

      fresh :
          Ensures
            (IsFresh tx)
            (λ _ v'. HasStaking (si.codec.tx_hash tx) v')
            (process_staking_tx si tx d height timestamp params)
      fresh = Ensures-bind-reads _ _ _ _ looked_up

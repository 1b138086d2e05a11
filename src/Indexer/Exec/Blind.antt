-- ===== src/Indexer/Exec/Blind.antt =====
-- Actions whose result and whose effect on the database depend on the database alone, and not on the
-- events that were pushed before: one rule for each way to build an action.
use staking_indexer.Prelude.{Bool, true, false, none, List, ◌≡◌, refl, ap, if◌then◌else◌}
use staking_indexer.Prelude.Result.{Result, ok, err, panic}
use staking_indexer.Indexer.Types.{StakingIndexer, World, Event}
use staking_indexer.Indexer.Exec.{Exec, pure, lift, reads, writes, ◌>>=◌, continue, push_event}

pub record Blind {si : StakingIndexer} {A : Type 0} (m : Exec si A) : Type 0 where
  pub at : (w u : World si) → w.db ≡ u.db → ((m w).0 ≡ (m u).0) × ((m w).1.db ≡ (m u).1.db)

-- The consumer takes every event.
pub record Accepts (si : StakingIndexer) : Type 0 where
  pub takes : (e : Event) (sent : List Event) → si.push e sent ≡ none

module _ {si : StakingIndexer} {A : Type 0} where
  pub Blind-pure : (a : A) → Blind (pure {si = si} a)
  unfolding pure
  Blind-pure a = record { at = λ w u e. (refl, e) }

  pub Blind-lift : (r : Result A) → Blind (lift {si = si} r)
  unfolding lift
  Blind-lift r = record { at = λ w u e. (refl, e) }

  pub Blind-reads : (f : si.store.Db → Result A) → Blind (reads {si = si} f)
  unfolding reads
  Blind-reads f = record { at = λ w u e. (ap f e, e) }

  pub Blind-writes : (f : si.store.Db → Result A × si.store.Db) → Blind (writes {si = si} f)
  unfolding writes
  Blind-writes f = record { at = λ w u e. (ap (λ d. (f d).0) e, ap (λ d. (f d).1) e) }

  pub Blind-if : (b : Bool) (m n : Exec si A) → Blind m → Blind n → Blind (if b then m else n)
  Blind-if true m n p q = p
  Blind-if false m n p q = q

module _ {si : StakingIndexer} {A B : Type 0} where
  pub Blind-bind :
      (m : Exec si A) (f : A → Exec si B) → Blind m → ((a : A) → Blind (f a)) → Blind (m >>= f)
  unfolding ◌>>=◌
  Blind-bind m f p q = record {
    at = λ w u e. let (r, d) = p.at w u e in rw r (go (m u).0 (m w).1 (m u).1 d);
  }
    where
      go :
          (r : Result A) (w u : World si)
          → w.db ≡ u.db
          → ((continue r f w).0 ≡ (continue r f u).0)
            × ((continue r f w).1.db ≡ (continue r f u).1.db)
      go (ok a) w u e = (q a).at w u e
      go (err x) w u e = (refl, e)
      go panic w u e = (refl, e)

module _ {si : StakingIndexer} (accepts : Accepts si) where
  pub Blind-push : (e : Event) → Blind (push_event {si = si} e)
  unfolding push_event
  Blind-push e = record {
    at = λ w u d. rw (accepts.takes e w.sent, accepts.takes e u.sent, push_event) (refl, d);
  }

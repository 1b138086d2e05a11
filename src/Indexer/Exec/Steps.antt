-- ===== src/Indexer/Exec/Steps.antt =====
-- A relation between the state before an action and the state after it, whatever the action
-- returns, from the states that satisfy `Q`: one rule for each way to build an action.
use staking_indexer.Prelude.{Bool, true, false, ◌≡◌, refl, if◌then◌else◌}
use staking_indexer.Prelude.Result.{Result, ok, err, panic}
use staking_indexer.Indexer.Types.{StakingIndexer, World}
use staking_indexer.Indexer.Exec.{Exec, pure, lift, reads, ◌>>=◌, continue}

-- `R` may not happen at all, and may be repeated.
pub record IsPreorder {si : StakingIndexer} (R : World si → World si → Type 0) : Type 0 where
  pub stay : (w : World si) → R w w
  pub then_by : (w u v : World si) → R w u → R u v → R w v

-- What holds before `R` holds after it.
pub record Stable {si : StakingIndexer} (R : World si → World si → Type 0) (Q : World si → Type 0)
    : Type 0 where
  pub keep : (w u : World si) → R w u → Q w → Q u

pub record Steps {si : StakingIndexer} (R : World si → World si → Type 0) (Q : World si → Type 0)
    {A : Type 0} (m : Exec si A) : Type 0 where
  pub at : (w : World si) → Q w → R w (m w).1

module _ {si : StakingIndexer} {R : World si → World si → Type 0} (pre : IsPreorder R) where
  pub Steps-pure : {A : Type 0} (Q : World si → Type 0) (a : A) → Steps R Q (pure {si = si} a)
  unfolding pure
  Steps-pure Q a = record { at = λ w q. pre.stay w }

  pub Steps-lift :
      {A : Type 0} (Q : World si → Type 0) (r : Result A) → Steps R Q (lift {si = si} r)
  unfolding lift
  Steps-lift Q r = record { at = λ w q. pre.stay w }

  pub Steps-if :
      {A : Type 0} (Q : World si → Type 0) (b : Bool) (m n : Exec si A)
      → Steps R Q m
      → Steps R Q n
      → Steps R Q (if b then m else n)
  Steps-if Q true m n sm sn = sm
  Steps-if Q false m n sm sn = sn

  -- The action goes on only with a value that the function returned.
  pub Steps-bind-lift :
      {A B : Type 0} (Q : World si → Type 0) (r : Result A) (f : A → Exec si B)
      → ((a : A) → r ≡ ok a → Steps R Q (f a))
      → Steps R Q (lift r >>= f)
  unfolding ◌>>=◌
  Steps-bind-lift Q (ok a) f sf = sf a refl
  Steps-bind-lift Q (err e) f sf = record { at = λ w q. pre.stay w }
  Steps-bind-lift Q panic f sf = record { at = λ w q. pre.stay w }

  -- What the value that was read says of the state holds where the action goes on.
  pub Steps-bind-reads :
      {A B : Type 0} (Q : World si → Type 0) (P : A → World si → Type 0)
      (g : si.store.Db → Result A) (f : A → Exec si B)
      → ((w : World si) (a : A) → Q w → g w.db ≡ ok a → P a w)
      → ((a : A) → Steps R (P a) (f a))
      → Steps R Q (reads g >>= f)
  unfolding ◌>>=◌
  Steps-bind-reads {A} Q P g f learn sf = record { at = λ w q. go w q (g w.db) refl }
    where
      go : (w : World si) → Q w → (r : Result A) → g w.db ≡ r → R w (continue r f w).1
      go w q (ok a) e = (sf a).at w (learn w a q e)
      go w q (err x) e = pre.stay w
      go w q panic e = pre.stay w

  module _ (Q : World si → Type 0) (stable : Stable R Q) where
    pub Steps-bind :
        {A B : Type 0} (m : Exec si A) (f : A → Exec si B)
        → Steps R Q m
        → ((a : A) → Steps R Q (f a))
        → Steps R Q (m >>= f)
    unfolding ◌>>=◌
    Steps-bind {A} m f sm sf = record { at = λ w q. go w q (m w).0 }
      where
        go : (w : World si) → Q w → (r : Result A) → R w (continue r f (m w).1).1
        go w q (ok a) =
            pre.then_by w (m w).1 _ (sm.at w q)
              ((sf a).at (m w).1 (stable.keep w (m w).1 (sm.at w q) q))
        go w q (err e) = sm.at w q
        go w q panic = sm.at w q

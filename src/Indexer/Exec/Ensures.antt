-- ===== src/Indexer/Exec/Ensures.antt =====
-- What holds after an action that succeeds, from the states that satisfy `Q`.
use staking_indexer.Prelude.{◌≡◌, refl}
use staking_indexer.Prelude.Result.{Result, ok, err, panic}
use staking_indexer.Indexer.Types.{StakingIndexer, World}
use staking_indexer.Indexer.Exec.{Exec, lift, reads, ◌>>=◌, continue}

pub record Ensures {si : StakingIndexer} {A : Type 0} (Q : World si → Type 0)
    (P : A → World si → Type 0) (m : Exec si A) : Type 0 where
  pub at : (w : World si) (a : A) → Q w → (m w).0 ≡ ok a → P a (m w).1

module _ {si : StakingIndexer} {A B : Type 0} (Q : World si → Type 0)
    (P : B → World si → Type 0) where
  pub Ensures-bind :
      (mid : A → World si → Type 0) (m : Exec si A) (f : A → Exec si B)
      → Ensures Q mid m
      → ((a : A) → Ensures (mid a) P (f a))
      → Ensures Q P (m >>= f)
  unfolding ◌>>=◌
  Ensures-bind mid m f em ef = record { at = λ w b q h. go w (m w).0 b q refl h }
    where
      go :
          (w : World si) (r : Result A) (b : B)
          → Q w
          → (m w).0 ≡ r
          → (continue r f (m w).1).0 ≡ ok b
          → P b (continue r f (m w).1).1
      go w (ok a) b q e h = (ef a).at (m w).1 b (em.at w a q e) h
      go w (err x) b q e h = cc
      go w panic b q e h = cc

  pub Ensures-bind-lift :
      (r : Result A) (f : A → Exec si B)
      → ((a : A) → r ≡ ok a → Ensures Q P (f a))
      → Ensures Q P (lift r >>= f)
  unfolding ◌>>=◌
  Ensures-bind-lift (ok a) f ef = ef a refl
  Ensures-bind-lift (err x) f ef = record { at = λ w b q h. cc }
  Ensures-bind-lift panic f ef = record { at = λ w b q h. cc }

  pub Ensures-bind-reads :
      (g : si.store.Db → Result A) (f : A → Exec si B)
      → ((a : A) → Ensures (λ w. Q w × (g w.db ≡ ok a)) P (f a))
      → Ensures Q P (reads g >>= f)
  unfolding reads
  Ensures-bind-reads g f ef =
      Ensures-bind (λ a w. Q w × (g w.db ≡ ok a)) (reads g) f (record { at = λ w a q h. (q, h) }) ef

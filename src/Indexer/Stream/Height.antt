-- ===== src/Indexer/Stream/Height.antt =====
-- Where the indexer goes on after a restart.
use staking_indexer.Prelude.{
  ℕ, ◌+◌, ◌%◌, ◌<◌, ℤ, u64_mod, to_u64, List, [], ◌∷◌, ◌≡◌, refl, inl, inr, arith, Bool-cases,
  Option-cases, pos, negsuc,
}
use staking_indexer.Prelude.Result.{Result, ok, err, panic, Result-cases}
use staking_indexer.Wire.Blocks.{IndexedBlock}
use staking_indexer.Indexer.Types.{StakingIndexer, World, confirmed_info}
use staking_indexer.Indexer.Exec.{Exec, ◌>>=◌, continue, reads, writes, pure, push_event}
use staking_indexer.Indexer.Ledger.Laws.{IndexerLaws}
use staking_indexer.Indexer.StartHeight.{get_start_height}
use staking_indexer.Indexer.Block.{
  for_each, handle_confirmed_block, handle_confirmed_blocks, emit_confirmed_info,
}
use staking_indexer.Indexer.Unconfirmed.{tip_of}

-- What holds after the action if it succeeds.
record Ends {si : StakingIndexer} {A : Type 0} (P : World si → Type 0) (m : Exec si A)
    : Type 0 where
  at : (w : World si) (a : A) → (m w).0 ≡ ok a → P (m w).1

module _ {si : StakingIndexer} {A B : Type 0} where
  -- The last action of a chain decides.
  Ends-bind :
      (P : World si → Type 0) (m : Exec si A) (f : A → Exec si B)
      → ((a : A) → Ends P (f a))
      → Ends P (m >>= f)
  unfolding ◌>>=◌
  Ends-bind P m f q = record { at = λ w b h. go (m w).0 (m w).1 b h }
    where
      go : (r : Result A) (u : World si) (b : B) → (continue r f u).0 ≡ ok b → P (continue r f u).1
      go (ok a) u b h = (q a).at u b h
      go (err e) u b h = cc
      go panic u b h = cc

to_u64_below : (z : ℤ) → to_u64 z < u64_mod
unfolding to_u64
to_u64_below (pos n) = omega arith
to_u64_below (negsuc n) = omega arith

module _ {si : StakingIndexer} (laws : IndexerLaws si) where
  abbrev Saved : ℕ → World si → Type 0
  Saved height w = si.store.get_last_processed_height w.db ≡ ok height

  emit-db : (height : ℕ) (w : World si) → (emit_confirmed_info si height w).1.db ≡ w.db
  unfolding emit_confirmed_info ◌>>=◌ pure reads push_event
  emit-db height w = elim (Bool-cases si.extra_event_enabled) [
    | inr e ↦ rw e refl
    | inl e ↦ elim (Result-cases (si.store.get_confirmed_tvl w.db)) [
      | inr (inl (x, q)) ↦ rw (e, q) refl
      | inr (inr q) ↦ rw (e, q) refl
      | inl (tvl, q) ↦ elim (Option-cases (si.push (confirmed_info height tvl) w.sent)) [
        | inl n ↦ rw (e, q, n, push_event) refl
        | inr (x, n) ↦ rw (e, q, n, push_event) refl
      ]
    ]
  ]

  save-Ends :
      (height : ℕ)
      → height < u64_mod
      → Ends (Saved height) (
          writes {si = si} (si.store.save_last_processed_height height) >>= λ _.
          emit_confirmed_info si height)
  unfolding ◌>>=◌ writes
  save-Ends height low = record {
    at = λ w u h. go w (si.store.save_last_processed_height height w.db) refl u h;
  }
    where
      go :
          (w : World si) (p : Result (Unit {0}) × si.store.Db)
          → si.store.save_last_processed_height height w.db ≡ p
          → (u : Unit {0})
          → (continue p.0 (λ _. emit_confirmed_info si height) (record w { db = p.1 })).0 ≡ ok u
          → Saved height
              (continue p.0 (λ _. emit_confirmed_info si height) (record w { db = p.1 })).1
      go w (ok x, db') e u h =
          rw (emit-db height (record w { db = db' }))
            ((laws.store.save_height_ok height w.db db' e).saved low)
      go w (err x, db') e u h = cc
      go w (panic, db') e u h = cc

  block-Ends : (b : IndexedBlock) → Ends (Saved (to_u64 b.height)) (handle_confirmed_block si b)
  unfolding handle_confirmed_block
  block-Ends b =
      Ends-bind _ _ _
        λ params. Ends-bind _ _ _ λ _. save-Ends (to_u64 b.height) (to_u64_below b.height)

  blocks-Ends :
      (b : IndexedBlock) (bs : List IndexedBlock)
      → Ends (Saved (to_u64 (tip_of b bs).height)) (handle_confirmed_blocks si (b ∷ bs))
  unfolding handle_confirmed_blocks for_each ◌>>=◌ pure
  blocks-Ends b (b' ∷ bs) = Ends-bind _ _ _ λ _. blocks-Ends b' bs
  blocks-Ends b [] = record {
    at = λ w u h. go (handle_confirmed_block si b w) (λ x. (block-Ends b).at w x) u h;
  }
    where
      go :
          (p : Result (Unit {0}) × World si)
          → ((x : Unit {0}) → p.0 ≡ ok x → Saved (to_u64 b.height) p.1)
          → (u : Unit {0}) → (continue p.0 (λ _. pure tt) p.1).0 ≡ ok u
          → Saved (to_u64 b.height) (continue p.0 (λ _. pure tt) p.1).1
      go (ok x, v) q u h = q x refl
      go (err e, v) q u h = cc
      go (panic, v) q u h = cc

  -- Where all of some confirmed blocks, at least one, were handled successfully, the indexer proposes
  -- to start at the height behind that of the last of them after a restart.
  pub handle_confirmed_blocks-get_start_height :
      (b : IndexedBlock) (bs : List IndexedBlock) (w : World si)
      → (handle_confirmed_blocks si (b ∷ bs) w).0 ≡ ok tt
      → get_start_height si (handle_confirmed_blocks si (b ∷ bs) w).1.db
        ≡ ok ((to_u64 (tip_of b bs).height + 1) % u64_mod)
  unfolding get_start_height
  handle_confirmed_blocks-get_start_height b bs w h =
      rw ((blocks-Ends b bs).at w tt h, get_start_height) refl

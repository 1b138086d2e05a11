-- ===== src/Indexer/Exec/Index.antt =====
-- `xs[i]` succeeds with what stands at `i`.
use staking_indexer.Prelude.{ℕ, List, some, get_elem?, ◌≡◌, ◌∙◌, refl, ap, inl, inr, Option-cases}
use staking_indexer.Prelude.Result.{ok}
use staking_indexer.Indexer.Exec.{index}

module _ {ℓ} {A : Type ℓ} where
  pub index-some : (xs : List A) (i : ℕ) (x : A) → index xs i ≡ ok x → get_elem? xs i ≡ some x
  unfolding index
  index-some xs i x e = elim (Option-cases (get_elem? xs i)) [
    | inl q ↦ absurd (cc (rw (q, index) at e))
    | inr (y, q) ↦ let same : y ≡ x = cc (rw (q, index) at e) in q ∙ ap some same
  ]

  pub some-index : (xs : List A) (i : ℕ) (x : A) → get_elem? xs i ≡ some x → index xs i ≡ ok x
  unfolding index
  some-index xs i x q = rw (q, index) refl

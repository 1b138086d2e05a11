-- ===== src/Scanner/EventLoop/Activation.antt =====
-- How long `waitUntilActivation` waits.
use staking_indexer.Prelude.{
  ℕ, ◌≤◌, ◌<◌, true, false, none, some, List, [], ◌∷◌, ◌++◌, All, ◌≡◌, ◌↔◌, refl, ap, sym, ◌∙◌,
  append-nil, inl, inr, arith, Bool-cases, leb, leb→le, leb→lt,
}
use staking_indexer.Prelude.Result.{Result, ok, err, panic}
use staking_indexer.Scanner.EventLoop.{wait_until_activation}

-- The poll answered with a tip below the activation height.
abbrev pub IsBelow : ℕ → Result ℕ → Type 0
IsBelow activation_height r = (h : ℕ) × (r ≡ ok h) × (h < activation_height)

module _ (activation_height : ℕ) where
  -- A first poll that is not below the activation height decides; the polls before it do not.
  abbrev Reaches : List (Result ℕ) → Type 0
  Reaches polls =
      (low : List (Result ℕ)) × (h : ℕ) × (rest : List (Result ℕ)) × (polls ≡ low ++ ok h ∷ rest)
      × All (IsBelow activation_height) low
      × (activation_height ≤ h)

  waits-IsBelow :
      (polls : List (Result ℕ))
      → wait_until_activation activation_height polls ≡ none
      → All (IsBelow activation_height) polls
  unfolding wait_until_activation
  waits-IsBelow [] h = tt
  waits-IsBelow (err e ∷ polls) h = cc
  waits-IsBelow (panic ∷ polls) h = cc
  waits-IsBelow (ok t ∷ polls) h = elim (Bool-cases (leb activation_height t)) [
    | inl e ↦ absurd (cc (rw e at h))
    | inr e ↦ ((t, refl, leb→lt _ _ e), waits-IsBelow polls (rw e at h))
  ]

  IsBelow-waits :
      (polls rest : List (Result ℕ))
      → All (IsBelow activation_height) polls
      → wait_until_activation activation_height (polls ++ rest)
        ≡ wait_until_activation activation_height rest
  unfolding wait_until_activation
  IsBelow-waits [] rest a = refl
  IsBelow-waits (err e ∷ polls) rest ((t, q, l), a) = cc
  IsBelow-waits (panic ∷ polls) rest ((t, q, l), a) = cc
  IsBelow-waits (ok u ∷ polls) rest ((t, q, l), a) =
      let same : u ≡ t = cc in
      let below : leb activation_height u ≡ false = rw same (ground (arith, l)) in
      rw (below, IsBelow-waits polls rest a) refl

  passes-Reaches :
      (polls : List (Result ℕ))
      → wait_until_activation activation_height polls ≡ some (ok tt)
      → Reaches polls
  unfolding wait_until_activation
  passes-Reaches [] h = cc
  passes-Reaches (err e ∷ polls) h = cc
  passes-Reaches (panic ∷ polls) h = cc
  passes-Reaches (ok t ∷ polls) h = elim (Bool-cases (leb activation_height t)) [
    | inl e ↦ ([], t, polls, refl, tt, leb→le _ _ e)
    | inr e ↦
        let (low, u, rest, q, a, r) = passes-Reaches polls (rw e at h) in
        (ok t ∷ low, u, rest, rw q refl, ((t, refl, leb→lt _ _ e), a), r)
  ]

  waits-nothing : wait_until_activation activation_height [] ≡ none
  unfolding wait_until_activation
  waits-nothing = refl

  reached :
      (h : ℕ) (rest : List (Result ℕ))
      → activation_height ≤ h
      → wait_until_activation activation_height (ok h ∷ rest) ≡ some (ok tt)
  unfolding wait_until_activation
  reached h rest r = let e : leb activation_height h ≡ true = ground (arith, r) in rw e refl

  -- The wait goes on exactly as long as every poll of the tip answers with a height below the
  -- activation height, and it ends well exactly if a poll reaches that height and all the polls before
  -- it were below.
  pub wait_until_activation_iff :
      (polls : List (Result ℕ))
      → ((wait_until_activation activation_height polls ≡ none)
          ↔ All (IsBelow activation_height) polls)
        × ((wait_until_activation activation_height polls ≡ some (ok tt)) ↔ (
            (low : List (Result ℕ)) × (h : ℕ) × (rest : List (Result ℕ)) × (polls
              ≡ low ++ ok h ∷ rest)
            × All (IsBelow activation_height) low
            × (activation_height ≤ h)))
  wait_until_activation_iff polls = (
    (
      waits-IsBelow polls,
      λ a.
          ap (wait_until_activation activation_height) (sym (append-nil polls))
          ∙ IsBelow-waits polls [] a
          ∙ waits-nothing,
    ),
    (
      passes-Reaches polls,
      λ (low, h, rest, q, a, r). rw (q, IsBelow-waits low (ok h ∷ rest) a) (reached h rest r),
    ),
  )

-- ===== src/Scanner/Cache/Bounds.antt =====
-- The cache stays within its bound, and trimming splits it.
use staking_indexer.Prelude.{
  ℕ, ◌+◌, ◌-◌, ◌<◌, ◌≤◌, pos, some, false, List, [], ◌∷◌, ◌++◌, ◌≡◌, refl, inl, inr, arith, length,
  drop, take, ltb, leb, Bool-cases, length-append, take-append-drop, length-drop, get_last?-append,
  ==→eq, ◌==◌,
}
use staking_indexer.Prelude.Result.{ok}
use staking_indexer.Wire.Blocks.{IndexedBlock}
use staking_indexer.Scanner.Cache.{BtcCache, add, evict_first, tip, trim_confirmed_blocks}

-- The cache holds at most its maximum, which is not 0.
abbrev pub IsBounded : BtcCache → Type 0
IsBounded b = (0 < b.max_entries) × (length b.blocks ≤ b.max_entries)

evict_first-ok : (bs : List IndexedBlock) → 0 < length bs → evict_first bs ≡ ok (drop 1 bs)
evict_first-ok [] h = absurd (omega arith)
evict_first-ok (x ∷ xs) h = refl

-- What adding a block to a bounded cache leaves, where `n` blocks give way.
pub add-eq :
    (ib : IndexedBlock) (b : BtcCache)
    → IsBounded b
    → (n : ℕ) × (add ib b ≡ (ok tt, record b { blocks = drop n b.blocks ++ ib ∷ [] }))
      × (length b.blocks < b.max_entries → n ≡ 0)
      × (length b.blocks ≡ b.max_entries → n ≡ 1)
      × (length (drop n b.blocks) + 1 ≤ b.max_entries)
unfolding add
add-eq ib b (p, q) =
    let low : ltb b.max_entries (length b.blocks) ≡ false = ground arith in
    elim (Bool-cases (length b.blocks == b.max_entries)) [
      | inl e ↦
          let same = ==→eq _ _ e in
          let l = length-drop 1 b.blocks in
          let kept = evict_first-ok b.blocks (omega (arith, same)) in
          (
            1,
            rw (low, e, kept) refl,
            λ h. absurd (omega (arith, same)),
            λ h. refl,
            omega (arith, same, l),
          )
      | inr e ↦ (0, rw (low, e) refl, λ h. refl, λ h. absurd (ground (arith, e)), ground (arith, e))
    ]

-- A block that is added to a bounded cache is its tip, behind the blocks that were there: all of them
-- if the cache had room, and all but the oldest, which alone gives way, if it was full. The cache stays
-- bounded.
pub add-IsBounded :
    (ib : IndexedBlock) (b : BtcCache)
    → IsBounded b
    → (n : ℕ) × (add ib b ≡ (ok tt, record b { blocks = drop n b.blocks ++ ib ∷ [] }))
      × IsBounded (add ib b).1
      × (tip (add ib b).1 ≡ some ib)
      × (length b.blocks < b.max_entries → n ≡ 0)
      × (length b.blocks ≡ b.max_entries → n ≡ 1)
unfolding tip
add-IsBounded ib b (p, q) =
    let (n, e, z, o, l) = add-eq ib b (p, q) in
    let m = length-append (drop n b.blocks) (ib ∷ []) in
    (n, e, rw e (p, omega (arith, m)), rw e (get_last?-append (drop n b.blocks) ib), z, o)

-- Trimming to `k` blocks returns the oldest blocks and keeps the others, in order and without loss,
-- and keeps exactly `k` unless there were fewer.
pub trim_confirmed_blocks_lem :
    (k : ℕ) (b : BtcCache)
    → (res : List IndexedBlock) × (rest : List IndexedBlock) × (trim_confirmed_blocks (pos k) b
        ≡ (ok res, record b { blocks = rest }))
      × (res ++ rest ≡ b.blocks)
      × (length rest ≤ k)
      × (k ≤ length b.blocks → length rest ≡ k)
unfolding trim_confirmed_blocks
trim_confirmed_blocks_lem k b = elim (Bool-cases (leb (length b.blocks) k)) [
  | inl e ↦ rw e ([], b.blocks, refl, refl, ground (arith, e), λ h. ground (arith, e))
  | inr e ↦
      let n = length b.blocks - k in
      let l = length-drop n b.blocks in
      rw e (
        take n b.blocks,
        drop n b.blocks,
        refl,
        take-append-drop n b.blocks,
        ground (arith, e, l),
        λ h. ground (arith, e, l),
      )
]

-- ===== src/Indexer/Tally/Words.antt =====
-- The int64 arithmetic of the tally, modulo 2 ^ 64.
use staking_indexer.Prelude.{
  ℕ, ◌+◌, ◌%◌, ◌<◌, ℤ, pos, negsuc, ◌+ℤ◌, ◌-ℤ◌, +ℤ_parts, -ℤ_parts, to_u64, to_i64, wrap_i64, ◌≡◌,
  u64_mod, arith, pos_part, neg_part,
}

-- The word of an integer, from its two parts.
to_u64-parts : (z : ℤ) → (to_u64 z + neg_part z) % u64_mod ≡ pos_part z % u64_mod
unfolding to_u64
to_u64-parts (pos n) = omega arith
to_u64-parts (negsuc n) = omega arith

to_u64-lt : (z : ℤ) → to_u64 z < u64_mod
unfolding to_u64
to_u64-lt (pos n) = omega arith
to_u64-lt (negsuc n) = omega arith

to_u64-to_i64 : (n : ℕ) → to_u64 (to_i64 n) ≡ n % u64_mod
unfolding to_u64 to_i64
to_u64-to_i64 n = ground arith

to_u64-wrap_i64 : (z : ℤ) → to_u64 (wrap_i64 z) ≡ to_u64 z
unfolding wrap_i64
to_u64-wrap_i64 z = let a = to_u64-to_i64 (to_u64 z) in let b = to_u64-lt z in omega (arith, a, b)

pub wrap_add : (a b : ℤ) → to_u64 (wrap_i64 (a +ℤ b)) ≡ (to_u64 a + to_u64 b) % u64_mod
wrap_add a b =
    let w = to_u64-wrap_i64 (a +ℤ b) in
    let p = to_u64-parts a in
    let q = to_u64-parts b in
    let r = to_u64-parts (a +ℤ b) in
    let l = to_u64-lt (a +ℤ b) in let e = +ℤ_parts a b in omega (arith, w, p, q, r, l, e)

pub wrap_sub : (a : ℤ) (n : ℕ) → (to_u64 (wrap_i64 (a -ℤ to_i64 n)) + n) % u64_mod ≡ to_u64 a
wrap_sub a n =
    let w = to_u64-wrap_i64 (a -ℤ to_i64 n) in
    let p = to_u64-parts a in
    let q = to_u64-parts (to_i64 n) in
    let r = to_u64-parts (a -ℤ to_i64 n) in
    let l = to_u64-lt (a -ℤ to_i64 n) in
    let m = to_u64-lt a in
    let e = -ℤ_parts a (to_i64 n) in
    let i = to_u64-to_i64 n in omega (arith, w, p, q, r, l, m, e, i)

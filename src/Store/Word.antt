-- ===== src/Store/Word.antt =====
-- `uint64ToBytes` and `uint64FromBytes` of indexerstore/indexer_store.go, with the byte order of
-- `binary.BigEndian`.
use staking_indexer.Prelude.{
  ℕ, ◌+◌, ◌*◌, ◌/◌, ◌%◌, ◌^◌, ◌<◌, ◌≡◌, ap, Bytes, [], ◌∷◌, arith, u64_mod,
}
use staking_indexer.Prelude.Result.{Result, ok, err, invalid_uint64_length}

unfoldable pub uint64_to_bytes : ℕ → Bytes
uint64_to_bytes v =
    (v / 2 ^ 56 % 256)
    ∷ (v / 2 ^ 48 % 256)
    ∷ (v / 2 ^ 40 % 256)
    ∷ (v / 2 ^ 32 % 256)
    ∷ (v / 2 ^ 24 % 256)
    ∷ (v / 2 ^ 16 % 256)
    ∷ (v / 2 ^ 8 % 256)
    ∷ (v % 256)
    ∷ []

-- `len(b) != 8` is the catch-all; `% 256` says that an item is a byte.
unfoldable pub uint64_from_bytes : Bytes → Result ℕ
uint64_from_bytes (b0 ∷ b1 ∷ b2 ∷ b3 ∷ b4 ∷ b5 ∷ b6 ∷ b7 ∷ []) = ok (
    b0 % 256 * 2 ^ 56
    + b1 % 256 * 2 ^ 48
    + b2 % 256 * 2 ^ 40
    + b3 % 256 * 2 ^ 32
    + b4 % 256 * 2 ^ 24
    + b5 % 256 * 2 ^ 16
    + b6 % 256 * 2 ^ 8
    + b7 % 256)
uint64_from_bytes _ = err invalid_uint64_length

-- Every uint64 is read back from its eight bytes.
pub uint64_from_bytes-uint64_to_bytes :
    (v : ℕ) → v < u64_mod → uint64_from_bytes (uint64_to_bytes v) ≡ ok v
unfolding uint64_to_bytes uint64_from_bytes
uint64_from_bytes-uint64_to_bytes v h = ap ok (omega arith)

-- What is read is a uint64.
pub uint64_from_bytes-lt : (b : Bytes) (v : ℕ) → uint64_from_bytes b ≡ ok v → v < u64_mod
unfolding uint64_from_bytes
uint64_from_bytes-lt (b0 ∷ b1 ∷ b2 ∷ b3 ∷ b4 ∷ b5 ∷ b6 ∷ b7 ∷ []) v h = ground arith
uint64_from_bytes-lt _ v h = cc

-- ===== src/Indexer/Hex.antt =====
-- `hex.EncodeToString` of Go's standard library, as the codes of the digits.
use staking_indexer.Prelude.{ℕ, ◌+◌, ◌/◌, ◌%◌, ◌-◌, Bytes, [], ◌∷◌, ltb, if◌then◌else◌}

hex_digit : ℕ → ℕ
hex_digit n = if ltb n 10 then b'0' + n else b'a' + (n - 10)

unfoldable pub hex_encode : Bytes → Bytes
unfolding hex_digit
hex_encode [] = []
hex_encode (b ∷ bs) = hex_digit (b % 256 / 16) ∷ hex_digit (b % 16) ∷ hex_encode bs

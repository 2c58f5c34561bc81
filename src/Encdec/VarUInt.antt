-- ===== src/Encdec/VarUInt.antt =====
-- src/storage/encdec/mod.rs, encode.rs and decode.rs: `VarUInt`, a u128 as a length byte and its
-- big-endian digits.
use maestro_symphony.Prelude.{
  ℕ, zero, suc, ◌+◌, ◌-◌, ◌*◌, ◌/◌, ◌%◌, ◌^◌, ◌<◌, [], ◌∷◌, ◌++◌, Option, none, some, Bytes, length,
  replicate, ltb, eqb, if◌then◌else◌, ok, err, ◌>>=◌,
}
use maestro_symphony.Codec.{malformed_input, DecodingResult, ok_or}

abbrev pub IsU128 : ℕ → Type 0
IsU128 v = v < 256 ^ 16

-- `to_be_bytes`, for `v` below 256 ^ n.
unfoldable pub to_be_bytes : ℕ → ℕ → Bytes
to_be_bytes zero v = []
to_be_bytes (suc n) v = (v / 256 ^ n) ∷ to_be_bytes n (v % 256 ^ n)

-- `from_be_bytes`
unfoldable pub from_be_bytes : Bytes → ℕ
from_be_bytes [] = 0
from_be_bytes (b ∷ bs) = b * 256 ^ length bs + from_be_bytes bs

-- The loop of `encode` over `bend`: the first byte that is not zero, and all that follow it,
-- behind their number. The list is what the index has not passed.
unfoldable pub encode_digits : Bytes → Bytes
encode_digits [] = 0 ∷ []
encode_digits (b ∷ bs) = if eqb b 0 then encode_digits bs else length (b ∷ bs) ∷ b ∷ bs

unfoldable pub encode_varuint : ℕ → Bytes
encode_varuint v = encode_digits (to_be_bytes 16 v)

-- `split_at_checked`
unfoldable pub split_at_checked : ℕ → Bytes → Option (Bytes × Bytes)
split_at_checked zero xs = some ([], xs)
split_at_checked (suc n) [] = none
split_at_checked (suc n) (x ∷ xs) = elim (split_at_checked n xs) [
  | none ↦ none
  | some (front, back) ↦ some (x ∷ front, back)
]

unfoldable pub decode_varuint : Bytes → DecodingResult ℕ
unfolding split_at_checked from_be_bytes
decode_varuint [] = err (malformed_input "varuint insufficient bytes" [])
decode_varuint (len ∷ tail) =
    if ltb 16 len then err (malformed_input "varuint len exceeds maximum" (len ∷ tail)) else do
      (digits, rest) ←
          ok_or (split_at_checked len tail)
            (malformed_input "varuint insufficient bytes" (len ∷ tail))
      ok (from_be_bytes (replicate (16 - len) 0 ++ digits), rest)

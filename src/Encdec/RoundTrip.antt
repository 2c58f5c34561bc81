-- ===== src/Encdec/RoundTrip.antt =====
-- src/storage/encdec: decoding an encoded `VarUInt`, for every u128.
use maestro_symphony.Prelude.{
  ℕ, zero, suc, ◌-◌, ◌/◌, ◌%◌, ◌^◌, ◌<◌, ◌≤◌, ◌≡◌, refl, ap, ◌∙◌, arith, [], ◌∷◌, ◌++◌, some,
  Bool-cases, inl, inr, Bytes, length, replicate, eqb, ok, true, eqb_iff,
}
use maestro_symphony.Encdec.VarUInt.{
  IsU128, to_be_bytes, from_be_bytes, encode_digits, encode_varuint, split_at_checked,
  decode_varuint,
}
use native.Mathlib.Nat.{div-add-mod', mod-lt, pow-suc}

pub pow-pos : (n : ℕ) → 0 < 256 ^ n
pow-pos zero = omega arith
pow-pos (suc n) = rw pow-suc (omega (arith, pow-pos n))

pub mod-lt_pow : (n v : ℕ) → v % 256 ^ n < 256 ^ n
mod-lt_pow n v = mod-lt v (pow-pos n)

pub length-to_be_bytes : (n v : ℕ) → length (to_be_bytes n v) ≡ n
unfolding to_be_bytes
length-to_be_bytes zero v = refl
length-to_be_bytes (suc n) v = ap suc (length-to_be_bytes n (v % 256 ^ n))

pub from_be_bytes-to_be_bytes : (n v : ℕ) → v < 256 ^ n → from_be_bytes (to_be_bytes n v) ≡ v
unfolding to_be_bytes from_be_bytes
from_be_bytes-to_be_bytes zero v h = omega arith
from_be_bytes-to_be_bytes (suc n) v h =
    rw
      (
        length-to_be_bytes n (v % 256 ^ n),
        from_be_bytes-to_be_bytes n (v % 256 ^ n) (mod-lt_pow n v),
      )
      (div-add-mod' v (256 ^ n))

from_be_bytes-replicate_zero :
    (k : ℕ) (bs : Bytes) → from_be_bytes (replicate k 0 ++ bs) ≡ from_be_bytes bs
unfolding from_be_bytes
from_be_bytes-replicate_zero zero bs = refl
from_be_bytes-replicate_zero (suc k) bs = omega (arith, from_be_bytes-replicate_zero k bs)

pub split_at_checked-append :
    (xs rest : Bytes) → split_at_checked (length xs) (xs ++ rest) ≡ some (xs, rest)
unfolding split_at_checked
split_at_checked-append [] rest = refl
split_at_checked-append (x ∷ xs) rest = rw (split_at_checked-append xs rest)

decode_varuint-digits :
    (bs rest : Bytes)
    → length bs ≤ 16
    → decode_varuint (length bs ∷ (bs ++ rest)) ≡ ok (from_be_bytes bs, rest)
unfolding decode_varuint
decode_varuint-digits bs rest h =
    ground
      (arith, split_at_checked-append bs rest, from_be_bytes-replicate_zero (16 - length bs) bs)

-- A leading zero byte of `v` is passed over, and `v` is its own remainder.
pub div-zero_mod : (n v : ℕ) → eqb (v / 256 ^ n) 0 ≡ true → v % 256 ^ n ≡ v
div-zero_mod n v z = omega (arith, rw ((eqb_iff (v / 256 ^ n) 0).0 z) at (div-add-mod' v (256 ^ n)))

decode_varuint-encode_digits :
    (n v : ℕ) (rest : Bytes)
    → n ≤ 16
    → v < 256 ^ n
    → decode_varuint (encode_digits (to_be_bytes n v) ++ rest) ≡ ok (v, rest)
unfolding encode_digits to_be_bytes
decode_varuint-encode_digits zero v rest hn hv =
    decode_varuint-digits [] rest (omega arith)
    ∙ ap (λ x. ok (x, rest)) (from_be_bytes-to_be_bytes zero v hv)
decode_varuint-encode_digits (suc n) v rest hn hv = elim (Bool-cases (eqb (v / 256 ^ n) 0)) [
  | inl z ↦ rw z rw (div-zero_mod n v z) (
      decode_varuint-encode_digits n v rest (omega arith)
        (rw (div-zero_mod n v z) at (mod-lt_pow n v)))
  | inr nz ↦ rw nz (
      decode_varuint-digits (to_be_bytes (suc n) v) rest
        (omega (arith, length-to_be_bytes (suc n) v))
      ∙ ap (λ x. ok (x, rest)) (from_be_bytes-to_be_bytes (suc n) v hv))
]

-- A u128 that was encoded is decoded to itself, and what follows it is left alone.
pub decode_varuint-encode_varuint :
    (v : ℕ) (rest : Bytes) → IsU128 v → decode_varuint (encode_varuint v ++ rest) ≡ ok (v, rest)
unfolding encode_varuint
decode_varuint-encode_varuint v rest h = decode_varuint-encode_digits 16 v rest (omega arith) h

-- ===== src/Encdec/Order.antt =====
-- src/storage/encdec/mod.rs: the order of encoded `VarUInt`s as byte strings.
use maestro_symphony.Prelude.{
  ℕ, zero, suc, ◌/◌, ◌%◌, ◌^◌, ◌<◌, ◌≤◌, ◌≡◌, arith, ◌∷◌, ◌++◌, Bool-cases, inl, inr, ◌⊎◌, Bytes,
  eqb, true, lex_lt,
}
use maestro_symphony.Encdec.VarUInt.{IsU128, to_be_bytes, encode_digits, encode_varuint}
use maestro_symphony.Encdec.RoundTrip.{mod-lt_pow, length-to_be_bytes, div-zero_mod, pow-pos}
use native.Mathlib.Nat.{div-add-mod', mod-lt}

-- Two numbers compare by their leading byte, and by their remainders where those agree.
lt-cases : (m v w : ℕ) → 0 < m → v < w → (v / m < w / m) ⊎ ((v / m ≡ w / m) × (v % m < w % m))
lt-cases m v w hm h = grind (arith, div-add-mod' v m, div-add-mod' w m, mod-lt v hm, mod-lt w hm)

to_be_bytes-lex_lt :
    (n v w : ℕ) (s t : Bytes)
    → v < w
    → w < 256 ^ n
    → lex_lt (to_be_bytes n v ++ s) (to_be_bytes n w ++ t) ≡ true
unfolding to_be_bytes
to_be_bytes-lex_lt zero v w s t h hw = absurd (omega arith)
to_be_bytes-lex_lt (suc n) v w s t h hw = elim (lt-cases (256 ^ n) v w (pow-pos n) h) [
  | inl lt ↦ ground arith
  | inr (e, lt) ↦
      ground (arith, to_be_bytes-lex_lt n (v % 256 ^ n) (w % 256 ^ n) s t lt (mod-lt_pow n w))
]

-- The first byte of an encoding is the number of digits.
encode_digits-lex_lt :
    (n v k : ℕ) (s t : Bytes) → n < k → lex_lt (encode_digits (to_be_bytes n v) ++ s) (k ∷ t) ≡ true
unfolding encode_digits to_be_bytes
encode_digits-lex_lt zero v k s t h = ground arith
encode_digits-lex_lt (suc n) v k s t h =
    ground (arith, encode_digits-lex_lt n (v % 256 ^ n) k s t, length-to_be_bytes n (v % 256 ^ n))

div-le : (m v w : ℕ) → 0 < m → v < w → v / m ≤ w / m
div-le m v w hm h = grind (arith, lt-cases m v w hm h)

encode_digits-order :
    (n v w : ℕ) (s t : Bytes)
    → v < w
    → w < 256 ^ n
    → lex_lt (encode_digits (to_be_bytes n v) ++ s) (encode_digits (to_be_bytes n w) ++ t) ≡ true
unfolding encode_digits to_be_bytes
encode_digits-order zero v w s t h hw = absurd (omega arith)
encode_digits-order (suc n) v w s t h hw = elim (Bool-cases (eqb (w / 256 ^ n) 0)) [
  | inl zw ↦ ground (
    arith,
    div-le (256 ^ n) v w (pow-pos n) h,
    div-zero_mod n v,
    div-zero_mod n w zw,
    mod-lt_pow n w,
    encode_digits-order n v w s t h,
  )
  | inr nw ↦ elim (Bool-cases (eqb (v / 256 ^ n) 0)) [
    | inl zv ↦
        rw (zv, nw)
          (encode_digits-lex_lt n (v % 256 ^ n) _ s _
            (omega (arith, length-to_be_bytes n (w % 256 ^ n))))
    | inr nv ↦
        rw (nv, nw)
          (ground (
            arith,
            to_be_bytes-lex_lt (suc n) v w s t h hw,
            length-to_be_bytes n (v % 256 ^ n),
            length-to_be_bytes n (w % 256 ^ n),
          ))
  ]
]

-- A smaller u128 has a smaller encoding, whatever follows the two.
pub encode_varuint-order :
    (v w : ℕ) (s t : Bytes)
    → v < w
    → IsU128 w
    → lex_lt (encode_varuint v ++ s) (encode_varuint w ++ t) ≡ true
unfolding encode_varuint
encode_varuint-order v w s t h hw = encode_digits-order 16 v w s t h hw

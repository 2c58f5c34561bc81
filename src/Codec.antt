-- ===== src/Codec.antt =====
-- src/storage/encdec/mod.rs and decode.rs: the traits `Encode` and `Decode` as one interface, the
-- decoding errors, and the law that an instance owes its users.
use maestro_symphony.Prelude.{
  ◌≡◌, ℕ, String, Bytes, [], ◌++◌, Result, ok, err, ◌>>=◌, append-nil, Option, none, some,
}

pub data DecodingError : Type 0 where
  malformed_input : String → Bytes → DecodingError
  invalid_utf8 : DecodingError
  var_uint_casting : ℕ → DecodingError
  invalid_enum_kind : Bytes → DecodingError

-- What is decoded, with the bytes that follow it.
abbrev pub DecodingResult : Type 0 → Type 0
DecodingResult A = Result DecodingError (A × Bytes)

pub record Codec (A : Type 0) : Type 0 where
  pub encode : A → Bytes
  pub decode : Bytes → DecodingResult A

abbrev pub decode_all : {A : Type 0} → Codec A → Bytes → Result DecodingError A
decode_all c bytes = do (a, rest) ← c.decode bytes; ok a

-- `ok_or`
abbrev pub ok_or : {E A : Type 0} → Option A → E → Result E A
ok_or none e = err e
ok_or (some a) e = ok a

-- On the values that `Fits` describes, decoding reads back what was encoded and leaves the rest.
abbrev pub IsLawful : {A : Type 0} → Codec A → (A → Type 0) → Type 0
IsLawful {A} c Fits = (a : A) (rest : Bytes) → Fits a → c.decode (c.encode a ++ rest) ≡ ok (a, rest)

-- What an instance's users need: a whole encoded value decodes.
pub decode_all-encode :
    {A : Type 0} (c : Codec A) (Fits : A → Type 0) (a : A)
    → IsLawful c Fits
    → Fits a
    → decode_all c (c.encode a) ≡ ok a
decode_all-encode c Fits a l h = rw (← append-nil (c.encode a)) (rw (l a [] h))

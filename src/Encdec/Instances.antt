-- ===== src/Encdec/Instances.antt =====
-- src/storage/encdec/encode.rs and decode.rs: the instances of `Encode` and `Decode`.
use maestro_symphony.Prelude.{
  ℕ, zero, suc, ◌^◌, List, [], ◌∷◌, ◌++◌, Option, none, some, Bool, true, false, Bytes, length, ltb,
  if◌then◌else◌, Result, ok, err, ◌>>=◌, Map, insert, Eq,
}
use maestro_symphony.Codec.{
  DecodingError, malformed_input, var_uint_casting, DecodingResult, Codec, ok_or,
}
use maestro_symphony.Encdec.VarUInt.{
  to_be_bytes, from_be_bytes, encode_varuint, decode_varuint, split_at_checked,
}

-- `[u8; N]`
abbrev pub array : ℕ → Codec Bytes
array n = record {
  encode = λ a. a;
  decode =
      λ bytes. ok_or (split_at_checked n bytes) (malformed_input "array insufficient bytes" bytes);
}

abbrev pub decode_u8 : Bytes → DecodingResult ℕ
decode_u8 [] = err (malformed_input "u8 insufficient bytes" [])
decode_u8 (b ∷ rest) = ok (b, rest)

abbrev pub u8 : Codec ℕ
u8 = record { encode = λ b. b ∷ []; decode = decode_u8 }

-- Two bytes, not a `VarUInt`.
abbrev pub u16 : Codec ℕ
u16 = record {
  encode = to_be_bytes 2;
  decode = λ bytes. (do (b, rest) ← (array 2).decode bytes; ok (from_be_bytes b, rest));
}

-- `TryFrom<VarUInt>` for a type that ends below `limit`.
abbrev pub try_from_varuint : ℕ → ℕ → Result DecodingError ℕ
try_from_varuint limit v = if ltb v limit then ok v else err (var_uint_casting v)

-- `impl_varuint_encode!` and `impl_varuint_decode!`
abbrev pub varuint_codec : ℕ → Codec ℕ
varuint_codec limit = record {
  encode = encode_varuint;
  decode = λ bytes. do
    (varuint, rem) ← decode_varuint bytes
    casted ← try_from_varuint limit varuint
    ok (casted, rem);
}

abbrev pub u32 : Codec ℕ
u32 = varuint_codec (2 ^ 32)

abbrev pub u64 : Codec ℕ
u64 = varuint_codec (2 ^ 64)

abbrev pub u128 : Codec ℕ
u128 = varuint_codec (2 ^ 128)

-- On a 64-bit target.
abbrev pub usize : Codec ℕ
usize = u64

module _ {A : Type 0} (c : Codec A) where
  unfoldable pub encode_items : List A → Bytes
  encode_items [] = []
  encode_items (x ∷ xs) = c.encode x ++ encode_items xs

  -- The loop `for _ in 0..len`.
  unfoldable pub decode_items : ℕ → Bytes → DecodingResult (List A)
  decode_items zero bytes = ok ([], bytes)
  decode_items (suc n) bytes = do
    (item, rest) ← c.decode bytes
    (items, rest') ← decode_items n rest
    ok (item ∷ items, rest')

-- `Vec<A>`
abbrev pub vec : {A : Type 0} → Codec A → Codec (List A)
vec c = record {
  encode = λ xs. usize.encode (length xs) ++ encode_items c xs;
  decode = λ bytes. (do (len, rest) ← usize.decode bytes; decode_items c len rest);
}

-- `Vec<u8>`, a raw key or value.
abbrev pub bytes_codec : Codec Bytes
bytes_codec = vec u8

-- `(A, B)`
abbrev pub pair : {A B : Type 0} → Codec A → Codec B → Codec (A × B)
pair c d = record {
  encode = λ p. c.encode p.0 ++ d.encode p.1;
  decode = λ bytes. do
    (first, rest) ← c.decode bytes
    (second, rest') ← d.decode rest
    ok ((first, second), rest');
}

-- `()`
abbrev pub unit : Codec (Unit {0})
unit = record { encode = λ _. []; decode = λ bytes. ok (tt, bytes) }

abbrev pub bool_byte : Bool → ℕ
bool_byte false = 0
bool_byte true = 1

abbrev pub bool_of_byte : ℕ → Bytes → Bytes → DecodingResult Bool
bool_of_byte zero bytes rem = ok (false, rem)
bool_of_byte (suc zero) bytes rem = ok (true, rem)
bool_of_byte (suc (suc n)) bytes rem = err (malformed_input "invalid bool byte" bytes)

abbrev pub bool_codec : Codec Bool
bool_codec = record {
  encode = λ b. bool_byte b ∷ [];
  decode = λ bytes. (do (byte, rem) ← decode_u8 bytes; bool_of_byte byte bytes rem);
}

module _ {A : Type 0} (c : Codec A) where
  abbrev pub encode_option : Option A → Bytes
  encode_option none = bool_codec.encode false ++ []
  encode_option (some a) = bool_codec.encode true ++ c.encode a

  abbrev pub decode_present : Bool → Bytes → DecodingResult (Option A)
  decode_present false bytes = ok (none, bytes)
  decode_present true bytes = do (value, rest) ← c.decode bytes; ok (some value, rest)

-- `Option<T>`
abbrev pub option : {A : Type 0} → Codec A → Codec (Option A)
option c = record {
  encode = encode_option c;
  decode = λ bytes. (do (presence, rest) ← bool_codec.decode bytes; decode_present c presence rest);
}

module _ {K V : Type 0} ⦃e : Eq K⦄ (c : Codec K) (d : Codec V) where
  unfoldable pub decode_entries : ℕ → Map K V → Bytes → DecodingResult (Map K V)
  decode_entries zero m bytes = ok (m, bytes)
  decode_entries (suc n) m bytes = do
    (key, rest) ← c.decode bytes
    (value, rest') ← d.decode rest
    decode_entries n (insert key value m) rest'

-- `IndexMap<K, V>`: the entries in the order of insertion.
abbrev pub index_map : {K V : Type 0} ⦃e : Eq K⦄ → Codec K → Codec V → Codec (Map K V)
index_map c d = record {
  encode = λ m. usize.encode (length m) ++ encode_items (pair c d) m;
  decode = λ bytes. (do (len, rest) ← usize.decode bytes; decode_entries c d len [] rest);
}

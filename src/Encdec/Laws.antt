-- ===== src/Encdec/Laws.antt =====
-- src/storage/encdec: the law of each instance of `Encode` and `Decode`.
use maestro_symphony.Prelude.{
  ℕ, ◌^◌, ◌<◌, ◌≤◌, ◌≡◌, refl, ap, arith, List, [], ◌∷◌, ◌++◌, append_assoc, append-nil, Option,
  none, some, true, false, Bytes, IsBytes, length, All, ok, Map, Eq, insert, lookup, lookup-insert,
  HasDistinctKeys, insert_new,
}
use maestro_symphony.Codec.{IsLawful, Codec}
use maestro_symphony.Encdec.VarUInt.{to_be_bytes}
use maestro_symphony.Encdec.RoundTrip.{
  decode_varuint-encode_varuint, split_at_checked-append, from_be_bytes-to_be_bytes,
  length-to_be_bytes,
}
use maestro_symphony.Encdec.Instances.{
  array, u8, u16, varuint_codec, encode_items, decode_items, vec, pair, unit, bool_codec, option,
  decode_entries, index_map, bytes_codec,
}

pub array-IsLawful : (n : ℕ) → IsLawful (array n) (λ a. length a ≡ n)
array-IsLawful n a rest h = rw (← h) (rw (split_at_checked-append a rest))

pub u8-IsLawful : IsLawful u8 (λ b. b < 256)
u8-IsLawful b rest h = refl

pub u16-IsLawful : IsLawful u16 (λ v. v < 2 ^ 16)
u16-IsLawful v rest h =
    rw (array-IsLawful 2 (to_be_bytes 2 v) rest (length-to_be_bytes 2 v))
      (ap (λ x. ok (x, rest)) (from_be_bytes-to_be_bytes 2 v (omega arith)))

-- An unsigned integer that fits its type is read back.
pub varuint_codec-IsLawful :
    (limit : ℕ) → limit ≤ 256 ^ 16 → IsLawful (varuint_codec limit) (λ v. v < limit)
varuint_codec-IsLawful limit hl v rest h =
    ground (arith, decode_varuint-encode_varuint v rest (omega arith))

decode_items-encode_items :
    {A : Type 0} (c : Codec A) (Fits : A → Type 0) (xs : List A) (rest : Bytes)
    → IsLawful c Fits
    → All Fits xs
    → decode_items c (length xs) (encode_items c xs ++ rest) ≡ ok (xs, rest)
unfolding decode_items encode_items
decode_items-encode_items c Fits [] rest l h = refl
decode_items-encode_items c Fits (x ∷ xs) rest l h = rw (
  append_assoc,
  l x (encode_items c xs ++ rest) h.0,
  decode_items-encode_items c Fits xs rest l h.1,
)

-- A list whose length fits a usize is read back, if its items are.
pub vec-IsLawful :
    {A : Type 0} (c : Codec A) (Fits : A → Type 0)
    → IsLawful c Fits
    → IsLawful (vec c) (λ xs. All Fits xs × (length xs < 2 ^ 64))
vec-IsLawful c Fits l xs rest h =
    rw
      (
        append_assoc,
        varuint_codec-IsLawful (2 ^ 64) (omega arith) (length xs) (encode_items c xs ++ rest) h.1,
      )
      (decode_items-encode_items c Fits xs rest l h.0)

pub bytes_codec-IsLawful : IsLawful bytes_codec (λ xs. IsBytes xs × (length xs < 2 ^ 64))
bytes_codec-IsLawful = vec-IsLawful u8 (λ b. b < 256) u8-IsLawful

pub pair-IsLawful :
    {A B : Type 0} (c : Codec A) (d : Codec B) (FitsA : A → Type 0) (FitsB : B → Type 0)
    → IsLawful c FitsA
    → IsLawful d FitsB
    → IsLawful (pair c d) (λ p. FitsA p.0 × FitsB p.1)
pair-IsLawful c d FitsA FitsB lc ld p rest h =
    rw (append_assoc, lc p.0 (d.encode p.1 ++ rest) h.0, ld p.1 rest h.1)

pub unit-IsLawful : IsLawful unit (λ _. Unit {0})
unit-IsLawful u rest h = refl

pub bool_codec-IsLawful : IsLawful bool_codec (λ _. Unit {0})
bool_codec-IsLawful false rest h = refl
bool_codec-IsLawful true rest h = refl

abbrev pub FitsOption : {A : Type 0} → (A → Type 0) → Option A → Type 0
FitsOption Fits none = Unit
FitsOption Fits (some a) = Fits a

pub option-IsLawful :
    {A : Type 0} (c : Codec A) (Fits : A → Type 0)
    → IsLawful c Fits
    → IsLawful (option c) (FitsOption Fits)
option-IsLawful c Fits l none rest h = refl
option-IsLawful c Fits l (some a) rest h = rw (l a rest h)

module _ {K V : Type 0} ⦃e : Eq K⦄ where
  IsFresh : Map K V → Map K V → Type 0
  IsFresh m [] = Unit
  IsFresh m ((k, v) ∷ es) = (lookup k m ≡ none) × IsFresh m es

  IsFresh-nil : (es : Map K V) → IsFresh [] es
  unfolding IsFresh
  IsFresh-nil [] = tt
  IsFresh-nil ((k, v) ∷ es) = (refl, IsFresh-nil es)

  IsFresh-insert :
      (k : K) (v : V) (m es : Map K V)
      → lookup k es ≡ none
      → IsFresh m es
      → IsFresh (insert k v m) es
  unfolding IsFresh
  IsFresh-insert k v m [] h f = tt
  IsFresh-insert k v m ((j, w) ∷ es) h f =
      ground (arith, e.beq_iff j k, e.beq_iff k j, lookup-insert j k v m, IsFresh-insert k v m es)

  decode_entries-encode_items :
      (c : Codec K) (d : Codec V) (FitsK : K → Type 0) (FitsV : V → Type 0) (m es : Map K V)
      (rest : Bytes)
      → IsLawful c FitsK
      → IsLawful d FitsV
      → All (λ p. FitsK p.0 × FitsV p.1) es
      → HasDistinctKeys es
      → IsFresh m es
      → decode_entries c d (length es) m (encode_items (pair c d) es ++ rest) ≡ ok (m ++ es, rest)
  unfolding decode_entries encode_items IsFresh
  decode_entries-encode_items c d FitsK FitsV m [] rest lc ld h hd f = rw (append-nil m)
  decode_entries-encode_items c d FitsK FitsV m ((k, v) ∷ es) rest lc ld h hd f =
      let tail : Bytes = encode_items (pair c d) es ++ rest in
      rw (append_assoc, append_assoc, lc k (d.encode v ++ tail) h.0.0, ld v tail h.0.1)
        (rw
          (decode_entries-encode_items c d FitsK FitsV (insert k v m) es rest lc ld h.1 hd.1
            (IsFresh-insert k v m es hd.0 f.1))
          (rw (insert_new k v m f.0, append_assoc)))

  -- A map is read back with its order of insertion.
  pub index_map-IsLawful :
      (c : Codec K) (d : Codec V) (FitsK : K → Type 0) (FitsV : V → Type 0)
      → IsLawful c FitsK
      → IsLawful d FitsV
      → IsLawful
          (index_map c d)
          (λ m. All (λ p. FitsK p.0 × FitsV p.1) m × HasDistinctKeys m × (length m < 2 ^ 64))
  index_map-IsLawful c d FitsK FitsV lc ld m rest h =
      rw
        (
          append_assoc,
          varuint_codec-IsLawful (2 ^ 64) (omega arith) (length m)
              (encode_items (pair c d) m ++ rest) h.2,
        )
        (decode_entries-encode_items c d FitsK FitsV [] m rest lc ld h.0 h.1 (IsFresh-nil m))

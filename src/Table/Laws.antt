-- ===== src/Table/Laws.antt =====
-- src/storage/table.rs: the encoded keys and the stored entries of a table.
use maestro_symphony.Prelude.{◌≡◌, refl, [], ◌∷◌, ◌++◌, Bytes, length, drop, ok}
use maestro_symphony.Codec.{IsLawful, decode_all-encode}
use maestro_symphony.Table.{Table, encode_key, decode_entry}

pub drop-append : (p xs : Bytes) → drop (length p) (p ++ xs) ≡ xs
drop-append [] xs = refl
drop-append (b ∷ p) xs = drop-append p xs

-- An iterator yields the key and the value that were written.
pub decode_entry-encode_key :
    {K V : Type 0} (t : Table K V) (FitsK : K → Type 0) (FitsV : V → Type 0) (k : K) (v : V)
    → IsLawful t.key FitsK
    → IsLawful t.value FitsV
    → FitsK k
    → FitsV v
    → decode_entry t (encode_key t k, t.value.encode v) ≡ ok (k, v)
unfolding decode_entry encode_key
decode_entry-encode_key t FitsK FitsV k v lk lv hk hv = rw (
  drop-append t.prefix (t.key.encode k),
  decode_all-encode t.key FitsK k lk hk,
  decode_all-encode t.value FitsV v lv hv,
)

-- Two keys of one table have one encoding only if they are equal.
pub encode_key-injective :
    {K V : Type 0} (t : Table K V) (FitsK : K → Type 0) (j k : K)
    → IsLawful t.key FitsK
    → FitsK j
    → FitsK k
    → encode_key t j ≡ encode_key t k
    → j ≡ k
unfolding encode_key
encode_key-injective t FitsK j k l hj hk e = cc (
  drop-append t.prefix (t.key.encode j),
  drop-append t.prefix (t.key.encode k),
  decode_all-encode t.key FitsK j l hj,
  decode_all-encode t.key FitsK k l hk,
  e,
)

-- ===== src/Table.antt =====
-- src/storage/table.rs: tables, each a prefix and the codecs of its keys and values.
use maestro_symphony.Prelude.{
  ℕ, List, [], ◌∷◌, ◌++◌, Option, none, some, Bytes, length, drop, Result, ok, err, ◌>>=◌,
}
use maestro_symphony.Codec.{Codec, DecodingError, decode_all}
use maestro_symphony.Encdec.Instances.{u16}
use maestro_symphony.Encdec.Range.{KeyRange, prefix_key_range}
pub mod Laws

pub record Table (K V : Type 0) : Type 0 where
  pub prefix : Bytes
  pub key : Codec K
  pub value : Codec V

-- 'C' and 'U'
abbrev pub core_indexer_tag : ℕ
core_indexer_tag = 67

abbrev pub custom_indexer_tag : ℕ
custom_indexer_tag = 85

-- `define_core_table!`
abbrev pub core_table : {K V : Type 0} → ℕ → Codec K → Codec V → Table K V
core_table indexer_id key value = record {
  prefix = core_indexer_tag ∷ indexer_id ∷ [];
  key = key;
  value = value;
}

-- `define_indexer_table!`
abbrev pub indexer_table : {K V : Type 0} → ℕ → ℕ → Codec K → Codec V → Table K V
indexer_table indexer_id table_id key value = record {
  prefix = custom_indexer_tag ∷ (u16.encode indexer_id ++ (table_id ∷ []));
  key = key;
  value = value;
}

module _ {K V : Type 0} where
  unfoldable pub encode_key : Table K V → K → Bytes
  encode_key t k = t.prefix ++ t.key.encode k

  -- An encoded bound behind the prefix; without an upper bound the range ends with the prefix's.
  unfoldable pub encode_range : Table K V → Option Bytes → Option Bytes → KeyRange
  encode_range t start to = record {
    start = elim start [ none ↦ t.prefix | some s ↦ t.prefix ++ s ];
    end = elim to [ none ↦ (prefix_key_range t.prefix).end | some e ↦ t.prefix ++ e ];
  }

  -- `TableIterator::next` on one stored entry.
  unfoldable pub decode_entry : Table K V → Bytes × Bytes → Result DecodingError (K × V)
  decode_entry t entry = do
    key_out ← decode_all t.key (drop (length t.prefix) entry.0)
    value_out ← decode_all t.value entry.1
    ok (key_out, value_out)

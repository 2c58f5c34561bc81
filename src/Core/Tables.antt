-- ===== src/Core/Tables.antt =====
-- src/sync/stages/index/indexers/core: the keys, values and codecs of the core tables. A codec of a
-- struct appends its fields in order, and one of an enum has a byte for the variant first, as
-- macros/src/lib.rs derives them.
use maestro_symphony.Prelude.{
  ℕ, zero, suc, [], ◌∷◌, ◌++◌, Option, none, some, Bool, Bytes, ok, err, ◌>>=◌,
}
use maestro_symphony.Codec.{Codec, DecodingResult, malformed_input, invalid_enum_kind}
use maestro_symphony.Encdec.Instances.{
  array, u32, u64, bytes_codec, option, bool_codec, index_map, unit,
}
use maestro_symphony.Table.{Table, core_table}
use maestro_symphony.Core.Types.{
  TxoRef, Utxo, TransactionIndexer, tx_count_by_address, runes, utxos_by_address, charms, unique_id,
  indexer_eq,
}

-- What an enum's decoding says of no bytes at all.
abbrev pub decode_kind : {A : Type 0} → (ℕ → Bytes → DecodingResult A) → Bytes → DecodingResult A
decode_kind f [] = err (malformed_input "enum insufficient bytes" [])
decode_kind f (kind ∷ bytes) = f kind bytes

pub record IndexerInfo : Type 0 where
  pub last_point_height : ℕ
  pub last_point_hash : Bytes
  pub mempool : Bool

abbrev pub indexer_info : Codec IndexerInfo
indexer_info = record {
  encode = λ i.
      u64.encode i.last_point_height
      ++ ((array 32).encode i.last_point_hash ++ bool_codec.encode i.mempool);
  decode = λ bytes. (do
    (last_point_height, rest) ← u64.decode bytes
    (last_point_hash, rest') ← (array 32).decode rest
    (mempool, rest'') ← bool_codec.decode rest'
    ok (
      record {
        last_point_height = last_point_height;
        last_point_hash = last_point_hash;
        mempool = mempool;
      },
      rest'',
    ));
}

pub data PointKind : Type 0 where
  confirmed mempool_kind : PointKind

abbrev pub encode_point_kind : PointKind → Bytes
encode_point_kind confirmed = 0 ∷ []
encode_point_kind mempool_kind = 1 ∷ []

abbrev pub decode_point_kind : ℕ → Bytes → DecodingResult PointKind
decode_point_kind zero bytes = ok (confirmed, bytes)
decode_point_kind (suc zero) bytes = ok (mempool_kind, bytes)
decode_point_kind (suc (suc n)) bytes = err (invalid_enum_kind bytes)

abbrev pub point_kind : Codec PointKind
point_kind = record { encode = encode_point_kind; decode = decode_kind decode_point_kind }

pub record TimestampEntry : Type 0 where
  pub tip_height : ℕ
  pub tip_hash : Bytes
  pub rocks_timestamp : ℕ
  pub mempool_timestamp : Option ℕ

abbrev pub timestamp_entry : Codec TimestampEntry
timestamp_entry = record {
  encode = λ t.
      u64.encode t.tip_height
      ++ ((array 32).encode t.tip_hash
          ++ (u64.encode t.rocks_timestamp ++ (option u64).encode t.mempool_timestamp));
  decode = λ bytes. (do
    (tip_height, rest) ← u64.decode bytes
    (tip_hash, rest') ← (array 32).decode rest
    (rocks_timestamp, rest'') ← u64.decode rest'
    (mempool_timestamp, rest''') ← (option u64).decode rest''
    ok (
      record {
        tip_height = tip_height;
        tip_hash = tip_hash;
        rocks_timestamp = rocks_timestamp;
        mempool_timestamp = mempool_timestamp;
      },
      rest''',
    ));
}

pub data PreviousValue : Type 0 where
  present : Bytes → PreviousValue
  not_present : PreviousValue

abbrev pub encode_previous_value : PreviousValue → Bytes
encode_previous_value (present v) = (0 ∷ []) ++ bytes_codec.encode v
encode_previous_value not_present = 1 ∷ []

abbrev pub decode_previous_value : ℕ → Bytes → DecodingResult PreviousValue
decode_previous_value zero bytes = do (v, rest) ← bytes_codec.decode bytes; ok (present v, rest)
decode_previous_value (suc zero) bytes = ok (not_present, bytes)
decode_previous_value (suc (suc n)) bytes = err (invalid_enum_kind bytes)

abbrev pub previous_value : Codec PreviousValue
previous_value = record {
  encode = encode_previous_value;
  decode = decode_kind decode_previous_value;
}

-- `From<Option<RawValue>> for PreviousValue`
abbrev pub previous_value_of : Option Bytes → PreviousValue
previous_value_of (some value) = present value
previous_value_of none = not_present

pub record RollbackKey : Type 0 where
  pub height : ℕ
  pub hash : Bytes
  pub key : Bytes

abbrev pub rollback_key : Codec RollbackKey
rollback_key = record {
  encode = λ k. u64.encode k.height ++ ((array 32).encode k.hash ++ bytes_codec.encode k.key);
  decode = λ bytes. (do
    (height, rest) ← u64.decode bytes
    (hash, rest') ← (array 32).decode rest
    (key, rest'') ← bytes_codec.decode rest'
    ok (record { height = height; hash = hash; key = key }, rest''));
}

abbrev pub txo_ref : Codec TxoRef
txo_ref = record {
  encode = λ t. (array 32).encode t.tx_hash ++ u32.encode t.txo_index;
  decode = λ bytes. (do
    (tx_hash, rest) ← (array 32).decode bytes
    (txo_index, rest') ← u32.decode rest
    ok (record { tx_hash = tx_hash; txo_index = txo_index }, rest'));
}

abbrev pub decode_indexer : ℕ → Bytes → DecodingResult TransactionIndexer
decode_indexer zero bytes = ok (tx_count_by_address, bytes)
decode_indexer (suc zero) bytes = ok (runes, bytes)
decode_indexer (suc (suc zero)) bytes = ok (utxos_by_address, bytes)
decode_indexer (suc (suc (suc zero))) bytes = ok (charms, bytes)
decode_indexer (suc (suc (suc (suc n)))) bytes = err (invalid_enum_kind bytes)

abbrev pub transaction_indexer : Codec TransactionIndexer
transaction_indexer = record { encode = λ i. unique_id i ∷ []; decode = decode_kind decode_indexer }

abbrev pub utxo : Codec Utxo
utxo = record {
  encode = λ u.
      u64.encode u.satoshis
      ++ (bytes_codec.encode u.script
          ++ (u64.encode u.height
              ++ (index_map transaction_indexer bytes_codec).encode u.extended));
  decode = λ bytes. (do
    (satoshis, rest) ← u64.decode bytes
    (script, rest') ← bytes_codec.decode rest
    (height, rest'') ← u64.decode rest'
    (extended, rest''') ← (index_map transaction_indexer bytes_codec).decode rest''
    ok (
      record { satoshis = satoshis; script = script; height = height; extended = extended },
      rest''',
    ));
}

-- The identifiers of `CoreIndexer`: 'I', 'U', 'T', 'H' and 'R'.
abbrev pub indexer_info_kv : Table (Unit {0}) IndexerInfo
indexer_info_kv = core_table 73 unit indexer_info

abbrev pub utxo_by_txo_ref_kv : Table TxoRef Utxo
utxo_by_txo_ref_kv = core_table 85 txo_ref utxo

abbrev pub timestamps_kv : Table PointKind TimestampEntry
timestamps_kv = core_table 84 point_kind timestamp_entry

abbrev pub hash_by_height_kv : Table ℕ Bytes
hash_by_height_kv = core_table 72 u64 (array 32)

abbrev pub rollback_buffer_kv : Table RollbackKey PreviousValue
rollback_buffer_kv = core_table 82 rollback_key previous_value

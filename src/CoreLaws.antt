-- ===== src/CoreLaws.antt =====
-- src/sync/stages/index/indexers/core and types.rs: the laws of the derived codecs.
use maestro_symphony.Prelude.{
  ◌≡◌, refl, arith, ◌++◌, append_assoc, Bytes, IsBytes, length, ◌^◌, ◌<◌, All, HasDistinctKeys,
}
use maestro_symphony.Codec.{IsLawful}
use maestro_symphony.Encdec.Instances.{array, u32, u64, bytes_codec, option, bool_codec, index_map}
use maestro_symphony.Encdec.Laws.{
  array-IsLawful, varuint_codec-IsLawful, bytes_codec-IsLawful, option-IsLawful,
  bool_codec-IsLawful, index_map-IsLawful, FitsOption,
}
use maestro_symphony.Core.{
  TxoRef, Utxo, tx_count_by_address, runes, utxos_by_address, charms, indexer_eq, indexer_info,
  TimestampEntry, timestamp_entry, PreviousValue, present, not_present, previous_value, RollbackKey,
  rollback_key, txo_ref, utxo, transaction_indexer,
}

pub u64-IsLawful : IsLawful u64 (λ v. v < 2 ^ 64)
u64-IsLawful = varuint_codec-IsLawful (2 ^ 64) (omega arith)

abbrev pub IsHash : Bytes → Type 0
IsHash h = length h ≡ 32

abbrev pub IsRaw : Bytes → Type 0
IsRaw xs = IsBytes xs × (length xs < 2 ^ 64)

abbrev pub FitsRollbackKey : RollbackKey → Type 0
FitsRollbackKey k = (k.height < 2 ^ 64) × IsHash k.hash × IsRaw k.key

-- A rollback key is read back.
pub rollback_key-IsLawful : IsLawful rollback_key FitsRollbackKey
rollback_key-IsLawful k rest h =
    let tail : Bytes = bytes_codec.encode k.key ++ rest in
    rw (append_assoc, append_assoc, u64-IsLawful k.height ((array 32).encode k.hash ++ tail) h.0)
      (rw (array-IsLawful 32 k.hash tail h.1, bytes_codec-IsLawful k.key rest h.2))

abbrev pub FitsPreviousValue : PreviousValue → Type 0
FitsPreviousValue (present v) = IsRaw v
FitsPreviousValue not_present = Unit

pub previous_value-IsLawful : IsLawful previous_value FitsPreviousValue
previous_value-IsLawful (present v) rest h = rw (bytes_codec-IsLawful v rest h)
previous_value-IsLawful not_present rest h = refl

abbrev pub FitsTxoRef : TxoRef → Type 0
FitsTxoRef t = IsHash t.tx_hash × (t.txo_index < 2 ^ 32)

pub txo_ref-IsLawful : IsLawful txo_ref FitsTxoRef
txo_ref-IsLawful t rest h =
    rw (append_assoc, array-IsLawful 32 t.tx_hash (u32.encode t.txo_index ++ rest) h.0)
      (rw (varuint_codec-IsLawful (2 ^ 32) (omega arith) t.txo_index rest h.1))

pub transaction_indexer-IsLawful : IsLawful transaction_indexer (λ _. Unit {0})
transaction_indexer-IsLawful tx_count_by_address rest h = refl
transaction_indexer-IsLawful runes rest h = refl
transaction_indexer-IsLawful utxos_by_address rest h = refl
transaction_indexer-IsLawful charms rest h = refl

pub record FitsUtxo (u : Utxo) : Type 0 where
  pub satoshis_fit : u.satoshis < 2 ^ 64
  pub script_fits : IsRaw u.script
  pub height_fits : u.height < 2 ^ 64
  pub entries_fit : All (λ e. Unit {0} × IsRaw e.1) u.extended
  pub keys_distinct : HasDistinctKeys u.extended
  pub entries_few : length u.extended < 2 ^ 64

-- An output is read back, its metadata in order included.
pub utxo-IsLawful : IsLawful utxo FitsUtxo
utxo-IsLawful u rest h =
    let sat : Bytes = u64.encode u.satoshis in
    let script : Bytes = bytes_codec.encode u.script in
    let height : Bytes = u64.encode u.height in
    let entries : Bytes = (index_map transaction_indexer bytes_codec).encode u.extended in
    rw
      (
        append_assoc sat (script ++ (height ++ entries)) rest,
        append_assoc script (height ++ entries) rest,
        append_assoc height entries rest,
        u64-IsLawful u.satoshis (script ++ (height ++ (entries ++ rest))) h.satoshis_fit,
      )
      (rw (bytes_codec-IsLawful u.script (height ++ (entries ++ rest)) h.script_fits) (
        rw (u64-IsLawful u.height (entries ++ rest) h.height_fits) (
          rw (
            index_map-IsLawful transaction_indexer bytes_codec (λ _. Unit {0}) IsRaw
              transaction_indexer-IsLawful bytes_codec-IsLawful u.extended rest
              (h.entries_fit, h.keys_distinct, h.entries_few)))))

abbrev pub FitsTimestampEntry : TimestampEntry → Type 0
FitsTimestampEntry t =
    (t.tip_height < 2 ^ 64)
    × IsHash t.tip_hash
    × (t.rocks_timestamp < 2 ^ 64)
    × FitsOption (λ m. m < 2 ^ 64) t.mempool_timestamp

pub timestamp_entry-IsLawful : IsLawful timestamp_entry FitsTimestampEntry
timestamp_entry-IsLawful t rest h =
    let tail : Bytes = (option u64).encode t.mempool_timestamp ++ rest in
    rw
      (
        append_assoc,
        append_assoc,
        append_assoc,
        u64-IsLawful t.tip_height
            ((array 32).encode t.tip_hash ++ (u64.encode t.rocks_timestamp ++ tail)) h.0,
      )
      (rw (array-IsLawful 32 t.tip_hash (u64.encode t.rocks_timestamp ++ tail) h.1) (
        rw (u64-IsLawful t.rocks_timestamp tail h.2)
          (rw (option-IsLawful u64 (λ m. m < 2 ^ 64) u64-IsLawful t.mempool_timestamp rest h.3))))

pub indexer_info-IsLawful :
    IsLawful indexer_info (λ i. (i.last_point_height < 2 ^ 64) × IsHash i.last_point_hash)
indexer_info-IsLawful i rest h =
    let tail : Bytes = bool_codec.encode i.mempool ++ rest in
    rw
      (
        append_assoc,
        append_assoc,
        u64-IsLawful i.last_point_height ((array 32).encode i.last_point_hash ++ tail) h.0,
      )
      (rw (array-IsLawful 32 i.last_point_hash tail h.1)
        (rw (bool_codec-IsLawful i.mempool rest tt)))

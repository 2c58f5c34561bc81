-- ===== src/Tests/Restart.antt =====
-- src/sync/stages/index after a restart: two blocks in the persistent rollback buffer.
use maestro_symphony.Prelude.{
  ◌≡◌, refl, arith, List, [], ◌∷◌, Bytes, replicate, none, some, true, false, ok,
}
use maestro_symphony.Encdec.VarUInt.{
  encode_varuint, encode_digits, to_be_bytes, decode_varuint, split_at_checked, from_be_bytes,
}
use maestro_symphony.Encdec.Range.{KeyRange}
use maestro_symphony.Table.{encode_key, encode_range, decode_entry}
use maestro_symphony.Core.{present, not_present, hash_by_height_kv, indexer_info_kv, IndexerInfo}
use maestro_symphony.Store.{StorageHandler, put_cf, apply_batch, reader_get, OriginalKvs}
use maestro_symphony.Rollback.{PointWithOriginalKvs, new, latest}
use maestro_symphony.Rollback.Storage.{empty_buffer, fetch_from_storage}
use maestro_symphony.Rollback.Restored.{all_rows, IsPersisted, fetch_from_storage-all_rows}
use maestro_symphony.Worker.Context.{regtest}
use maestro_symphony.Worker.Stage.{Stage}
use maestro_symphony.Worker.Consistency.{IsConsistent}
use maestro_symphony.Worker.Start.{
  Config, Iterations, last_processed_of, check_latest, check_buffer, new_stage, starts_mutable,
}
use maestro_symphony.Worker.Restart.{new_stage-IsConsistent}
use maestro_symphony.Tests.Database.{memory}
use maestro_symphony.Tests.Worker.{map_cache}
use maestro_symphony.Store.{u64_max}
use maestro_symphony.Timestamp.{as_u64, from_u64}

abbrev hash : Bytes
hash = replicate 32 7

abbrev changed : OriginalKvs
changed = (65 ∷ [], present (1 ∷ [])) ∷ (66 ∷ [], not_present) ∷ []

abbrev block : PointWithOriginalKvs
block = record { point = record { height = 9; hash = hash }; original_kvs = changed }

abbrev block_before : PointWithOriginalKvs
block_before = record {
  point = record { height = 8; hash = replicate 32 6 };
  original_kvs = (65 ∷ [], not_present) ∷ [];
}

abbrev persisted : List PointWithOriginalKvs
persisted = block ∷ block_before ∷ []

abbrev found : KeyRange → List (Bytes × Bytes)
found range = all_rows persisted

persisted-IsPersisted : IsPersisted persisted
persisted-IsPersisted = (
  (refl, tt),
  tt,
  (refl, (refl, tt)),
  (
    ((omega arith, refl, ((omega arith, tt), omega arith)), ((omega arith, tt), omega arith)),
    (((omega arith, refl, ((omega arith, tt), omega arith)), tt), tt),
  ),
  (tt, tt, (refl, tt), (((omega arith, refl, ((omega arith, tt), omega arith)), tt), tt), tt),
)

fetch_from_storage-all_rows_example :
    fetch_from_storage found none (some true)
    ≡ ok (record (empty_buffer none (some true)) { points = persisted })
unfolding new
fetch_from_storage-all_rows_example =
    fetch_from_storage-all_rows found none (some true) persisted refl (omega arith)
      persisted-IsPersisted

abbrev config : Config
config = record { network = regtest; max_rollback = none; safe_mode = some true; stop_after = none }

abbrev iterations : Iterations
iterations = record {
  entries = found;
  last_entry = λ range. some (encode_key hash_by_height_kv 9, hash);
}

abbrev info : IndexerInfo
info = record { last_point_height = 9; last_point_hash = hash; mempool = false }

abbrev stored : StorageHandler memory
stored = record {
  store = (5, put_cf (encode_key indexer_info_kv tt) (indexer_info_kv.value.encode info) ∷ []) ∷ [];
  previous_timestamp = none;
}

info_is_read :
    reader_get memory indexer_info_kv stored.store (as_u64 (from_u64 u64_max)) tt ≡ ok (some info)
unfolding reader_get encode_key apply_batch encode_varuint encode_digits to_be_bytes decode_varuint
    split_at_checked from_be_bytes as_u64 from_u64
info_is_read = refl

tip_is_read :
    last_processed_of [] (iterations.last_entry (encode_range hash_by_height_kv none none))
    ≡ ok block.point
unfolding last_processed_of decode_entry encode_key encode_varuint encode_digits to_be_bytes
    decode_varuint split_at_checked from_be_bytes
tip_is_read = refl

abbrev started : Stage map_cache memory
started = record {
  handler = stored;
  network = regtest;
  rollback_buffer = record (empty_buffer none (some true)) { points = persisted };
  max_rollbacks = 16;
  last_processed = block.point;
  processed_mempool = false;
  utxo_cache = none;
  stop_after = none;
}

starts : new_stage map_cache memory config none [] iterations stored ≡ ok started
unfolding new_stage check_buffer check_latest latest new
starts = rw (fetch_from_storage-all_rows_example, tip_is_read, info_is_read) refl

new_stage-IsConsistent_example :
    IsConsistent map_cache memory started (starts_mutable map_cache memory started)
new_stage-IsConsistent_example =
    new_stage-IsConsistent map_cache memory config none [] iterations stored info started
      info_is_read refl starts (omega arith)

-- ===== src/Worker/Start.antt =====
-- src/sync/stages/index/worker/stage.rs: `Stage::new`, the stage as it comes back from storage, and the
-- worker's `mutable` of `bootstrap`. What iterations over ranges of keys find is RocksDB's; the size
-- of the cache is left out.
use maestro_symphony.Prelude.{
  ℕ, List, [], ◌∷◌, Option, none, some, Bool, true, false, ◌&&◌, Bytes, Result, ok, err, ◌>>=◌,
  ◌==◌, list_beq, nat_eq, if◌then◌else◌,
}
use maestro_symphony.Encdec.Range.{KeyRange}
use maestro_symphony.Table.{encode_range, decode_entry}
use maestro_symphony.Timestamp.{as_u64, from_u64}
use maestro_symphony.Core.{
  Point, point_eq, Error, panic, lift_decoding, IndexerInfo, indexer_info_kv, hash_by_height_kv,
}
use maestro_symphony.Store.{Db, StorageHandler, u64_max, reader_get}
use maestro_symphony.Rollback.{RollbackBuffer, latest}
use maestro_symphony.Rollback.Storage.{default_max_rollback, unwrap_or, fetch_from_storage}
use maestro_symphony.Worker.Cache.{CacheLib}
use maestro_symphony.Worker.Context.{Network}
use maestro_symphony.Worker.Stage.{Stage}

-- Of `sync::Config`.
pub record Config : Type 0 where
  pub network : Network
  pub max_rollback : Option ℕ
  pub safe_mode : Option Bool
  pub stop_after : Option ℕ

-- What the iterations find: all entries of a range, and its last entry.
pub record Iterations : Type 0 where
  pub entries : KeyRange → List (Bytes × Bytes)
  pub last_entry : KeyRange → Option (Bytes × Bytes)

-- The last processed point, or the genesis block's.
unfoldable pub last_processed_of : Bytes → Option (Bytes × Bytes) → Result Error Point
last_processed_of genesis none = ok (record { height = 0; hash = genesis })
last_processed_of genesis (some entry) = do
  (height, hash) ← lift_decoding (decode_entry hash_by_height_kv entry)
  ok (record { height = height; hash = hash })

abbrev pub is_mempool_info : Option IndexerInfo → Bool
is_mempool_info none = false
is_mempool_info (some info) = info.mempool

abbrev pub cursor_of : IndexerInfo → Point
cursor_of info = record { height = info.last_point_height; hash = info.last_point_hash }

abbrev pub assert : Bool → Result Error (Unit {0})
assert true = ok tt
assert false = err (panic "assertion failed")

-- The assertions on the newest point of the buffer.
unfoldable pub check_latest : Point → IndexerInfo → Point → Result Error (Unit {0})
check_latest newest info last_processed =
    if info.mempool
    then assert
        (list_beq newest.hash info.last_point_hash && list_beq newest.hash last_processed.hash)
    else assert ((newest == last_processed) && (newest == cursor_of info))

unfoldable pub check_buffer : RollbackBuffer → Option IndexerInfo → Point → Result Error (Unit {0})
check_buffer buffer none last_processed = ok tt
check_buffer buffer (some info) last_processed = elim (latest buffer) [
  | none ↦ ok tt
  | some p ↦ check_latest p.point info last_processed
]

module _ (lib : CacheLib) (db : Db) where
  -- `Stage::new`
  unfoldable pub new_stage :
      Config
      → Option lib.Cache
      → Bytes
      → Iterations
      → StorageHandler db
      → Result Error (Stage lib db)
  new_stage config cache genesis iterations handler = do
    buffer ← fetch_from_storage iterations.entries config.max_rollback config.safe_mode
    last ←
        last_processed_of genesis (iterations.last_entry (encode_range hash_by_height_kv none none))
    info ← reader_get db indexer_info_kv handler.store (as_u64 (from_u64 u64_max)) tt
    _ ← check_buffer buffer info last
    ok (record {
      handler = handler;
      network = config.network;
      rollback_buffer = buffer;
      max_rollbacks = unwrap_or default_max_rollback config.max_rollback;
      last_processed = last;
      processed_mempool = is_mempool_info info;
      utxo_cache = cache;
      stop_after = config.stop_after;
    })

  -- `Worker::bootstrap`
  abbrev pub starts_mutable : Stage lib db → Bool
  starts_mutable st = elim st.rollback_buffer.points [ [] ↦ false | p ∷ ps ↦ true ]

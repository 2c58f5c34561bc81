-- ===== src/Store/Handler.antt =====
-- src/storage/kv_store.rs: `StorageHandler`, which begins the tasks and commits them, and `Reader`.
-- The clock's reading is an argument. The errors of RocksDB itself, the read-only mode and the
-- garbage collection of old versions are left out.
use maestro_symphony.Prelude.{
  ℕ, ◌-◌, ◌^◌, List, [], ◌∷◌, ◌++◌, map, Option, none, some, Bool, true, false, Bytes,
  if◌then◌else◌, Result,
}
use maestro_symphony.Timestamp
use maestro_symphony.Timestamp.{Timestamp}
use maestro_symphony.Encdec.Instances.{u64}
use maestro_symphony.Merge.{merge_operation}
use maestro_symphony.Table.{Table, encode_key, encode_range}
use maestro_symphony.Core.{
  Point, PreviousValue, previous_value, rollback_buffer_kv, confirmed, mempool_kind, timestamps_kv,
  timestamp_entry, Error,
}
use maestro_symphony.Store.Interface.{Db, BatchOp, put_cf, delete_cf, merge_cf, delete_range_cf}
use maestro_symphony.Store.Task.{
  StorageAction, set_action, delete_action, merge_action, IndexingTask, FinalizedTask,
  decode_option,
}

abbrev pub u64_max : ℕ
u64_max = 2 ^ 64 - 1

-- The packed time of a read: that of the last commit, or the end of time.
abbrev pub read_time : Option Timestamp → ℕ
read_time none = Timestamp.as_u64 (Timestamp.from_u64 u64_max)
read_time (some t) = Timestamp.as_u64 t

abbrev pub begin_task : Option Timestamp → Bool → Bool → IndexingTask
begin_task previous_timestamp is_mutable is_mempool = record {
  read_ts = read_time previous_timestamp;
  write_buffer = [];
  original_kvs = if is_mutable then some [] else none;
  mempool = is_mempool;
}

unfoldable pub begin_indexing_task : Option Timestamp → Bool → IndexingTask
begin_indexing_task previous_timestamp mutable = begin_task previous_timestamp mutable false

unfoldable pub begin_mempool_indexing_task : Option Timestamp → IndexingTask
begin_mempool_indexing_task previous_timestamp = begin_task previous_timestamp true true

abbrev pub flush_action : Bytes × StorageAction → BatchOp
flush_action (key, set_action value) = put_cf key value
flush_action (key, delete_action) = delete_cf key
flush_action (key, merge_action op) = merge_cf key (merge_operation.encode op)

abbrev pub persist_original : ℕ → Bytes → Bytes × PreviousValue → BatchOp
persist_original height hash (key, original) =
    put_cf (encode_key rollback_buffer_kv (record { height = height; hash = hash; key = key }))
      (previous_value.encode original)

-- The end of the entries that `apply_indexing_task` removes from the persistent rollback buffer.
abbrev pub gc_op : Point → ℕ → BatchOp
gc_op point max_rollback =
    delete_range_cf
      (encode_range rollback_buffer_kv none (some (u64.encode (point.height - max_rollback))))

unfoldable pub rollback_ops : FinalizedTask → Point → ℕ → List BatchOp
rollback_ops task point max_rollback = elim task.original_kvs [
  | none ↦ []
  | some original_kvs ↦
      map (persist_original (if task.mempool then u64_max else point.height) point.hash)
        original_kvs
      ++ (if task.mempool then [] else (gc_op point max_rollback ∷ []))
]

unfoldable pub timestamp_op : FinalizedTask → Point → ℕ → Option ℕ → BatchOp
timestamp_op task point commit_ts mempool_timestamp =
    put_cf (encode_key timestamps_kv (if task.mempool then mempool_kind else confirmed)) (
      timestamp_entry.encode (record {
        tip_height = point.height;
        tip_hash = point.hash;
        rocks_timestamp = commit_ts;
        mempool_timestamp = mempool_timestamp;
      }))

-- The write batch of `apply_indexing_task`.
unfoldable pub commit_batch : FinalizedTask → Point → ℕ → ℕ → Option ℕ → List BatchOp
commit_batch task point max_rollback commit_ts mempool_timestamp =
    map flush_action task.write_buffer
    ++ (rollback_ops task point max_rollback
        ++ (timestamp_op task point commit_ts mempool_timestamp ∷ []))

-- The timestamp after the last commit, or the clock's.
unfoldable pub next_timestamp : ℕ → Option Timestamp → Timestamp
next_timestamp now none = Timestamp.new now
next_timestamp now (some prev) = Timestamp.after now prev

pub record StorageHandler (db : Db) : Type 0 where
  pub store : db.Store
  pub previous_timestamp : Option Timestamp

module _ (db : Db) where
  unfoldable pub apply_indexing_task :
      ℕ → StorageHandler db → FinalizedTask → Point → ℕ → Option ℕ → StorageHandler db
  apply_indexing_task now h task point max_rollback mempool_timestamp =
      let commit_ts = next_timestamp now h.previous_timestamp in
      let ts = Timestamp.as_u64 commit_ts in
      record {
        store = db.write h.store ts (commit_batch task point max_rollback ts mempool_timestamp);
        previous_timestamp = some commit_ts;
      }

  -- `Reader::get`
  unfoldable pub reader_get :
      {K V : Type 0} → Table K V → db.Store → ℕ → K → Result Error (Option V)
  reader_get t s read_ts key = decode_option t (db.get s read_ts (encode_key t key))

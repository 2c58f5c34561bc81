-- ===== src/Serve/Entries.antt =====
-- src/storage/kv_store.rs and src/serve/mod.rs: the entries of `TimestampsKV` that a commit writes and
-- that a request reads.
use maestro_symphony.Prelude.{
  ℕ, ◌^◌, ◌≡◌, ◌≤◌, ◌<◌, refl, subst, arith, map, Option, none, some, true, false, Bytes,
  starts_with, list_eq, nat_eq, lookup, HasDistinctKeys, if◌then◌else◌, ok, ==_refl,
}
use maestro_symphony.Codec.{decode_all-encode}
use maestro_symphony.Timestamp.{Timestamp, as_u64}
use maestro_symphony.Timestamp.Laws.{from_u64-as_u64}
use maestro_symphony.Table.{encode_key}
use maestro_symphony.Core.{
  Point, TimestampEntry, timestamp_entry, timestamps_kv, confirmed, mempool_kind, PointKind,
}
use maestro_symphony.CoreLaws.{FitsTimestampEntry, timestamp_entry-IsLawful}
use maestro_symphony.Store.{
  Db, FinalizedTask, commit_batch, flush_action, rollback_ops, timestamp_op, apply_batch, apply_op,
  and_then, u64_max, reader_get,
}
use maestro_symphony.Commit.Batch.{
  apply_batch-append, apply_batch-flush, apply_batch-Keeps, rollback_ops-Keeps, rollback_prefix,
}
use maestro_symphony.Serve.Reader.{reader_at}

abbrev pub kind_of : FinalizedTask → PointKind
kind_of task = if task.mempool then mempool_kind else confirmed

abbrev pub key_of_kind : PointKind → Bytes
key_of_kind kind = encode_key timestamps_kv kind

abbrev pub entry_of : Point → ℕ → Option ℕ → TimestampEntry
entry_of point ts mempool_timestamp = record {
  tip_height = point.height;
  tip_hash = point.hash;
  rocks_timestamp = ts;
  mempool_timestamp = mempool_timestamp;
}

not_rollback : (kind : PointKind) → starts_with (key_of_kind kind) rollback_prefix ≡ false
unfolding encode_key
not_rollback confirmed = refl
not_rollback mempool_kind = refl

-- A task that writes none of the timestamps' keys by itself.
pub record LeavesTimestamps (task : FinalizedTask) : Type 0 where
  pub distinct : HasDistinctKeys task.write_buffer
  pub leaves : (kind : PointKind) → lookup (key_of_kind kind) task.write_buffer ≡ none

and_then-some : (o : Option (Option Bytes)) → and_then o (λ x. some x) ≡ o
and_then-some none = refl
and_then-some (some v) = refl

-- A commit writes the entry of its kind after all else, and no other entry.
apply_batch-timestamps :
    (task : FinalizedTask) (point : Point) (max_rollback ts : ℕ) (m : Option ℕ) (kind : PointKind)
    (v : Option Bytes)
    → LeavesTimestamps task
    → apply_batch (commit_batch task point max_rollback ts m) (key_of_kind kind) v
      ≡ apply_op (timestamp_op task point ts m) (key_of_kind kind) v
unfolding commit_batch apply_batch
apply_batch-timestamps task point max_rollback ts m kind v h =
    let key : Bytes = key_of_kind kind in
    rw
      (
        apply_batch-append (map flush_action task.write_buffer) _ key v,
        apply_batch-flush task.write_buffer key v h.distinct,
        h.leaves kind,
        apply_batch-append (rollback_ops task point max_rollback) _ key v,
        apply_batch-Keeps (rollback_ops task point max_rollback) key v
            (rollback_ops-Keeps task point max_rollback key (not_rollback kind)),
      )
      (and_then-some (apply_op (timestamp_op task point ts m) key v))

-- The entry of the commit's own kind.
commit_batch-own :
    (task : FinalizedTask) (point : Point) (max_rollback ts : ℕ) (m : Option ℕ) (v : Option Bytes)
    → LeavesTimestamps task
    → apply_batch (commit_batch task point max_rollback ts m) (key_of_kind (kind_of task)) v
      ≡ some (some (timestamp_entry.encode (entry_of point ts m)))
unfolding timestamp_op
commit_batch-own task point max_rollback ts m v h =
    rw
      (
        apply_batch-timestamps task point max_rollback ts m (kind_of task) v h,
        ==_refl (key_of_kind (kind_of task)),
      )
      refl

-- The commit of mempool blocks leaves the confirmed entry alone.
pub commit_batch-mempool :
    (task : FinalizedTask) (point : Point) (max_rollback ts : ℕ) (m : Option ℕ) (v : Option Bytes)
    → task.mempool ≡ true
    → LeavesTimestamps task
    → apply_batch (commit_batch task point max_rollback ts m) (key_of_kind confirmed) v ≡ some v
unfolding timestamp_op encode_key
commit_batch-mempool task point max_rollback ts m v b h =
    rw (apply_batch-timestamps task point max_rollback ts m confirmed v h, b) refl

pub as_u64-lt : (t : Timestamp) → as_u64 t < 2 ^ 64
unfolding as_u64
as_u64-lt t = omega arith

pub reader_at-same : (n : ℕ) → n < 2 ^ 64 → reader_at n ≡ n
reader_at-same n h =
    (from_u64-as_u64 (record { physical = 0; logical = 0 }) n
      (record { physical_fits = omega arith; logical_fits = omega arith }) h).1

-- The entry that a read finds.
pub read_entry :
    (db : Db) (s : db.Store) (read_ts : ℕ) (kind : PointKind) (e : TimestampEntry)
    → FitsTimestampEntry e
    → db.get s read_ts (key_of_kind kind) ≡ some (timestamp_entry.encode e)
    → reader_get db timestamps_kv s read_ts kind ≡ ok (some e)
unfolding reader_get
read_entry db s read_ts kind e f g =
    rw (g, decode_all-encode timestamp_entry FitsTimestampEntry e timestamp_entry-IsLawful f) refl

pub as_u64-le_last : (t : Timestamp) → as_u64 t ≤ reader_at u64_max
as_u64-le_last t =
    let lt = as_u64-lt t in let e = reader_at-same u64_max (omega arith) in omega arith

pub get-commit_batch :
    (db : Db) (s : db.Store) (task : FinalizedTask) (point : Point) (max_rollback ts : ℕ)
    (m : Option ℕ) (read_ts : ℕ) (kind : PointKind)
    → LeavesTimestamps task
    → db.newest s ≤ ts
    → ts ≤ read_ts
    → kind_of task ≡ kind
    → db.get (db.write s ts (commit_batch task point max_rollback ts m)) read_ts (key_of_kind kind)
      ≡ some (timestamp_entry.encode (entry_of point ts m))
get-commit_batch db s task point max_rollback ts m read_ts kind l n le e =
    db.get-write s ts _ read_ts (key_of_kind kind) _ n le (
      subst
        (λ k.
          apply_batch (commit_batch task point max_rollback ts m) (key_of_kind k)
            (db.get s read_ts (key_of_kind kind))
          ≡ some (some (timestamp_entry.encode (entry_of point ts m))))
        e (commit_batch-own task point max_rollback ts m _ l))

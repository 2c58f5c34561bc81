-- ===== src/Rollback/History.antt =====
-- src/sync/stages/index/worker/stage.rs: rolling back any number of committed blocks.
use maestro_symphony.Prelude.{
  ℕ, ◌≤◌, ◌≡◌, refl, ap, ◌∙◌, arith, List, [], ◌∷◌, Option, none, some, Bytes, lookup, list_eq,
  nat_eq, Option-cases, inl, inr,
}
use maestro_symphony.Timestamp.{Timestamp, as_u64}
use maestro_symphony.Core.{Point}
use maestro_symphony.Store.{
  Db, BatchOp, apply_batch, and_then, OriginalKvs, IndexingTask, finalize, apply_indexing_task,
  next_timestamp, commit_batch,
}
use maestro_symphony.Commit.Batch.{IsDataKey, apply_batch-append, apply_batch-commit_batch, flushed}
use maestro_symphony.Rollback.{PointWithOriginalKvs, undo_entries, undo_batch}
use maestro_symphony.Rollback.Undo.{
  restored, undone, restored-previous_value_of, undo_entries-undone,
}
use maestro_symphony.Rollback.Recorded.{IsRecorded}

undo_batch-cons :
    (point : Point) (kvs : OriginalKvs) (blocks : List PointWithOriginalKvs) (key : Bytes)
    (v : Option Bytes)
    → apply_batch (undo_batch (record { point = point; original_kvs = kvs } ∷ blocks)) key v
      ≡ and_then (apply_batch (undo_entries point kvs) key v) (apply_batch (undo_batch blocks) key)
unfolding undo_batch
undo_batch-cons point kvs blocks key v =
    apply_batch-append (undo_entries point kvs) (undo_batch blocks) key v

module _ (db : Db) where
  -- The value of a key after all that was written.
  abbrev pub value_at : db.Store → Bytes → Option Bytes
  value_at s key = db.get s (db.newest s) key

  value_at-write :
      (t : db.Store) (ts : ℕ) (ops : List BatchOp) (key : Bytes) (v : Option Bytes)
      → db.newest t ≤ ts
      → apply_batch ops key (db.get t ts key) ≡ some v
      → value_at (db.write t ts ops) key ≡ v
  value_at-write t ts ops key v nt e =
      ap (λ r. db.get (db.write t ts ops) r key) (db.newest-write t ts ops nt)
      ∙ db.get-write t ts ops ts key v nt (omega arith) e

  -- The blocks that were committed since a store, newest first, with what the rollback buffer keeps
  -- of each.
  pub data History (s : db.Store) : List PointWithOriginalKvs → db.Store → Type 0 where
    start : History s [] s
    commit :
        {blocks : List PointWithOriginalKvs} {t : db.Store}
        → History s blocks t
        → (now : ℕ) (prev : Option Timestamp) (task : IndexingTask) (kvs : OriginalKvs)
          (point kept_as : Point) (max_rollback : ℕ) (m : Option ℕ)
        → IsRecorded db t task kvs
        → db.newest t ≤ task.read_ts
        → db.newest t ≤ as_u64 (next_timestamp now prev)
        → History s
            (record { point = kept_as; original_kvs = kvs } ∷ blocks)
            (apply_indexing_task db now
              (record { store = t; previous_timestamp = prev })
              (finalize task)
              point
              max_rollback
              m).store

  -- Undoing one commit, on a data key.
  undone-commit :
      (t : db.Store) (now : ℕ) (prev : Option Timestamp) (task : IndexingTask) (kvs : OriginalKvs)
      (point : Point) (max_rollback : ℕ) (m : Option ℕ) (key : Bytes)
      → IsRecorded db t task kvs
      → db.newest t ≤ task.read_ts
      → db.newest t ≤ as_u64 (next_timestamp now prev)
      → IsDataKey key
      → undone (lookup key kvs) (
          value_at
            (apply_indexing_task db now
              (record { store = t; previous_timestamp = prev })
              (finalize task)
              point
              max_rollback
              m).store
            key)
        ≡ value_at t key
  unfolding apply_indexing_task finalize
  undone-commit t now prev task kvs point max_rollback m key r nt nc dk =
      elim (Option-cases (lookup key kvs)) [
        | inl e ↦
            rw e (value_at-write t ts batch key _ nc (untouched e) ∙ db.get-settled t ts key nc)
        | inr (o, e) ↦ rw e (
            ap restored (r.exact key o e)
            ∙ restored-previous_value_of (db.get t task.read_ts key)
            ∙ db.get-settled t task.read_ts key nt)
      ]
    where
      ts : ℕ
      ts = as_u64 (next_timestamp now prev)

      batch : List BatchOp
      batch = commit_batch (finalize task) point max_rollback ts m

      untouched :
          lookup key kvs ≡ none → apply_batch batch key (db.get t ts key) ≡ some (db.get t ts key)
      untouched e =
          apply_batch-commit_batch (finalize task) point max_rollback ts m key _ r.buffer_distinct
            dk
          ∙ ap (λ a. flushed a key (db.get t ts key)) (r.covers key e)

  undo_batch-History :
      {s : db.Store} {blocks : List PointWithOriginalKvs} {t : db.Store} (key : Bytes)
      → History s blocks t
      → IsDataKey key
      → apply_batch (undo_batch blocks) key (value_at t key) ≡ some (value_at s key)
  undo_batch-History {s} key start dk = unfold apply_batch undo_batch in refl
  undo_batch-History {s} key
        (commit {blocks = blocks} {t = t} h now prev task kvs point kept_as max_rollback m r nt nc)
        dk =
      undo_batch-cons kept_as kvs blocks key _
      ∙ ap (λ w. and_then w (apply_batch (undo_batch blocks) key))
          (undo_entries-undone kept_as key kvs _ dk r.kvs_distinct
            ∙ ap some (undone-commit t now prev task kvs point max_rollback m key r nt nc dk))
      ∙ undo_batch-History key h dk

  -- Let blocks be committed since a store, each by a task that recorded the original value of every key
  -- that it changed, that read all that was written before it, and whose commit's timestamp is not
  -- below any timestamp before it; let the undo's timestamp not be below any of those either. Then the
  -- undo of the blocks gives every data key, at the undo's timestamp and later, the value that it had
  -- in that store, whatever the blocks wrote.
  pub get-undo_batch :
      (s t : db.Store) (blocks : List PointWithOriginalKvs) (ts read_ts : ℕ) (key : Bytes)
      → History s blocks t
      → IsDataKey key
      → db.newest t ≤ ts
      → ts ≤ read_ts
      → db.get (db.write t ts (undo_batch blocks)) read_ts key ≡ value_at s key
  get-undo_batch s t blocks ts read_ts key h dk nt le =
      db.get-write t ts (undo_batch blocks) read_ts key (value_at s key) nt le
        (rw (db.get-settled t read_ts key (omega arith)) (undo_batch-History key h dk))

-- ===== src/Rollback/Recorded.antt =====
-- src/storage/kv_store.rs: the originals that an indexing task keeps while it writes.
use maestro_symphony.Prelude.{
  ◌≡◌, refl, subst, arith, List, [], ◌∷◌, Option, none, some, Bool, true, false, Bytes, lookup,
  contains_key, list_beq, list_beq_iff, list_eq, nat_eq, HasDistinctKeys, Bool-cases, inl, inr,
  lookup-insert, insert-HasDistinctKeys, Result, ok, ◌>>=◌, Result-cases,
}
use maestro_symphony.Timestamp.{Timestamp}
use maestro_symphony.Merge.{MergeOperation}
use maestro_symphony.Core.{Error, PreviousValue, previous_value_of}
use maestro_symphony.Store.{
  Db, OriginalKvs, IndexingTask, StorageAction, record_original, maybe_store_original_kv, buffer,
  set_raw, delete_raw, merge_raw, merged_action, begin_indexing_task, begin_mempool_indexing_task,
  begin_task,
}

ok-injective : {E A : Type 0} {a b : A} → ◌≡◌ {A = Result E A} (ok a) (ok b) → a ≡ b
ok-injective e = cc e

-- One write to a task, on an encoded key.
pub data TaskOp : Type 0 where
  set_op : Bytes → Bytes → TaskOp
  delete_op : Bytes → TaskOp
  merge_op : Bytes → MergeOperation → TaskOp

module _ (db : Db) where
  -- A task that keeps originals has, for every key that it changes, the value of the store as the
  -- task reads it.
  pub record IsRecorded (s : db.Store) (task : IndexingTask) (kvs : OriginalKvs) : Type 0 where
    pub originals : task.original_kvs ≡ some kvs
    pub buffer_distinct : HasDistinctKeys task.write_buffer
    pub kvs_distinct : HasDistinctKeys kvs
    pub exact :
        (k : Bytes) (o : PreviousValue)
        → lookup k kvs ≡ some o
        → o ≡ previous_value_of (db.get s task.read_ts k)
    pub covers : (k : Bytes) → lookup k kvs ≡ none → lookup k task.write_buffer ≡ none

  begin-IsRecorded :
      (s : db.Store) (prev : Option Timestamp)
      → IsRecorded s (begin_indexing_task prev true) []
        × IsRecorded s (begin_mempool_indexing_task prev) []
  unfolding begin_indexing_task begin_mempool_indexing_task
  begin-IsRecorded s prev = (fresh false, fresh true)
    where
      fresh : (is_mempool : Bool) → IsRecorded s (begin_task prev true is_mempool) []
      fresh is_mempool = record {
        originals = refl;
        buffer_distinct = tt;
        kvs_distinct = tt;
        exact = λ k o e. cc;
        covers = λ k e. refl;
      }

  -- What a change of `k` leaves recorded of `j`.
  abbrev kept_or_new : Option PreviousValue → Bool → PreviousValue → Option PreviousValue
  kept_or_new (some o) same new = some o
  kept_or_new none true new = some new
  kept_or_new none false new = none

  lookup-record_original :
      (s : db.Store) (task : IndexingTask) (kvs : OriginalKvs) (k j : Bytes)
      → lookup j (record_original db s task k kvs)
        ≡ kept_or_new (lookup j kvs) (list_beq k j) (previous_value_of (db.get s task.read_ts k))
  lookup-record_original s task kvs k j =
      ground (
        arith,
        list_beq_iff k j,
        lookup-insert j k (previous_value_of (db.get s task.read_ts k)) kvs,
      )

  buffer-IsRecorded :
      (s : db.Store) (task : IndexingTask) (kvs : OriginalKvs) (k : Bytes) (a : StorageAction)
      → IsRecorded s task kvs
      → IsRecorded s
          (buffer db s (maybe_store_original_kv db s task k) k a)
          (record_original db s task k kvs)
  unfolding maybe_store_original_kv
  buffer-IsRecorded s task kvs k a r = record {
    originals = rw r.originals;
    buffer_distinct = insert-HasDistinctKeys k a task.write_buffer r.buffer_distinct;
    kvs_distinct = distinct;
    exact = λ j o e.
        ground (arith, lookup-record_original s task kvs k j, r.exact j o, list_beq_iff k j);
    covers = λ j e. ground (
      arith,
      lookup-record_original s task kvs k j,
      lookup-insert j k a task.write_buffer,
      r.covers j,
    );
  }
    where
      distinct : HasDistinctKeys (record_original db s task k kvs)
      distinct = elim (Bool-cases (contains_key k kvs)) [
        | inl c ↦ rw c r.kvs_distinct
        | inr c ↦ rw c (insert-HasDistinctKeys k _ kvs r.kvs_distinct)
      ]

  unfoldable pub run_op : db.Store → TaskOp → IndexingTask → Result Error IndexingTask
  run_op s (set_op k v) task = ok (set_raw db s task k v)
  run_op s (delete_op k) task = ok (delete_raw db s task k)
  run_op s (merge_op k op) task = merge_raw db s task k op

  unfoldable pub run_ops : db.Store → List TaskOp → IndexingTask → Result Error IndexingTask
  run_ops s [] task = ok task
  run_ops s (op ∷ ops) task = do task' ← run_op s op task; run_ops s ops task'

  transfer :
      (s : db.Store) (kvs : OriginalKvs) (u t : IndexingTask)
      → ◌≡◌ {A = Result Error IndexingTask} (ok u) (ok t)
      → IsRecorded s u kvs
      → IsRecorded s t kvs
  transfer s kvs u t e r = subst (λ x. IsRecorded s x kvs) (ok-injective e) r

  run_op-IsRecorded :
      (s : db.Store) (op : TaskOp) (task t : IndexingTask) (kvs : OriginalKvs)
      → IsRecorded s task kvs
      → run_op s op task ≡ ok t
      → (kvs' : OriginalKvs) × IsRecorded s t kvs'
  unfolding run_op set_raw delete_raw merge_raw
  run_op-IsRecorded s (set_op k v) task t kvs r e =
      (record_original db s task k kvs, transfer s _ _ t e (buffer-IsRecorded s task kvs k _ r))
  run_op-IsRecorded s (delete_op k) task t kvs r e =
      (record_original db s task k kvs, transfer s _ _ t e (buffer-IsRecorded s task kvs k _ r))
  run_op-IsRecorded s (merge_op k op) task t kvs r e =
      elim (Result-cases (merged_action db s (lookup k task.write_buffer) op)) [
        | inl (a, q) ↦ (
          record_original db s task k kvs,
          transfer s _ _ t (rw q at e) (buffer-IsRecorded s task kvs k a r),
        )
        | inr (x, q) ↦ absurd (cc (rw q at e))
      ]

  run_ops-IsRecorded :
      (s : db.Store) (ops : List TaskOp) (task t : IndexingTask) (kvs : OriginalKvs)
      → IsRecorded s task kvs
      → run_ops s ops task ≡ ok t
      → (kvs' : OriginalKvs) × IsRecorded s t kvs'
  unfolding run_ops
  run_ops-IsRecorded s [] task t kvs r e = (kvs, transfer s kvs task t e r)
  run_ops-IsRecorded s (op ∷ ops) task t kvs r e = elim (Result-cases (run_op s op task)) [
    | inl (task', q) ↦
        let (kvs', r') = run_op-IsRecorded s op task task' kvs r q in
        run_ops-IsRecorded s ops task' t kvs' r' (rw q at e)
    | inr (x, q) ↦ absurd (cc (rw q at e))
  ]

  -- Whatever a task that keeps originals writes, it ends with the original value of every key that
  -- it changed.
  pub run_ops_from_begin-IsRecorded :
      (s : db.Store) (prev : Option Timestamp) (ops : List TaskOp) (t : IndexingTask)
      → run_ops s ops (begin_indexing_task prev true) ≡ ok t
      → (kvs : OriginalKvs) × IsRecorded s t kvs
  run_ops_from_begin-IsRecorded s prev ops t e =
      run_ops-IsRecorded s ops _ t [] (begin-IsRecorded s prev).0 e

-- ===== src/Serve/Snapshot.antt =====
-- src/serve/mod.rs and src/storage/kv_store.rs: the times at which requests read, after the commit of a
-- block and of the mempool blocks on it.
use maestro_symphony.Prelude.{
  ℕ, ◌-◌, ◌≡◌, ◌≤◌, ◌<◌, refl, sym, ap, ◌∙◌, arith, [], Option, none, some, true, false, Bytes,
  list_beq, list_eq, nat_eq, if◌then◌else◌, ok,
}
use maestro_symphony.Timestamp.{as_u64}
use maestro_symphony.Core.{Point, TimestampEntry, timestamps_kv, confirmed, mempool_kind}
use maestro_symphony.CoreLaws.{FitsTimestampEntry}
use maestro_symphony.Store.{
  Db, StorageHandler, FinalizedTask, apply_indexing_task, next_timestamp, u64_max, reader_get,
}
use maestro_symphony.Rollback.History.{value_at}
use maestro_symphony.Serve.Reader.{
  reader_at, info_at, estimate, start_reader, get_expected, get_maybe,
}
use maestro_symphony.Serve.Entries.{
  key_of_kind, entry_of, LeavesTimestamps, as_u64-lt, reader_at-same, read_entry, as_u64-le_last,
  get-commit_batch, commit_batch-mempool,
}

-- The commit of a block and the commit of mempool blocks after it.
module _ (db : Db) (h : StorageHandler db) (now mempool_now max_rollback : ℕ)
    (task mempool_task : FinalizedTask) (point mempool_point : Point) (m mempool_m : Option ℕ) where
  abbrev pub block_ts : ℕ
  block_ts = as_u64 (next_timestamp now h.previous_timestamp)

  abbrev pub after_block : StorageHandler db
  after_block = apply_indexing_task db now h task point max_rollback m

  abbrev pub mempool_ts : ℕ
  mempool_ts = as_u64 (next_timestamp mempool_now (some (next_timestamp now h.previous_timestamp)))

  abbrev pub after_mempool : StorageHandler db
  after_mempool =
      apply_indexing_task db mempool_now after_block mempool_task mempool_point max_rollback
        mempool_m

  abbrev pub block_entry : TimestampEntry
  block_entry = entry_of point block_ts m

  abbrev pub mempool_entry : TimestampEntry
  mempool_entry = entry_of mempool_point mempool_ts mempool_m

  -- The block is committed after all that was written, and its mempool blocks after it.
  pub record InOrder : Type 0 where
    pub block_task : task.mempool ≡ false
    pub mempool_task_too : mempool_task.mempool ≡ true
    pub leaves : LeavesTimestamps task
    pub mempool_leaves : LeavesTimestamps mempool_task
    pub newest : db.newest h.store ≤ block_ts
    pub later : block_ts < mempool_ts
    pub fits : FitsTimestampEntry block_entry
    pub mempool_fits : FitsTimestampEntry mempool_entry

  newest_after_block : InOrder → db.newest after_block.store ≡ block_ts
  unfolding apply_indexing_task
  newest_after_block o = db.newest-write h.store block_ts _ o.newest

  reads_confirmed :
      InOrder
      → reader_get db timestamps_kv after_mempool.store (reader_at u64_max) confirmed
        ≡ ok (some block_entry)
  unfolding apply_indexing_task
  reads_confirmed o =
      let n = newest_after_block o in
      let last = reader_at u64_max in
      read_entry db after_mempool.store last confirmed block_entry o.fits (
        db.get-write after_block.store mempool_ts _ last (key_of_kind confirmed) _
          (rw n (omega arith)) (as_u64-le_last _)
          (commit_batch-mempool mempool_task mempool_point max_rollback mempool_ts mempool_m _
            o.mempool_task_too o.mempool_leaves)
        ∙ get-commit_batch db h.store task point max_rollback block_ts m last confirmed o.leaves
            o.newest (as_u64-le_last _) (rw o.block_task refl))

  reads_mempool :
      InOrder
      → reader_get db timestamps_kv after_mempool.store (reader_at u64_max) mempool_kind
        ≡ ok (some mempool_entry)
  unfolding apply_indexing_task
  reads_mempool o =
      let n = newest_after_block o in
      read_entry db after_mempool.store (reader_at u64_max) mempool_kind mempool_entry
        o.mempool_fits
        (get-commit_batch db after_block.store mempool_task mempool_point max_rollback mempool_ts
          mempool_m (reader_at u64_max) mempool_kind o.mempool_leaves (rw n (omega arith))
          (as_u64-le_last _) (rw o.mempool_task_too refl))

  reads_before :
      InOrder
      → (key : Bytes)
      → db.get after_mempool.store block_ts key ≡ db.get after_block.store block_ts key
  unfolding apply_indexing_task
  reads_before o key =
      let n = newest_after_block o in
      db.get-write_before after_block.store mempool_ts _ block_ts key (rw n (omega arith)) o.later

  -- What is read at the mempool's timestamp is all that is committed.
  reads_last :
      InOrder
      → (key : Bytes)
      → db.get after_mempool.store mempool_ts key ≡ value_at db after_mempool.store key
  unfolding apply_indexing_task
  reads_last o key =
      let n = newest_after_block o in
      ap (λ ts. db.get after_mempool.store ts key)
        (sym (db.newest-write after_block.store mempool_ts _ (rw n (omega (arith, o.later)))))

  -- Let a block be committed, and directly after it mempool blocks at a later timestamp, that of the
  -- block not being below any before it, as when the clock does not go back; let neither task change
  -- the entries for the timestamps, and the new entries fit their types. Then a request without the
  -- mempool reads the store as it was after the block, and one with the mempool reads at the mempool's
  -- timestamp, which is all that was committed, if the mempool's blocks are chained on the confirmed
  -- tip, and otherwise as the first.
  pub start_reader-snapshot :
      InOrder
      → (start_reader db after_mempool.store false
          ≡ ok (record { read_ts = block_ts; indexer_info = info_at block_entry none [] }))
        × ((key : Bytes)
            → db.get after_mempool.store block_ts key ≡ db.get after_block.store block_ts key)
        × ((key : Bytes)
            → db.get after_mempool.store mempool_ts key ≡ value_at db after_mempool.store key)
        × (start_reader db after_mempool.store true
            ≡ ok (
                if list_beq mempool_point.hash point.hash
                then record {
                  read_ts = mempool_ts;
                  indexer_info =
                      info_at block_entry mempool_m
                        (estimate point.height (mempool_point.height - point.height));
                }
                else record { read_ts = block_ts; indexer_info = info_at block_entry none [] }))
  unfolding start_reader get_expected get_maybe
  start_reader-snapshot o = (
    rw (reads_confirmed o, reader_at-same block_ts (as_u64-lt _)) refl,
    reads_before o,
    reads_last o,
    rw
        (
          reads_confirmed o,
          reads_mempool o,
          reader_at-same block_ts (as_u64-lt _),
          reader_at-same mempool_ts (as_u64-lt _),
        )
        refl,
  )

-- ===== src/Worker/Execute.antt =====
-- src/sync/stages/index/worker/stage.rs: `execute`, the index stage on each chain event, and
-- `schedule`.
use maestro_symphony.Prelude.{
  ℕ, ◌+◌, ◌-◌, List, [], ◌∷◌, ◌++◌, Option, none, some, Bool, true, false, ◌||◌, Bytes, list_beq,
  nat_eq, ltb, length, if◌then◌else◌, Result, ok, err, ◌>>=◌,
}
use maestro_symphony.Core.{Point, Error, hash_by_height_kv, BlockTxs}
use maestro_symphony.Store.{Db, begin_indexing_task, begin_mempool_indexing_task, set, u64_max}
use maestro_symphony.Rollback.{PointWithOriginalKvs, points_since}
use maestro_symphony.Worker.Cache.{CacheLib}
use maestro_symphony.Worker.Context.{Progress}
use maestro_symphony.Worker.Index.{
  ProcessTransaction, Failure, index_txs, index_mempool_blocks, prepare, set_info,
}
use maestro_symphony.Worker.Stage.{
  Stage, Outcome, worker_panic, Clock, ChainEvent, roll_forward, roll_back, mempool_blocks,
  MempoolSnapshotInfo, Undo, undo_to_point, commit_task, failed, stopped,
}

-- The point that stands for the mempool blocks in the rollback buffer.
abbrev pub mempool_point : Point → Point
mempool_point tip = record { height = u64_max; hash = tip.hash }

-- The last of the mempool blocks, or the tip where there is none.
abbrev pub mempool_tip : Point → List BlockTxs → Point
mempool_tip tip blocks = record { height = tip.height + length blocks; hash = tip.hash }

module _ (lib : CacheLib) (db : Db) where
  -- The entries of the block itself.
  abbrev pub finish_block : Stage lib db → Point → Progress lib.Cache → Progress lib.Cache
  finish_block st point p =
      let p' = set_info lib db st.handler.store point false p in
      record p' { task = set db st.handler.store hash_by_height_kv p'.task point.height point.hash }

  abbrev pub commit_block :
      ℕ
      → Stage lib db
      → Bool
      → Point
      → Result (Failure lib.Cache) (Progress lib.Cache)
      → Outcome lib db
  commit_block now st mutable point (ok p) =
      stopped lib db
        (record (commit_task lib db now st (finish_block st point p) point point none) {
          last_processed = point;
        })
        mutable (ok tt)
  commit_block now st mutable point (err f) = failed lib db st mutable f

  unfoldable pub index_block :
      ℕ → List (ProcessTransaction db) → Stage lib db → Bool → Point → BlockTxs → Outcome lib db
  index_block now indexers st mutable point txs =
      let task = begin_indexing_task st.handler.previous_timestamp mutable in
      commit_block now st mutable point (do
        p ← prepare lib db st.handler.store task txs point st.network st.utxo_cache
        index_txs lib db st.handler.store indexers txs 0 p)

  -- Originals are kept from the first block that is near enough to the tip.
  abbrev pub near_tip : Stage lib db → Point → Point → Bool
  near_tip st point tip = ltb (tip.height - st.max_rollbacks) point.height

  -- The checks of a new block against the last one.
  unfoldable pub accept_block :
      ℕ
      → List (ProcessTransaction db)
      → Stage lib db
      → Bool
      → Point
      → Bytes
      → BlockTxs
      → Point
      → Outcome lib db
  accept_block now indexers st mutable point prev_blockhash txs tip =
      let expected_height = st.last_processed.height + 1 in
      if ltb point.height expected_height
      then stopped lib db st mutable (ok tt)
      else if ltb expected_height point.height
      then stopped lib db st mutable (err worker_panic)
      else if list_beq prev_blockhash st.last_processed.hash
      then index_block now indexers st (mutable || near_tip st point tip) point txs
      else stopped lib db st mutable (err worker_panic)

  -- What follows an undo, unless it failed.
  abbrev pub after_undo : Bool → Undo lib db → (Stage lib db → Outcome lib db) → Outcome lib db
  after_undo mutable (st, ok _) f = f st
  after_undo mutable (st, err e) f = stopped lib db st mutable (err e)

  unfoldable pub execute_roll_forward :
      Clock
      → List (ProcessTransaction db)
      → Stage lib db
      → Bool
      → Point
      → Bytes
      → BlockTxs
      → Point
      → Outcome lib db
  execute_roll_forward clock indexers st mutable point prev_blockhash txs tip =
      after_undo mutable
        (if st.processed_mempool
          then undo_to_point lib db clock.undo st st.last_processed
          else (st, ok tt))
        (λ st'. accept_block clock.commit indexers st' mutable point prev_blockhash txs tip)

  abbrev pub commit_mempool :
      ℕ
      → Stage lib db
      → Bool
      → MempoolSnapshotInfo
      → List BlockTxs
      → Result (Failure lib.Cache) (Progress lib.Cache)
      → Outcome lib db
  commit_mempool now st mutable info blocks (ok p) =
      let tip = st.last_processed in
      stopped lib db
        (record (commit_task lib db now st p (mempool_tip tip blocks) (mempool_point tip)
          (some info.timestamp)) { processed_mempool = true })
        mutable (ok tt)
  commit_mempool now st mutable info blocks (err f) = failed lib db st mutable f

  abbrev pub concat_blocks : List BlockTxs → BlockTxs
  concat_blocks [] = []
  concat_blocks (txs ∷ blocks) = txs ++ concat_blocks blocks

  unfoldable pub index_mempool :
      ℕ
      → List (ProcessTransaction db)
      → Stage lib db
      → Bool
      → MempoolSnapshotInfo
      → List BlockTxs
      → Outcome lib db
  index_mempool now indexers st mutable info blocks =
      let store = st.handler.store in
      let tip = st.last_processed in
      if list_beq info.tip tip.hash
      then (let task = begin_mempool_indexing_task st.handler.previous_timestamp in
          commit_mempool now st mutable info blocks (do
            p ← prepare lib db store task (concat_blocks blocks) tip st.network st.utxo_cache
            index_mempool_blocks lib db store indexers tip blocks 0 p))
      else stopped lib db st mutable (ok tt)

  -- The mempool blocks of the last snapshot are undone, if there are any.
  abbrev pub undo_mempool :
      ℕ → Stage lib db → Result Error (List PointWithOriginalKvs) → Undo lib db
  undo_mempool now st (err e) = (st, err worker_panic)
  undo_mempool now st (ok []) = (st, ok tt)
  undo_mempool now st (ok (_ ∷ _)) = undo_to_point lib db now st st.last_processed

  unfoldable pub execute_mempool :
      Clock
      → List (ProcessTransaction db)
      → Stage lib db
      → Bool
      → MempoolSnapshotInfo
      → List BlockTxs
      → Outcome lib db
  execute_mempool clock indexers st mutable info blocks =
      after_undo mutable
        (undo_mempool clock.undo st (points_since st.rollback_buffer st.last_processed))
        (λ st'. index_mempool clock.commit indexers st' mutable info blocks)

  unfoldable pub execute :
      Clock → List (ProcessTransaction db) → Stage lib db → Bool → ChainEvent → Outcome lib db
  execute clock indexers st mutable (roll_forward point prev_blockhash txs tip) =
      execute_roll_forward clock indexers st mutable point prev_blockhash txs tip
  execute clock indexers st mutable (roll_back point) =
      let (st', result) = undo_to_point lib db clock.undo st point in
      stopped lib db st' mutable result
  execute clock indexers st mutable (mempool_blocks info blocks) =
      execute_mempool clock indexers st mutable info blocks

  -- `schedule`: past the height to stop after, the worker is done.
  unfoldable pub schedule : Stage lib db → ChainEvent → Option ChainEvent
  schedule st (roll_forward point prev_blockhash txs tip) = elim st.stop_after [
    | none ↦ some (roll_forward point prev_blockhash txs tip)
    | some stop ↦
        if ltb stop point.height then none else some (roll_forward point prev_blockhash txs tip)
  ]
  schedule st event = some event

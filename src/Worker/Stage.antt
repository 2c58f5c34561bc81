-- ===== src/Worker/Stage.antt =====
-- src/sync/stages/index/worker/stage.rs: the index stage on each chain event. The clock's two readings
-- are arguments; logging and timings are left out.
use maestro_symphony.Prelude.{
  ℕ, List, Option, none, some, Bool, false, Bytes, nat_eq, Result, ok, err,
}
use maestro_symphony.Core.{Point, Error, panic, BlockTxs}
use maestro_symphony.Timestamp.{as_u64}
use maestro_symphony.Store.{
  Db, StorageHandler, OriginalKvs, finalize, apply_indexing_task, next_timestamp,
}
use maestro_symphony.Rollback.{
  RollbackBuffer, PointWithOriginalKvs, add_block, points_since, rollback_to_point, undo_batch,
}
use maestro_symphony.Worker.Cache.{CacheLib}
use maestro_symphony.Worker.Context.{Progress, Network}
use maestro_symphony.Worker.Index.{Failure}

pub data WorkerError : Type 0 where
  worker_panic worker_restart : WorkerError

-- `or_restart` on an error; a panic of the code is no error to start again after.
abbrev pub or_restart : Error → WorkerError
or_restart (panic w) = worker_panic
or_restart _ = worker_restart

pub record MempoolSnapshotInfo : Type 0 where
  pub timestamp : ℕ
  pub tip : Bytes

-- Of a header, the hash of the block before.
pub data ChainEvent : Type 0 where
  roll_forward : Point → Bytes → BlockTxs → Point → ChainEvent
  roll_back : Point → ChainEvent
  mempool_blocks : MempoolSnapshotInfo → List BlockTxs → ChainEvent

pub record Clock : Type 0 where
  pub undo : ℕ
  pub commit : ℕ

pub record Stage (lib : CacheLib) (db : Db) : Type 0 where
  pub handler : StorageHandler db
  pub network : Network
  pub rollback_buffer : RollbackBuffer
  pub max_rollbacks : ℕ
  pub last_processed : Point
  pub processed_mempool : Bool
  pub utxo_cache : Option lib.Cache
  pub stop_after : Option ℕ

-- The stage and the worker's `mutable` as a step leaves them, and what the step answers.
pub record Outcome (lib : CacheLib) (db : Db) : Type 0 where
  pub stage : Stage lib db
  pub mutable : Bool
  pub result : Result WorkerError (Unit {0})

module _ (lib : CacheLib) (db : Db) where
  abbrev pub Undo : Type 0
  Undo = Stage lib db × Result WorkerError (Unit {0})

  -- The end of `rollback_to_point`.
  abbrev pub trim : Stage lib db → Result Error (List PointWithOriginalKvs × RollbackBuffer) → Undo
  trim st (ok (undone, buffer)) = (record st { rollback_buffer = buffer }, ok tt)
  trim st (err e) = (st, err worker_panic)

  abbrev pub undone_stage : ℕ → Stage lib db → Point → List PointWithOriginalKvs → Stage lib db
  undone_stage now st point blocks =
      let commit_ts = next_timestamp now st.handler.previous_timestamp in
      record st {
        handler = record {
          store = db.write st.handler.store (as_u64 commit_ts) (undo_batch blocks);
          previous_timestamp = some commit_ts;
        };
        last_processed = point;
        processed_mempool = false;
      }

  abbrev pub undo_blocks :
      ℕ → Stage lib db → Point → Result Error (List PointWithOriginalKvs) → Undo
  undo_blocks now st point (err e) = (st, err worker_panic)
  undo_blocks now st point (ok blocks) =
      trim (undone_stage now st point blocks) (rollback_to_point st.rollback_buffer point)

  -- `Stage::rollback_to_point`
  unfoldable pub undo_to_point : ℕ → Stage lib db → Point → Undo
  undo_to_point now st point = undo_blocks now st point (points_since st.rollback_buffer point)

  abbrev pub buffer_block : Point → Option OriginalKvs → RollbackBuffer → RollbackBuffer
  buffer_block point none buffer = buffer
  buffer_block point (some original_kvs) buffer = add_block buffer point original_kvs

  -- The finished task goes to the store, and its originals to the rollback buffer.
  abbrev pub commit_task :
      ℕ → Stage lib db → Progress lib.Cache → Point → Point → Option ℕ → Stage lib db
  commit_task now st p point buffer_point mempool_timestamp =
      let task = finalize p.task in
      record st {
        handler =
            apply_indexing_task db now st.handler task point st.max_rollbacks mempool_timestamp;
        rollback_buffer = buffer_block buffer_point task.original_kvs st.rollback_buffer;
        utxo_cache = p.cache;
      }

  abbrev pub failed : Stage lib db → Bool → Failure lib.Cache → Outcome lib db
  failed st mutable f = record {
    stage = record st { utxo_cache = f.cache };
    mutable = mutable;
    result = err (or_restart f.cause);
  }

  abbrev pub stopped : Stage lib db → Bool → Result WorkerError (Unit {0}) → Outcome lib db
  stopped st mutable result = record { stage = st; mutable = mutable; result = result }

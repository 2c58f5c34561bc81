-- ===== src/Worker/Index.antt =====
-- src/sync/stages/index/worker/stage.rs: the indexers on the transactions of a block. A failure
-- keeps the cache as the steps before it left it.
use maestro_symphony.Prelude.{
  ℕ, suc, ◌+◌, List, [], ◌∷◌, Option, Bool, true, Result, ok, err, ◌>>=◌, map_err,
}
use maestro_symphony.Core.{Point, Error, indexer_info_kv, TransactionWithId, BlockTxs}
use maestro_symphony.Store.{Db, IndexingTask, set}
use maestro_symphony.Worker.Cache.{CacheLib}
use maestro_symphony.Worker.Context.{
  IndexingContext, Progress, Network, new, update_point, update_utxo_set,
}

-- `ProcessTransaction::process_tx` of one indexer, on a store that the task reads.
abbrev pub ProcessTransaction : Db → Type 0
ProcessTransaction db =
    db.Store
    → IndexingTask
    → TransactionWithId
    → ℕ
    → IndexingContext
    → Result Error (IndexingTask × IndexingContext)

pub record Failure (C : Type 0) : Type 0 where
  pub cause : Error
  pub cache : Option C

module _ (lib : CacheLib) (db : Db) (s : db.Store) where
  abbrev Outcome : Type 0
  Outcome = Result (Failure lib.Cache) (Progress lib.Cache)

  abbrev pub failing :
      {A : Type 0} → Option lib.Cache → Result Error A → Result (Failure lib.Cache) A
  failing cache r = map_err (λ e. record { cause = e; cache = cache }) r

  unfoldable pub run_indexers :
      List (ProcessTransaction db) → TransactionWithId → ℕ → Progress lib.Cache → Outcome
  run_indexers [] tx block_index p = ok p
  run_indexers (process_tx ∷ indexers) tx block_index p = do
    (task, ctx) ← failing p.cache (process_tx s p.task tx block_index p.ctx)
    run_indexers indexers tx block_index (record p { task = task; ctx = ctx })

  unfoldable pub index_txs :
      List (ProcessTransaction db) → BlockTxs → ℕ → Progress lib.Cache → Outcome
  index_txs indexers [] block_index p = ok p
  index_txs indexers (tx ∷ txs) block_index p = do
    p' ← run_indexers indexers tx block_index p
    index_txs indexers txs (suc block_index) (update_utxo_set lib db s tx p')

  abbrev pub set_info : Point → Bool → Progress lib.Cache → Progress lib.Cache
  set_info point mempool p = record p {
    task = set db s indexer_info_kv p.task tt (record {
      last_point_height = point.height;
      last_point_hash = point.hash;
      mempool = mempool;
    });
  }

  -- The mempool blocks chain on `tip`: each has its hash and the next height.
  abbrev pub pseudo_point : Point → ℕ → Point
  pseudo_point tip i = record { height = tip.height + 1 + i; hash = tip.hash }

  unfoldable pub index_mempool_blocks :
      List (ProcessTransaction db) → Point → List BlockTxs → ℕ → Progress lib.Cache → Outcome
  index_mempool_blocks indexers tip [] i p = ok p
  index_mempool_blocks indexers tip (txs ∷ blocks) i p = do
    let point = pseudo_point tip i
    p' ← index_txs indexers txs 0 (record p { ctx = update_point p.ctx point })
    index_mempool_blocks indexers tip blocks (suc i) (set_info point true p')

  abbrev pub begin_progress :
      IndexingTask → Result Error IndexingContext × Option lib.Cache → Outcome
  begin_progress task (ok ctx, cache) =
      ok (record { task = task; ctx = ctx; cache = cache; outs_written = 0 })
  begin_progress task (err e, cache) = err (record { cause = e; cache = cache })

  -- The task, and the context with the resolved inputs.
  unfoldable pub prepare : IndexingTask → BlockTxs → Point → Network → Option lib.Cache → Outcome
  prepare task txs point network cache =
      begin_progress task (new lib db s task txs point network cache)

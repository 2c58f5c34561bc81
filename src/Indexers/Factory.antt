-- ===== src/Indexers/Factory.antt =====
-- src/sync/stages/index/indexers/custom/mod.rs: the indexers of a configuration, and
-- src/sync/stages/index/worker/stage.rs: the stage that runs them on a sequence of events.
use maestro_symphony.Prelude.{
  ℕ, ◌≡◌, refl, ◌∙◌, ap, sym, subst, List, [], ◌∷◌, Bool, All, lookup, list_eq, nat_eq, Result, ok,
  ◌>>=◌, bind-ok, ok-injective, Result-cases, inl, inr,
}
use maestro_symphony.Core.{Error}
use maestro_symphony.Store.{
  Db, IndexingTask, delete_raw, merge_raw, merged_action, buffer, maybe_store_original_kv,
}
use maestro_symphony.Rollback.Recorded.{TaskOp, set_op, delete_op, merge_op, run_op, run_ops}
use maestro_symphony.Worker.Cache.{CacheLib}
use maestro_symphony.Worker.Index.{ProcessTransaction}
use maestro_symphony.Worker.Stage.{Stage, ChainEvent, Clock}
use maestro_symphony.Worker.Execute.{execute}
use maestro_symphony.Worker.Consistency.{IsConsistent}
use maestro_symphony.Worker.Invariant.{FitsEvent, execute-IsConsistent}
use maestro_symphony.Worker.Kept.{KeepsOriginals, SameKept, SameKept-IsClosed, is_kept}
use maestro_symphony.Worker.Traces.{WritesOnly}
use maestro_symphony.Runes.Ordinals.{OrdinalsLib}
use maestro_symphony.Runes.Index.{RunesIndexerConfig, index_runes}
use maestro_symphony.Runes.OutputWrites.{index_runes-WritesOnly}
use maestro_symphony.Indexers.TxCount.{count_tx, count_tx-WritesOnly}
use maestro_symphony.Indexers.Utxos.{index_utxos, index_utxos-WritesOnly}
use maestro_symphony.Indexers.Charms.{ExtractSpell, index_charms}
use maestro_symphony.Indexers.Charms.Reads.{index_charms-WritesOnly}

-- What the indexers call of third-party crates.
pub record IndexerLibs : Type 0 where
  pub ordinals : OrdinalsLib
  pub extract_spell : ExtractSpell

-- Of the charms indexer, the start height.
pub data TransactionIndexerFactory : Type 0 where
  tx_count_by_address : TransactionIndexerFactory
  runes : RunesIndexerConfig → TransactionIndexerFactory
  utxos_by_address : TransactionIndexerFactory
  charms : ℕ → TransactionIndexerFactory

module _ (libs : IndexerLibs) (db : Db) where
  unfoldable pub create_indexer : TransactionIndexerFactory → Result Error (ProcessTransaction db)
  create_indexer tx_count_by_address = ok (count_tx db)
  create_indexer (runes config) = ok (index_runes libs.ordinals config db)
  create_indexer utxos_by_address = ok (index_utxos db)
  create_indexer (charms start_height) = ok (index_charms libs.extract_spell start_height db)

  -- `Worker::bootstrap`
  unfoldable pub create_indexers :
      List TransactionIndexerFactory → Result Error (List (ProcessTransaction db))
  create_indexers [] = ok []
  create_indexers (spec ∷ specs) = do
    indexer ← create_indexer spec
    indexers ← create_indexers specs
    ok (indexer ∷ indexers)

  create_indexer-WritesOnly :
      (spec : TransactionIndexerFactory)
      → (f : ProcessTransaction db) × (create_indexer spec ≡ ok f) × WritesOnly db f
  unfolding create_indexer
  create_indexer-WritesOnly tx_count_by_address = (count_tx db, refl, count_tx-WritesOnly db)
  create_indexer-WritesOnly (runes config) =
      (index_runes libs.ordinals config db, refl, index_runes-WritesOnly libs.ordinals config db)
  create_indexer-WritesOnly utxos_by_address = (index_utxos db, refl, index_utxos-WritesOnly db)
  create_indexer-WritesOnly (charms start_height) = (
    index_charms libs.extract_spell start_height db,
    refl,
    index_charms-WritesOnly libs.extract_spell start_height db,
  )

  -- Every configuration has its indexers, and whatever transaction they process, they change the task
  -- by sets, deletes and merges only.
  pub create_indexers-WritesOnly :
      (specs : List TransactionIndexerFactory)
      → (fs : List (ProcessTransaction db)) × (create_indexers specs ≡ ok fs)
        × All (WritesOnly db) fs
  unfolding create_indexers
  create_indexers-WritesOnly [] = ([], refl, tt)
  create_indexers-WritesOnly (spec ∷ specs) =
      let (f, a, w) = create_indexer-WritesOnly spec in
      let (fs, b, ws) = create_indexers-WritesOnly specs in (f ∷ fs, rw (a, b) refl, (w, ws))

  run_op-SameKept :
      (s : db.Store) (op : TaskOp) (t u : IndexingTask)
      → run_op db s op t ≡ ok u
      → SameKept db s t u
  unfolding run_op merge_raw delete_raw
  run_op-SameKept s (set_op k v) t u e =
      subst (SameKept db s t) (ok-injective e) ((SameKept-IsClosed db).at_set s t k v)
  run_op-SameKept s (delete_op k) t u e =
      subst (SameKept db s t) (ok-injective e) ((SameKept-IsClosed db).at_delete s t k)
  run_op-SameKept s (merge_op k op) t u e =
      elim (Result-cases (merged_action db s (lookup k t.write_buffer) op)) [
        | inl (a, q) ↦
            let d : SameKept db s t (buffer db s (maybe_store_original_kv db s t k) k a) =
              (SameKept-IsClosed db).at_delete s t k in
            subst (SameKept db s t) (ok-injective (rw q at e)) d
        | inr (x, q) ↦ absurd (cc (rw q at e))
      ]

  run_ops-SameKept :
      (s : db.Store) (ops : List TaskOp) (t u : IndexingTask)
      → run_ops db s ops t ≡ ok u
      → SameKept db s t u
  unfolding run_ops
  run_ops-SameKept s [] t u e = ap is_kept (sym (ok-injective e))
  run_ops-SameKept s (op ∷ ops) t u e =
      let (t', a, b) = bind-ok (run_op db s op t) (run_ops db s ops) u e in
      run_ops-SameKept s ops t' u b ∙ run_op-SameKept s op t t' a

  -- Writes leave the keeping of originals alone.
  WritesOnly-KeepsOriginals :
      (fs : List (ProcessTransaction db)) → All (WritesOnly db) fs → All (KeepsOriginals db) fs
  WritesOnly-KeepsOriginals [] h = tt
  WritesOnly-KeepsOriginals (f ∷ fs) h = (
    λ s task tx i ctx task' ctx' e.
        let (ops, r) = h.0 s task tx i ctx task' ctx' e in run_ops-SameKept s ops task task' r,
    WritesOnly-KeepsOriginals fs h.1,
  )

-- The states of a stage and its `mutable` that some events lead to, each executed whether or not the
-- one before succeeded, at any readings of the clock.
pub data Reach (lib : CacheLib) (db : Db) (fs : List (ProcessTransaction db)) (st : Stage lib db)
    (mutable : Bool) : Stage lib db → Bool → Type 0 where
  here : Reach lib db fs st mutable st mutable
  next :
      {st' : Stage lib db} {mutable' : Bool} (clock : Clock) (event : ChainEvent)
      → Reach lib db fs st mutable st' mutable'
      → FitsEvent lib db event
      → Reach lib db fs st mutable
          (execute lib db clock fs st' mutable' event).stage
          (execute lib db clock fs st' mutable' event).mutable

Reach-keeps :
    (lib : CacheLib) (db : Db) (fs : List (ProcessTransaction db)) (st : Stage lib db)
    (mutable : Bool) (st' : Stage lib db) (mutable' : Bool)
    → All (KeepsOriginals db) fs
    → IsConsistent lib db st mutable
    → Reach lib db fs st mutable st' mutable'
    → IsConsistent lib db st' mutable'
Reach-keeps lib db fs st mutable _ _ ks h here = h
Reach-keeps lib db fs st mutable _ _ ks h (next {st'} {mutable'} clock event r g) =
    execute-IsConsistent lib db clock fs st' mutable' event ks
      (Reach-keeps lib db fs st mutable st' mutable' ks h r) g

-- Whatever the configuration and the events, a stage that starts with its rollback buffer on its tip
-- keeps it there: after every sequence of events, the buffer begins with the last processed block,
-- behind the point of the mempool blocks where those were processed, or is empty.
pub Reach-IsConsistent :
    (libs : IndexerLibs) (lib : CacheLib) (db : Db) (specs : List TransactionIndexerFactory)
    (fs : List (ProcessTransaction db)) (st : Stage lib db) (mutable : Bool) (st' : Stage lib db)
    (mutable' : Bool)
    → create_indexers libs db specs ≡ ok fs
    → IsConsistent lib db st mutable
    → Reach lib db fs st mutable st' mutable'
    → IsConsistent lib db st' mutable'
Reach-IsConsistent libs lib db specs fs st mutable st' mutable' e h r =
    let (gs, a, ws) = create_indexers-WritesOnly libs db specs in
    Reach-keeps lib db fs st mutable st' mutable'
      (WritesOnly-KeepsOriginals libs db fs
        (subst (All (WritesOnly db)) (ok-injective (sym a ∙ e)) ws))
      h r

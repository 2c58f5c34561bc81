-- ===== src/Worker/Steps.antt =====
-- src/sync/stages/index/worker: relations between a task and what the indexing of a block makes of it.
use maestro_symphony.Prelude.{
  ok-injective, ℕ, suc, ◌≡◌, subst, List, [], ◌∷◌, Option, true, Bytes, All, Bool-cases, inl, inr,
  Result, ok, err, Result-cases,
}
use maestro_symphony.Table.{Table}
use maestro_symphony.Core.{Point, Error, BlockTxs, TxIn, TxOut, TransactionWithId, txo_ref_eq}
use maestro_symphony.Store.{Db, IndexingTask, set, delete, set_raw, delete_raw}
use maestro_symphony.Worker.Cache.{CacheLib}
use maestro_symphony.Worker.Context.{
  IndexingContext, Progress, Network, new, spend_inputs, spend_input, produce_output,
  produce_outputs, update_utxo_set, output_ref,
}
use maestro_symphony.Worker.Resolve.{contains}
use maestro_symphony.Worker.Index.{
  ProcessTransaction, Failure, run_indexers, index_txs, index_mempool_blocks, prepare, set_info,
  begin_progress, pseudo_point,
}

-- A relation between a task and what becomes of it that every write satisfies.
pub record IsClosed (db : Db) (R : db.Store → IndexingTask → IndexingTask → Type 0) : Type 0 where
  pub reflexive : (s : db.Store) (t : IndexingTask) → R s t t
  pub transitive : (s : db.Store) (t u v : IndexingTask) → R s t u → R s u v → R s t v
  pub at_set : (s : db.Store) (t : IndexingTask) (k v : Bytes) → R s t (set_raw db s t k v)
  pub at_delete : (s : db.Store) (t : IndexingTask) (k : Bytes) → R s t (delete_raw db s t k)

-- The indexer changes its task by such steps only.
abbrev pub Respects :
    (db : Db) → (db.Store → IndexingTask → IndexingTask → Type 0) → ProcessTransaction db → Type 0
Respects db R process_tx =
    (s : db.Store) (task : IndexingTask) (tx : TransactionWithId) (i : ℕ) (ctx : IndexingContext)
    (task' : IndexingTask) (ctx' : IndexingContext)
    → process_tx s task tx i ctx ≡ ok (task', ctx')
    → R s task task'

module _ (lib : CacheLib) (db : Db) (s : db.Store)
    (R : db.Store → IndexingTask → IndexingTask → Type 0) (c : IsClosed db R) where
  at_table_set :
      {K V : Type 0} (t : Table K V) (task : IndexingTask) (k : K) (v : V)
      → R s task (set db s t task k v)
  unfolding set
  at_table_set t task k v = c.at_set s task _ _

  steps-spend_inputs :
      (is : List TxIn) (p : Progress lib.Cache) → R s p.task (spend_inputs lib db s is p).task
  unfolding spend_inputs delete
  steps-spend_inputs [] p = c.reflexive s p.task
  steps-spend_inputs (i ∷ is) p =
      c.transitive s _ _ _ (c.at_delete s p.task _)
        (steps-spend_inputs is (spend_input lib db s i p))

  steps-produce_output :
      (tx_id : Bytes) (i : ℕ) (o : TxOut) (p : Progress lib.Cache)
      → R s p.task (produce_output lib db s tx_id i o p).task
  steps-produce_output tx_id i o p = elim (Bool-cases o.is_op_return) [
    | inl e ↦ rw e (c.reflexive s p.task)
    | inr e ↦ elim (Bool-cases (contains (output_ref lib db s tx_id i) p.ctx.chained_txos)) [
      | inl h ↦ rw (e, h) (c.reflexive s p.task)
      | inr h ↦ rw (e, h) (at_table_set _ p.task (output_ref lib db s tx_id i) _)
    ]
  ]

  steps-produce_outputs :
      (tx_id : Bytes) (i : ℕ) (os : List TxOut) (p : Progress lib.Cache)
      → R s p.task (produce_outputs lib db s tx_id i os p).task
  unfolding produce_outputs
  steps-produce_outputs tx_id i [] p = c.reflexive s p.task
  steps-produce_outputs tx_id i (o ∷ os) p =
      c.transitive s _ _ _ (steps-produce_output tx_id i o p)
        (steps-produce_outputs tx_id (suc i) os (produce_output lib db s tx_id i o p))

  steps-update_utxo_set :
      (tx : TransactionWithId) (p : Progress lib.Cache)
      → R s p.task (update_utxo_set lib db s tx p).task
  unfolding update_utxo_set
  steps-update_utxo_set tx p =
      c.transitive s _ _ _ (steps-spend_inputs tx.tx.input p)
        (steps-produce_outputs tx.tx_id 0 tx.tx.output (spend_inputs lib db s tx.tx.input p))

  same_task :
      (p q : Progress lib.Cache)
      → ◌≡◌ {A = Result (Failure lib.Cache) (Progress lib.Cache)} (ok p) (ok q)
      → R s p.task q.task
  same_task p q e = subst (λ x. R s p.task x.task) (ok-injective e) (c.reflexive s p.task)

  steps-run_indexers :
      (fs : List (ProcessTransaction db)) (tx : TransactionWithId) (i : ℕ)
      (p q : Progress lib.Cache)
      → All (Respects db R) fs
      → run_indexers lib db s fs tx i p ≡ ok q
      → R s p.task q.task
  unfolding run_indexers
  steps-run_indexers [] tx i p q h e = same_task p q e
  steps-run_indexers (f ∷ fs) tx i p q h e = elim (Result-cases (f s p.task tx i p.ctx)) [
    | inl ((task, ctx), r) ↦
        c.transitive s _ _ _ (h.0 s p.task tx i p.ctx task ctx r)
          (steps-run_indexers fs tx i (record p { task = task; ctx = ctx }) q h.1 (rw r at e))
    | inr (x, r) ↦ absurd (cc (rw r at e))
  ]

  -- Every step of the indexing of a block is one of the relation.
  pub steps-index_txs :
      (fs : List (ProcessTransaction db)) (txs : BlockTxs) (i : ℕ) (p q : Progress lib.Cache)
      → All (Respects db R) fs
      → index_txs lib db s fs txs i p ≡ ok q
      → R s p.task q.task
  unfolding index_txs
  steps-index_txs fs [] i p q h e = same_task p q e
  steps-index_txs fs (tx ∷ txs) i p q h e = elim (Result-cases (run_indexers lib db s fs tx i p)) [
    | inl (p', r) ↦ c.transitive s _ _ _ (steps-run_indexers fs tx i p p' h r) (
        c.transitive s _ _ _ (steps-update_utxo_set tx p')
          (steps-index_txs fs txs (suc i) (update_utxo_set lib db s tx p') q h (rw r at e)))
    | inr (x, r) ↦ absurd (cc (rw r at e))
  ]

  pub steps-index_mempool_blocks :
      (fs : List (ProcessTransaction db)) (tip : Point) (bs : List BlockTxs) (i : ℕ)
      (p q : Progress lib.Cache)
      → All (Respects db R) fs
      → index_mempool_blocks lib db s fs tip bs i p ≡ ok q
      → R s p.task q.task
  unfolding index_mempool_blocks
  steps-index_mempool_blocks fs tip [] i p q h e = same_task p q e
  steps-index_mempool_blocks fs tip (txs ∷ bs) i p q h e =
      let point : Point = pseudo_point lib db s tip i in
      let begin : Progress lib.Cache = record p { ctx = record p.ctx { point = point } } in
      elim (Result-cases (index_txs lib db s fs txs 0 begin)) [
        | inl (p', r) ↦ c.transitive s _ _ _ (steps-index_txs fs txs 0 begin p' h r) (
            c.transitive s _ _ _ (at_table_set _ p'.task tt _) (
              steps-index_mempool_blocks fs tip bs (suc i) (set_info lib db s point true p') q h
                (rw r at e)))
        | inr (x, r) ↦ absurd (cc (rw r at e))
      ]

  -- The context is made without a change of the task.
  pub steps-prepare :
      (task : IndexingTask) (txs : BlockTxs) (point : Point) (network : Network)
      (cache : Option lib.Cache) (q : Progress lib.Cache)
      → prepare lib db s task txs point network cache ≡ ok q
      → R s task q.task
  unfolding prepare
  steps-prepare task txs point network cache q e =
      begun (new lib db s task txs point network cache) e
    where
      begun :
          (r : Result Error IndexingContext × Option lib.Cache)
          → begin_progress lib db s task r ≡ ok q
          → R s task q.task
      begun (ok ctx, k) e =
          same_task (record { task = task; ctx = ctx; cache = k; outs_written = 0 }) q e
      begun (err x, k) e = absurd (cc e)

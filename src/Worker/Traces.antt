-- ===== src/Worker/Traces.antt =====
-- src/sync/stages/index/worker: the indexing of a block as a sequence of writes to its task.
use maestro_symphony.Prelude.{
  ◌≡◌, refl, List, [], ◌∷◌, ◌++◌, ok, bind-ok, ok-injective, sym, ap, ◌∙◌, lookup, list_eq, nat_eq,
}
use maestro_symphony.Store.{
  Db, IndexingTask, set_raw, delete_raw, merge_raw, merged_action, buffer, maybe_store_original_kv,
}
use maestro_symphony.Rollback.Recorded.{TaskOp, set_op, delete_op, merge_op, run_op, run_ops}
use maestro_symphony.Worker.Index.{ProcessTransaction}
use maestro_symphony.Worker.Steps.{IsClosed, Respects}

-- Some writes make the one task of the other.
abbrev pub Traced : (db : Db) → db.Store → IndexingTask → IndexingTask → Type 0
Traced db s t u = (ops : List TaskOp) × (run_ops db s ops t ≡ ok u)

-- An indexer changes the task by sets, deletes and merges only.
abbrev pub WritesOnly : (db : Db) → ProcessTransaction db → Type 0
WritesOnly db process_tx = Respects db (Traced db) process_tx

module _ (db : Db) (s : db.Store) where
  run_ops-append :
      (xs ys : List TaskOp) (t u v : IndexingTask)
      → run_ops db s xs t ≡ ok u
      → run_ops db s ys u ≡ ok v
      → run_ops db s (xs ++ ys) t ≡ ok v
  unfolding run_ops
  run_ops-append [] ys t u v e f = ap (run_ops db s ys) (ok-injective e) ∙ f
  run_ops-append (x ∷ xs) ys t u v e f =
      let (t', a, b) = bind-ok (run_op db s x t) (run_ops db s xs) u e in
      rw a (run_ops-append xs ys t' u v b f)

pub Traced-IsClosed : (db : Db) → IsClosed db (Traced db)
unfolding run_ops run_op
Traced-IsClosed db = record {
  reflexive = λ s t. ([], refl);
  transitive = λ s t u v e f. (e.0 ++ f.0, run_ops-append db s e.0 f.0 t u v e.1 f.1);
  at_set = λ s t k v. (set_op k v ∷ [], refl);
  at_delete = λ s t k. (delete_op k ∷ [], refl);
}

-- No write changes the time at which the task reads.
module _ (db : Db) (s : db.Store) where
  run_op-SameTime :
      (op : TaskOp) (t u : IndexingTask) → run_op db s op t ≡ ok u → u.read_ts ≡ t.read_ts
  unfolding run_op set_raw delete_raw merge_raw maybe_store_original_kv
  run_op-SameTime (set_op k v) t u e = ap (λ x. x.read_ts) (sym (ok-injective e))
  run_op-SameTime (delete_op k) t u e = ap (λ x. x.read_ts) (sym (ok-injective e))
  run_op-SameTime (merge_op k op) t u e =
      let stored : IndexingTask = maybe_store_original_kv db s t k in
      let (a, p, q) =
        bind-ok (merged_action db s (lookup k t.write_buffer) op) (λ a. ok (buffer db s stored k a))
          u e in
      ap (λ x. x.read_ts) (sym (ok-injective {a = buffer db s stored k a} q))

  pub run_ops-read_ts :
      (ops : List TaskOp) (t u : IndexingTask) → run_ops db s ops t ≡ ok u → u.read_ts ≡ t.read_ts
  unfolding run_ops
  run_ops-read_ts [] t u e = ap (λ x. x.read_ts) (sym (ok-injective e))
  run_ops-read_ts (op ∷ ops) t u e =
      let (t', a, b) = bind-ok (run_op db s op t) (run_ops db s ops) u e in
      run_ops-read_ts ops t' u b ∙ run_op-SameTime op t t' a

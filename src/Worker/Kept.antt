-- ===== src/Worker/Kept.antt =====
-- src/sync/stages/index/worker: whether a task keeps originals.
use maestro_symphony.Prelude.{◌≡◌, refl, ◌∙◌, Option, none, some, Bool, true, false}
use maestro_symphony.Table.{Table}
use maestro_symphony.Timestamp.{Timestamp}
use maestro_symphony.Store.{
  Db, IndexingTask, OriginalKvs, begin_indexing_task, begin_mempool_indexing_task, set, set_raw,
  delete_raw, maybe_store_original_kv,
}
use maestro_symphony.Worker.Index.{ProcessTransaction}
use maestro_symphony.Worker.Steps.{IsClosed, Respects}

abbrev pub kept : Option OriginalKvs → Bool
kept none = false
kept (some kvs) = true

-- Does the task keep the originals of what it changes?
abbrev pub is_kept : IndexingTask → Bool
is_kept task = kept task.original_kvs

abbrev pub SameKept : (db : Db) → db.Store → IndexingTask → IndexingTask → Type 0
SameKept db s t u = is_kept u ≡ is_kept t

-- An indexer changes the task through its operations, and none of them turns this on or off.
abbrev pub KeepsOriginals : (db : Db) → ProcessTransaction db → Type 0
KeepsOriginals db process_tx = Respects db (SameKept db) process_tx

kept-elim :
    (o : Option OriginalKvs) (f : OriginalKvs → OriginalKvs)
    → kept (elim o [ none ↦ none | some kvs ↦ some (f kvs) ]) ≡ kept o
kept-elim none f = refl
kept-elim (some kvs) f = refl

pub SameKept-IsClosed : (db : Db) → IsClosed db (SameKept db)
unfolding set_raw delete_raw maybe_store_original_kv
SameKept-IsClosed db = record {
  reflexive = λ s t. refl;
  transitive = λ s t u v e f. f ∙ e;
  at_set = λ s t k v. kept-elim t.original_kvs _;
  at_delete = λ s t k. kept-elim t.original_kvs _;
}

pub is_kept-set :
    (db : Db) (s : db.Store) {K V : Type 0} (t : Table K V) (task : IndexingTask) (k : K) (v : V)
    → is_kept (set db s t task k v) ≡ is_kept task
unfolding set set_raw maybe_store_original_kv
is_kept-set db s t task k v = kept-elim task.original_kvs _

pub is_kept-begin_indexing_task :
    (ts : Option Timestamp) (mutable : Bool) → is_kept (begin_indexing_task ts mutable) ≡ mutable
unfolding begin_indexing_task
is_kept-begin_indexing_task ts true = refl
is_kept-begin_indexing_task ts false = refl

pub is_kept-begin_mempool_indexing_task :
    (ts : Option Timestamp) → is_kept (begin_mempool_indexing_task ts) ≡ true
unfolding begin_mempool_indexing_task
is_kept-begin_mempool_indexing_task ts = refl

-- ===== src/Worker/Writes.antt =====
-- src/sync/stages/index/worker: how a fallible computation changes the task of an indexer.
use maestro_symphony.Prelude.{
  ◌≡◌, subst, Bool, true, false, if◌then◌else◌, Result, ok, err, ◌>>=◌, bind-ok, ok-injective,
}
use maestro_symphony.Table.{Table}
use maestro_symphony.Core.{Error}
use maestro_symphony.Store.{Db, IndexingTask, set}
use maestro_symphony.Worker.Traces.{Traced, Traced-IsClosed}

module _ (db : Db) (s : db.Store) where
  -- A success is reached by writes alone.
  abbrev pub Writes : {A : Type 0} → (A → IndexingTask) → IndexingTask → Result Error A → Type 0
  Writes {A} task_of t r = (a : A) → r ≡ ok a → Traced db s t (task_of a)

  pub Writes-ok :
      {A : Type 0} (task_of : A → IndexingTask) (a : A) → Writes task_of (task_of a) (ok a)
  Writes-ok task_of a b e =
      subst (λ x. Traced db s (task_of a) (task_of x)) (ok-injective e)
        ((Traced-IsClosed db).reflexive s (task_of a))

  pub Writes-err :
      {A : Type 0} (task_of : A → IndexingTask) (t : IndexingTask) (x : Error)
      → Writes task_of t (err x)
  Writes-err task_of t x b e = absurd (cc e)

  pub Writes-bind :
      {A B : Type 0} (p : A → IndexingTask) (q : B → IndexingTask) (t : IndexingTask)
      (m : Result Error A) (f : A → Result Error B)
      → Writes p t m
      → ((a : A) → Writes q (p a) (f a))
      → Writes q t (m >>= f)
  Writes-bind p q t m f hm hf b e =
      let (a, x, y) = bind-ok m f b e in (Traced-IsClosed db).transitive s _ _ _ (hm a x) (hf a b y)

  -- A step that reads only.
  pub Writes-read :
      {A B : Type 0} (q : B → IndexingTask) (t : IndexingTask) (m : Result Error A)
      (f : A → Result Error B)
      → ((a : A) → Writes q t (f a))
      → Writes q t (m >>= f)
  Writes-read q t m f hf b e = let (a, x, y) = bind-ok m f b e in hf a b y

  pub Writes-if :
      {A : Type 0} (p : A → IndexingTask) (t : IndexingTask) (b : Bool) (m n : Result Error A)
      → Writes p t m
      → Writes p t n
      → Writes p t (if b then m else n)
  Writes-if p t true m n hm hn = hm
  Writes-if p t false m n hm hn = hn

  -- One write, then a success.
  pub Writes-set :
      {A K V : Type 0} (task_of : A → IndexingTask) (t : Table K V) (task : IndexingTask) (k : K)
      (v : V) (a : A)
      → task_of a ≡ set db s t task k v
      → Writes task_of task (ok a)
  unfolding set
  Writes-set task_of t task k v a h b e =
      subst (λ x. Traced db s task (task_of x)) (ok-injective e)
        (rw h ((Traced-IsClosed db).at_set s task _ _))

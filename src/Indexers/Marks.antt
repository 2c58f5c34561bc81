-- ===== src/Indexers/Marks.antt =====
-- src/sync/stages/index/indexers/custom: tables whose keys alone hold data, of the value `()`.
use maestro_symphony.Prelude.{
  ◌≡◌, refl, List, [], ◌∷◌, ◌++◌, Bool, true, false, Bytes, Option, none, some, list_eq, list_beq,
  nat_eq, lookup-insert, Bool-cases, inl, inr, Result, ok, arith,
}
use maestro_symphony.Codec.{Codec}
use maestro_symphony.Encdec.Instances.{unit}
use maestro_symphony.Table.{Table, encode_key}
use maestro_symphony.Core.{Error}
use maestro_symphony.Store.{
  Db, IndexingTask, set_action, delete_action, get, get_inner, set_raw, delete_raw,
  maybe_store_original_kv,
}
use maestro_symphony.Worker.Resolve.{contains}
use maestro_symphony.Worker.Traces.{Traced, Traced-IsClosed}

abbrev pub Mark : Type 0
Mark = Unit {0}

abbrev pub mark_table : {K : Type 0} → Bytes → Codec K → Table K Mark
mark_table prefix key = record { prefix = prefix; key = key; value = unit }

-- A mark is present, absent or as it was.
abbrev pub marked : Bool → Bool → Result Error (Option Mark) → Result Error (Option Mark)
marked true removed before = ok (some tt)
marked false true before = ok none
marked false false before = before

-- Writes on the encoded keys.
module _ (db : Db) (s : db.Store) where
  abbrev pub set_all : List Bytes → IndexingTask → IndexingTask
  set_all [] task = task
  set_all (k ∷ ks) task = set_all ks (set_raw db s task k [])

  abbrev pub delete_all : List Bytes → IndexingTask → IndexingTask
  delete_all [] task = task
  delete_all (k ∷ ks) task = delete_all ks (delete_raw db s task k)

  pub set_all-append :
      (xs ys : List Bytes) (task : IndexingTask)
      → set_all (xs ++ ys) task ≡ set_all ys (set_all xs task)
  set_all-append [] ys task = refl
  set_all-append (x ∷ xs) ys task = set_all-append xs ys (set_raw db s task x [])

  pub delete_all-append :
      (xs ys : List Bytes) (task : IndexingTask)
      → delete_all (xs ++ ys) task ≡ delete_all ys (delete_all xs task)
  delete_all-append [] ys task = refl
  delete_all-append (x ∷ xs) ys task = delete_all-append xs ys (delete_raw db s task x)

  Traced-set_all : (ks : List Bytes) (task : IndexingTask) → Traced db s task (set_all ks task)
  Traced-set_all [] task = (Traced-IsClosed db).reflexive s task
  Traced-set_all (k ∷ ks) task =
      (Traced-IsClosed db).transitive s _ _ _ ((Traced-IsClosed db).at_set s task k [])
        (Traced-set_all ks (set_raw db s task k []))

  Traced-delete_all :
      (ks : List Bytes) (task : IndexingTask) → Traced db s task (delete_all ks task)
  Traced-delete_all [] task = (Traced-IsClosed db).reflexive s task
  Traced-delete_all (k ∷ ks) task =
      (Traced-IsClosed db).transitive s _ _ _ ((Traced-IsClosed db).at_delete s task k)
        (Traced-delete_all ks (delete_raw db s task k))

  pub Traced-set_all-delete_all :
      (xs ys : List Bytes) (task : IndexingTask)
      → Traced db s task (set_all xs (delete_all ys task))
  Traced-set_all-delete_all xs ys task =
      (Traced-IsClosed db).transitive s _ _ _ (Traced-delete_all ys task)
        (Traced-set_all xs (delete_all ys task))

  module _ {K : Type 0} (prefix : Bytes) (codec : Codec K) (j : K) where
    abbrev t : Table K Mark
    t = mark_table prefix codec

    abbrev raw : Bytes
    raw = encode_key t j

    get-set_raw :
        (k : Bytes) (task : IndexingTask)
        → get db s t (set_raw db s task k []) j ≡ marked (list_beq k raw) false (get db s t task j)
    unfolding get set_raw maybe_store_original_kv get_inner
    get-set_raw k task = elim (Bool-cases (list_beq k raw)) [
      | inl e ↦ rw (lookup-insert raw k (set_action []) task.write_buffer, e) refl
      | inr e ↦ rw (lookup-insert raw k (set_action []) task.write_buffer, e) refl
    ]

    get-delete_raw :
        (k : Bytes) (task : IndexingTask)
        → get db s t (delete_raw db s task k) j ≡ marked false (list_beq k raw) (get db s t task j)
    unfolding get delete_raw maybe_store_original_kv get_inner
    get-delete_raw k task = elim (Bool-cases (list_beq k raw)) [
      | inl e ↦ rw (lookup-insert raw k delete_action task.write_buffer, e) refl
      | inr e ↦ rw (lookup-insert raw k delete_action task.write_buffer, e) refl
    ]

    get-set_all :
        (ks : List Bytes) (task : IndexingTask)
        → get db s t (set_all ks task) j ≡ marked (contains raw ks) false (get db s t task j)
    get-set_all [] task = refl
    get-set_all (k ∷ ks) task =
        ground (arith, get-set_all ks (set_raw db s task k []), get-set_raw k task)

    get-delete_all :
        (ks : List Bytes) (task : IndexingTask)
        → get db s t (delete_all ks task) j ≡ marked false (contains raw ks) (get db s t task j)
    get-delete_all [] task = refl
    get-delete_all (k ∷ ks) task =
        ground (arith, get-delete_all ks (delete_raw db s task k), get-delete_raw k task)

    -- What is read after some keys were deleted and others set.
    pub get-set_all-delete_all :
        (xs ys : List Bytes) (task : IndexingTask)
        → get db s t (set_all xs (delete_all ys task)) j
          ≡ marked (contains raw xs) (contains raw ys) (get db s t task j)
    get-set_all-delete_all xs ys task =
        ground (arith, get-set_all xs (delete_all ys task), get-delete_all ys task)

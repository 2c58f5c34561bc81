-- ===== src/Rollback/Restored.antt =====
-- src/sync/stages/index/rollback/buffer.rs: the buffer that is read back from storage.
use maestro_symphony.Prelude.{
  zero, ==_refl, list_beq_iff, ℕ, ◌≡◌, ◌≤◌, ◌<◌, suc, refl, ap, ◌∙◌, arith, List, [], ◌∷◌, ◌++◌,
  map, length, take, subst, All, Option, none, some, Bool, true, false, ◌&&◌, Bytes, lookup, insert,
  insert_new, lookup-insert, HasDistinctKeys, list_eq, nat_eq, list_beq, Bool-cases, inl, inr, ok,
  append_assoc, append-nil,
}
use maestro_symphony.Table.{encode_range}
use maestro_symphony.Table.Laws.{decode_entry-encode_key}
use maestro_symphony.Encdec.Range.{KeyRange}
use maestro_symphony.Core.{Point, point_eq, point_beq, PreviousValue, rollback_buffer_kv}
use maestro_symphony.CoreLaws.{
  FitsRollbackKey, rollback_key-IsLawful, FitsPreviousValue, previous_value-IsLawful,
}
use maestro_symphony.Store.{OriginalKvs, BatchOp, put_cf, persist_original}
use maestro_symphony.Rollback.{
  PointWithOriginalKvs, RollbackBuffer, new, insert_actions_for_point, insert_at, add_block,
  position, position_in, extend, any_present,
}
use maestro_symphony.Rollback.Buffer.{LacksPoint}
use maestro_symphony.Rollback.Storage.{load_entries, empty_buffer, fetch_from_storage}

-- What a put writes.
abbrev pub written : BatchOp → Bytes × Bytes
written (put_cf k v) = (k, v)
written _ = ([], [])

-- The entries that a commit persists for a point.
abbrev pub rows : Point → OriginalKvs → List (Bytes × Bytes)
rows point kvs = map (λ e. written (persist_original point.height point.hash e)) kvs

-- The entries of all points in the order of their heights: the oldest point is the last.
abbrev pub all_rows : List PointWithOriginalKvs → List (Bytes × Bytes)
all_rows [] = []
all_rows (p ∷ ps) = all_rows ps ++ rows p.point p.original_kvs

abbrev pub FitsEntry : Point → Bytes × PreviousValue → Type 0
FitsEntry point (key, value) =
    FitsRollbackKey (record { height = point.height; hash = point.hash; key = key })
    × FitsPreviousValue value

abbrev pub IsNonEmpty : OriginalKvs → Type 0
IsNonEmpty [] = ⊥
IsNonEmpty (e ∷ kvs) = Unit

-- Points that a buffer holds, each once, each with some originals, one for each key.
abbrev pub IsPersisted : List PointWithOriginalKvs → Type 0
IsPersisted [] = Unit
IsPersisted (p ∷ ps) =
    LacksPoint p.point ps
    × IsNonEmpty p.original_kvs
    × HasDistinctKeys p.original_kvs
    × All (FitsEntry p.point) p.original_kvs
    × IsPersisted ps

abbrev Fresh : OriginalKvs → OriginalKvs → Type 0
Fresh kvs known = All (λ e. lookup e.0 known ≡ none) kvs

not_swapped : (j k : Bytes) → list_beq j k ≡ false → list_beq k j ≡ false
not_swapped j k e = ground (arith, list_beq_iff j k, list_beq_iff k j)

never : (b : Bool) → (b && false) ≡ false
never true = refl
never false = refl

Fresh-insert :
    (k : Bytes) (v : PreviousValue) (kvs known : OriginalKvs)
    → lookup k kvs ≡ none
    → Fresh kvs known
    → Fresh kvs (insert k v known)
Fresh-insert k v [] known h f = tt
Fresh-insert k v ((j, w) ∷ kvs) known h f = elim (Bool-cases (list_beq j k)) [
  | inl e ↦ absurd (cc (rw e at h))
  | inr e ↦ (
    rw (lookup-insert j k v known, not_swapped j k e) f.0,
    Fresh-insert k v kvs known (rw e at h) f.1,
  )
]

position_in-first :
    (point : Point) (kvs : OriginalKvs) (ps : List PointWithOriginalKvs)
    → position_in point (record { point = point; original_kvs = kvs } ∷ ps) ≡ some 0
unfolding position_in
position_in-first point kvs ps = let e : point_beq point point ≡ true = ==_refl point in rw e refl

position_in-lacks :
    (point : Point) (ps : List PointWithOriginalKvs)
    → LacksPoint point ps
    → position_in point ps ≡ none
unfolding position_in
position_in-lacks point [] l = refl
position_in-lacks point (p ∷ ps) l = rw (l.0, position_in-lacks point ps l.1) refl

take-all : {A : Type 0} (n : ℕ) (xs : List A) → length xs ≤ n → take n xs ≡ xs
take-all zero [] h = refl
take-all (suc n) [] h = refl
take-all zero (x ∷ xs) h = absurd (omega (arith, h))
take-all (suc n) (x ∷ xs) h = ap (λ ys. x ∷ ys) (take-all n xs (omega (arith, h)))

Fresh-of_none : (kvs : OriginalKvs) → Fresh kvs []
Fresh-of_none [] = tt
Fresh-of_none (e ∷ kvs) = (refl, Fresh-of_none kvs)

module _ (size : ℕ) (safe_mode : Bool) where
  abbrev holds : List PointWithOriginalKvs → RollbackBuffer
  holds ps = record { points = ps; size = size; safe_mode = safe_mode }

  insert-first :
      (point : Point) (known : OriginalKvs) (ps : List PointWithOriginalKvs) (k : Bytes)
      (v : PreviousValue)
      → lookup k known ≡ none
      → insert_actions_for_point
          (holds (record { point = point; original_kvs = known } ∷ ps))
          point
          ((k, v) ∷ [])
        ≡ ok (holds (record { point = point; original_kvs = known ++ ((k, v) ∷ []) } ∷ ps))
  unfolding insert_actions_for_point position extend any_present
  insert-first point known ps k v h =
      let first : PointWithOriginalKvs = record { point = point; original_kvs = known } in
      ap (insert_at (holds (first ∷ ps)) point ((k, v) ∷ [])) (position_in-first point known ps)
      ∙ rw (h, never safe_mode, insert_new k v known h) refl

  insert-new :
      (point : Point) (ps : List PointWithOriginalKvs) (kvs : OriginalKvs)
      → LacksPoint point ps
      → length ps < size
      → insert_actions_for_point (holds ps) point kvs
        ≡ ok (holds (record { point = point; original_kvs = kvs } ∷ ps))
  unfolding insert_actions_for_point position add_block
  insert-new point ps kvs l n =
      rw
        (
          position_in-lacks point ps l,
          take-all size (record { point = point; original_kvs = kvs } ∷ ps) (omega (arith, n)),
        )
        refl

  -- The rest of a point's entries, after some of them.
  load_entries-rest :
      (point : Point) (ps : List PointWithOriginalKvs) (kvs known : OriginalKvs)
      (es : List (Bytes × Bytes))
      → Fresh kvs known
      → HasDistinctKeys kvs
      → All (FitsEntry point) kvs
      → load_entries
          (holds (record { point = point; original_kvs = known } ∷ ps))
          (rows point kvs ++ es)
        ≡ load_entries (holds (record { point = point; original_kvs = known ++ kvs } ∷ ps)) es
  unfolding load_entries
  load_entries-rest point ps [] known es f d h = rw (append-nil known) refl
  load_entries-rest point ps ((k, v) ∷ kvs) known es f d h =
      rw
        (
          decode_entry-encode_key rollback_buffer_kv FitsRollbackKey FitsPreviousValue
              (record { height = point.height; hash = point.hash; key = k }) v rollback_key-IsLawful
              previous_value-IsLawful h.0.0 h.0.1,
          insert-first point known ps k v f.0,
          load_entries-rest point ps kvs (known ++ ((k, v) ∷ [])) es
              (subst (Fresh kvs) (insert_new k v known f.0) (Fresh-insert k v kvs known d.0 f.1))
              d.1 h.1,
          append_assoc,
        )
        refl

  load_entries-point :
      (point : Point) (kvs : OriginalKvs) (ps : List PointWithOriginalKvs)
      (es : List (Bytes × Bytes))
      → LacksPoint point ps
      → length ps < size
      → IsNonEmpty kvs
      → HasDistinctKeys kvs
      → All (FitsEntry point) kvs
      → load_entries (holds ps) (rows point kvs ++ es)
        ≡ load_entries (holds (record { point = point; original_kvs = kvs } ∷ ps)) es
  unfolding load_entries
  load_entries-point point [] ps es l n i d h = absurd i
  load_entries-point point ((k, v) ∷ kvs) ps es l n i d h =
      rw
        (
          decode_entry-encode_key rollback_buffer_kv FitsRollbackKey FitsPreviousValue
              (record { height = point.height; hash = point.hash; key = k }) v rollback_key-IsLawful
              previous_value-IsLawful h.0.0 h.0.1,
          insert-new point ps ((k, v) ∷ []) l n,
        )
        (load_entries-rest point ps kvs ((k, v) ∷ []) es
          (Fresh-insert k v kvs [] d.0 (Fresh-of_none kvs)) d.1 h.1)

  load_entries-all :
      (ps : List PointWithOriginalKvs) (es : List (Bytes × Bytes))
      → length ps ≤ size
      → IsPersisted ps
      → load_entries (holds []) (all_rows ps ++ es) ≡ load_entries (holds ps) es
  load_entries-all [] es n h = refl
  load_entries-all (p ∷ ps) es n h = rw (append_assoc) (
      load_entries-all ps (rows p.point p.original_kvs ++ es) (omega (arith, n)) h.4
      ∙ load_entries-point p.point p.original_kvs ps es h.0 (omega (arith, n)) h.1 h.2 h.3)

-- The buffer that is read back from storage is the one whose points were committed: with every
-- original that the blocks persisted, the newest point first, and no panic in safe mode.
pub fetch_from_storage-all_rows :
    (iter_kvs : KeyRange → List (Bytes × Bytes)) (max_rollback : Option ℕ) (safe_mode : Option Bool)
    (ps : List PointWithOriginalKvs)
    → iter_kvs (encode_range rollback_buffer_kv none none) ≡ all_rows ps
    → length ps ≤ (empty_buffer max_rollback safe_mode).size
    → IsPersisted ps
    → fetch_from_storage iter_kvs max_rollback safe_mode
      ≡ ok (record (empty_buffer max_rollback safe_mode) { points = ps })
unfolding fetch_from_storage new load_entries
fetch_from_storage-all_rows iter_kvs max_rollback safe_mode ps e n h =
    let b = empty_buffer max_rollback safe_mode in
    rw (e, ← append-nil (all_rows ps)) (load_entries-all b.size b.safe_mode ps [] n h)

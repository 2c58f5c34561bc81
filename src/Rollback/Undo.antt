-- ===== src/Rollback/Undo.antt =====
-- src/sync/stages/index/worker/stage.rs and src/storage/kv_store.rs: the undo batch, key by key.
use maestro_symphony.Prelude.{
  ◌≡◌, refl, ap, ◌∙◌, subst, [], ◌∷◌, Option, none, some, Bytes, lookup, list_beq, list_beq_iff,
  list_eq, nat_eq, HasDistinctKeys, Bool-cases, inl, inr, if◌then◌else◌,
}
use maestro_symphony.Table.{encode_key}
use maestro_symphony.Core.{Point, PreviousValue, present, not_present, previous_value_of}
use maestro_symphony.Store.{delete_cf, apply_op, apply_batch, and_then, OriginalKvs}
use maestro_symphony.Commit.Batch.{IsDataKey, rollback_prefix, list_beq-prefix}
use maestro_symphony.Rollback.{inverse, persisted_key, undo_entries}

-- The value that an original stands for.
abbrev pub restored : PreviousValue → Option Bytes
restored (present v) = some v
restored not_present = none

abbrev pub undone : Option PreviousValue → Option Bytes → Option Bytes
undone none v = v
undone (some o) v = restored o

pub restored-previous_value_of : (v : Option Bytes) → restored (previous_value_of v) ≡ v
restored-previous_value_of none = refl
restored-previous_value_of (some v) = refl

-- What the batch does to a data key, entry by entry.
apply_op-inverse :
    (k key : Bytes) (o : PreviousValue) (v : Option Bytes)
    → apply_op (inverse k o) key v ≡ some (if list_beq k key then restored o else v)
apply_op-inverse k key (present x) v = refl
apply_op-inverse k key not_present v = refl

apply_op-persisted :
    (point : Point) (k key : Bytes) (v : Option Bytes)
    → IsDataKey key
    → apply_op (delete_cf (persisted_key point k)) key v ≡ some v
unfolding encode_key
apply_op-persisted point k key v h = rw (list_beq-prefix rollback_prefix _ key h.not_rollback)

undo_entries-step :
    (point : Point) (k key : Bytes) (o : PreviousValue) (kvs : OriginalKvs) (v : Option Bytes)
    → IsDataKey key
    → apply_batch (undo_entries point ((k, o) ∷ kvs)) key v
      ≡ apply_batch (undo_entries point kvs) key (if list_beq k key then restored o else v)
unfolding apply_batch undo_entries
undo_entries-step point k key o kvs v h =
    ap
      (λ w.
        and_then w (apply_batch (delete_cf (persisted_key point k) ∷ undo_entries point kvs) key))
      (apply_op-inverse k key o v)
    ∙ ap (λ w. and_then w (apply_batch (undo_entries point kvs) key))
        (apply_op-persisted point k key (if list_beq k key then restored o else v) h)

pub undo_entries-undone :
    (point : Point) (key : Bytes) (kvs : OriginalKvs) (v : Option Bytes)
    → IsDataKey key
    → HasDistinctKeys kvs
    → apply_batch (undo_entries point kvs) key v ≡ some (undone (lookup key kvs) v)
undo_entries-undone point key [] v h d = unfold apply_batch undo_entries in refl
undo_entries-undone point key ((k, o) ∷ kvs) v h d = elim (Bool-cases (list_beq k key)) [
  | inl e ↦
      let same : k ≡ key = (list_beq_iff k key).0 e in
      let gone : lookup key kvs ≡ none = subst (λ x. lookup x kvs ≡ none) same d.0 in
      rw (
        undo_entries-step point k key o kvs v h,
        e,
        undo_entries-undone point key kvs (restored o) h d.1,
        gone,
      )
  | inr e ↦
      rw (undo_entries-step point k key o kvs v h, e, undo_entries-undone point key kvs v h d.1)
]

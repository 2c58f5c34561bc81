-- ===== src/Commit/Writes.antt =====
-- src/storage/kv_store.rs: what an indexing task reads after its own writes.
use maestro_symphony.Prelude.{
  ◌≡◌, refl, none, some, Bool-cases, inl, inr, lookup-insert, list_beq, ok, if◌then◌else◌, list_eq,
  nat_eq,
}
use maestro_symphony.Codec.{decode_all-encode, IsLawful}
use maestro_symphony.Table.{Table, encode_key}
use maestro_symphony.Store.{
  Db, IndexingTask, set_action, delete_action, get, get_inner, set, delete, set_raw, delete_raw,
  maybe_store_original_kv,
}

-- A task reads what it set, a deleted key reads as absent, and every key with another encoding
-- reads as before.
pub get-set-delete :
    (db : Db) (s : db.Store) {K V : Type 0} (t : Table K V) (Fits : V → Type 0)
    (task : IndexingTask) (j k : K) (v : V)
    → IsLawful t.value Fits
    → Fits v
    → (get db s t (set db s t task k v) j
        ≡ (if list_beq (encode_key t k) (encode_key t j) then ok (some v) else get db s t task j))
      × (get db s t (delete db s t task k) j
          ≡ (if list_beq (encode_key t k) (encode_key t j) then ok none else get db s t task j))
unfolding get set delete set_raw delete_raw maybe_store_original_kv get_inner
get-set-delete db s t Fits task j k v l h = (
  elim (Bool-cases (list_beq (encode_key t k) (encode_key t j))) [
    | inl e ↦ rw (
      lookup-insert (encode_key t j) (encode_key t k) (set_action (t.value.encode v))
          task.write_buffer,
      e,
      decode_all-encode t.value Fits v l h,
    )
    | inr e ↦
        rw
          (
            lookup-insert (encode_key t j) (encode_key t k) (set_action (t.value.encode v))
                task.write_buffer,
            e,
          )
          refl
  ],
  elim (Bool-cases (list_beq (encode_key t k) (encode_key t j))) [
    | inl e ↦
        rw (lookup-insert (encode_key t j) (encode_key t k) delete_action task.write_buffer, e)
    | inr e ↦
        rw (lookup-insert (encode_key t j) (encode_key t k) delete_action task.write_buffer, e) refl
  ],
)

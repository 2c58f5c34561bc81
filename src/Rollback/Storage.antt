-- ===== src/Rollback/Storage.antt =====
-- src/sync/stages/index/rollback/buffer.rs: `fetch_from_storage`, the buffer from the entries that were
-- committed with the blocks. What an iteration over a range of keys finds is RocksDB's.
use maestro_symphony.Prelude.{
  ℕ, List, [], ◌∷◌, Option, none, some, Bool, false, Bytes, Result, ok, err, ◌>>=◌, zero, suc, true,
  ◌&&◌, not, contains_key, list_beq, list_eq, nat_eq, if◌then◌else◌,
}
use maestro_symphony.Encdec.Range.{KeyRange}
use maestro_symphony.Table.{decode_entry, encode_range}
use maestro_symphony.Core.{Point, panic, Error, lift_decoding, rollback_buffer_kv}
use maestro_symphony.Store.{OriginalKvs}
use maestro_symphony.Rollback.{
  PointWithOriginalKvs, kvs_at, position, RollbackBuffer, new, insert_actions_for_point,
}

abbrev pub default_max_rollback : ℕ
default_max_rollback = 16

unfoldable pub load_entries : RollbackBuffer → List (Bytes × Bytes) → Result Error RollbackBuffer
load_entries b [] = ok b
load_entries b (entry ∷ entries) = do
  (k, v) ← lift_decoding (decode_entry rollback_buffer_kv entry)
  b' ← insert_actions_for_point b (record { height = k.height; hash = k.hash }) ((k.key, v) ∷ [])
  load_entries b' entries

abbrev pub unwrap_or : {A : Type 0} → A → Option A → A
unwrap_or default none = default
unwrap_or default (some a) = a

-- The buffer of a configuration before it is filled.
abbrev pub empty_buffer : Option ℕ → Option Bool → RollbackBuffer
empty_buffer max_rollback safe_mode =
    new (unwrap_or default_max_rollback max_rollback) (unwrap_or false safe_mode)

unfoldable pub fetch_from_storage :
    (KeyRange → List (Bytes × Bytes)) → Option ℕ → Option Bool → Result Error RollbackBuffer
fetch_from_storage iter_kvs max_rollback safe_mode =
    load_entries (empty_buffer max_rollback safe_mode)
      (iter_kvs (encode_range rollback_buffer_kv none none))

unfoldable pub contains : List Bytes → Bytes → Bool
contains [] k = false
contains (key ∷ keys) k = let rest = contains keys k in if list_beq key k then true else rest

-- `HashMap::retain`, by the keys that are removed.
unfoldable pub retain_others : List Bytes → OriginalKvs → OriginalKvs
unfolding contains
retain_others keys [] = []
retain_others keys ((k, v) ∷ kvs) =
    let rest = retain_others keys kvs in if contains keys k then rest else (k, v) ∷ rest

-- The points with the kept originals of one, which is removed if none is left.
unfoldable pub remove_at : ℕ → List Bytes → List PointWithOriginalKvs → List PointWithOriginalKvs
remove_at i keys [] = []
remove_at zero keys (p ∷ ps) = elim (retain_others keys p.original_kvs) [
  | [] ↦ ps
  | e ∷ kvs ↦ record p { original_kvs = e ∷ kvs } ∷ ps
]
remove_at (suc i) keys (p ∷ ps) = p ∷ remove_at i keys ps

unfoldable pub all_present : OriginalKvs → List Bytes → Bool
all_present kvs [] = true
all_present kvs (key ∷ keys) =
    let rest = all_present kvs keys in if contains_key key kvs then rest else false

abbrev pub remove_from : RollbackBuffer → List Bytes → Option ℕ → Result Error RollbackBuffer
remove_from b keys none = ok b
remove_from b keys (some p) =
    if b.safe_mode && not (all_present (kvs_at p b.points) keys)
    then err (panic "trying to remove inverse action which doesn't exist")
    else ok (record b { points = remove_at p keys b.points })

unfoldable pub remove_actions_for_point :
    RollbackBuffer → Point → List Bytes → Result Error RollbackBuffer
remove_actions_for_point b point keys = remove_from b keys (position b point)

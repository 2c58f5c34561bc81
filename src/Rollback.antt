-- ===== src/Rollback.antt =====
-- src/sync/stages/index/rollback/buffer.rs: the rollback buffer, newest point first, and the write
-- batch with which src/sync/stages/index/worker/stage.rs undoes the points after one.
use maestro_symphony.Prelude.{
  ℕ, zero, suc, ◌+◌, List, [], ◌∷◌, ◌++◌, map, Option, none, some, Bool, true, false, ◌&&◌, not,
  Bytes, length, take, drop, lookup, contains_key, insert, list_eq, nat_eq, if◌then◌else◌, Result,
  ok, err, ◌==◌, eqb,
}
use maestro_symphony.Table.{encode_key, encode_range}
use maestro_symphony.Core.{
  Point, point_eq, Error, rollback, panic, PreviousValue, present, not_present, RollbackKey,
  rollback_buffer_kv, previous_value, rollback_key,
}
use maestro_symphony.Store.{OriginalKvs, BatchOp, put_cf, delete_cf}
pub mod Buffer
pub mod Storage
pub mod Restored
pub mod Undo
pub mod Recorded
pub mod History

pub record PointWithOriginalKvs : Type 0 where
  pub point : Point
  pub original_kvs : OriginalKvs

pub record RollbackBuffer : Type 0 where
  pub points : List PointWithOriginalKvs
  pub size : ℕ
  pub safe_mode : Bool

unfoldable pub new : ℕ → Bool → RollbackBuffer
new size safe_mode = record { points = []; size = size + 2; safe_mode = safe_mode }

unfoldable pub position_in : Point → List PointWithOriginalKvs → Option ℕ
position_in point [] = none
position_in point (p ∷ ps) =
    let rest = position_in point ps in
    if p.point == point then some 0 else elim rest [ none ↦ none | some i ↦ some (suc i) ]

unfoldable pub position : RollbackBuffer → Point → Option ℕ
unfolding position_in
position b point = position_in point b.points

unfoldable pub latest : RollbackBuffer → Option PointWithOriginalKvs
latest b = elim b.points [ [] ↦ none | p ∷ ps ↦ some p ]

unfoldable pub add_block : RollbackBuffer → Point → OriginalKvs → RollbackBuffer
add_block b point original_kvs = record b {
  points = take b.size (record { point = point; original_kvs = original_kvs } ∷ b.points);
}

-- The points after the given one, newest first, and the buffer without them.
abbrev pub split_at_position :
    RollbackBuffer → Point → Option ℕ → Result Error (List PointWithOriginalKvs × RollbackBuffer)
split_at_position b point (some p) = ok (take p b.points, record b { points = drop p b.points })
split_at_position b point none = err (rollback point)

unfoldable pub rollback_to_point :
    RollbackBuffer → Point → Result Error (List PointWithOriginalKvs × RollbackBuffer)
rollback_to_point b point = split_at_position b point (position b point)

abbrev pub points_before_position :
    RollbackBuffer → Point → Option ℕ → Result Error (List PointWithOriginalKvs)
points_before_position b point (some p) = ok (take p b.points)
points_before_position b point none = err (rollback point)

unfoldable pub points_since : RollbackBuffer → Point → Result Error (List PointWithOriginalKvs)
points_since b point = points_before_position b point (position b point)

-- `HashMap::extend`
unfoldable pub extend : OriginalKvs → OriginalKvs → OriginalKvs
extend kvs [] = kvs
extend kvs ((k, v) ∷ more) = extend (insert k v kvs) more

unfoldable pub any_present : OriginalKvs → OriginalKvs → Bool
any_present kvs [] = false
any_present kvs ((k, v) ∷ more) =
    let rest = any_present kvs more in if contains_key k kvs then true else rest

abbrev pub update_at :
    ℕ → (OriginalKvs → OriginalKvs) → List PointWithOriginalKvs → List PointWithOriginalKvs
update_at i f [] = []
update_at zero f (p ∷ ps) = record p { original_kvs = f p.original_kvs } ∷ ps
update_at (suc i) f (p ∷ ps) = p ∷ update_at i f ps

abbrev pub kvs_at : ℕ → List PointWithOriginalKvs → OriginalKvs
kvs_at i [] = []
kvs_at zero (p ∷ ps) = p.original_kvs
kvs_at (suc i) (p ∷ ps) = kvs_at i ps

abbrev pub insert_at : RollbackBuffer → Point → OriginalKvs → Option ℕ → Result Error RollbackBuffer
insert_at b point new_actions none = ok (add_block b point new_actions)
insert_at b point new_actions (some p) =
    if b.safe_mode && any_present (kvs_at p b.points) new_actions
    then err (panic "inserting action for key already present in rb buf")
    else ok (record b { points = update_at p (λ kvs. extend kvs new_actions) b.points })

unfoldable pub insert_actions_for_point :
    RollbackBuffer → Point → OriginalKvs → Result Error RollbackBuffer
insert_actions_for_point b point new_actions = insert_at b point new_actions (position b point)

-- The inverse of one change, and the removal of its entry from the persistent buffer.
abbrev pub inverse : Bytes → PreviousValue → BatchOp
inverse key (present prev) = put_cf key prev
inverse key not_present = delete_cf key

abbrev pub persisted_key : Point → Bytes → Bytes
persisted_key point key =
    encode_key rollback_buffer_kv (record { height = point.height; hash = point.hash; key = key })

unfoldable pub undo_entries : Point → OriginalKvs → List BatchOp
undo_entries point [] = []
undo_entries point ((key, original) ∷ kvs) =
    inverse key original ∷ (delete_cf (persisted_key point key) ∷ undo_entries point kvs)

-- The write batch of `Stage::rollback_to_point`.
unfoldable pub undo_batch : List PointWithOriginalKvs → List BatchOp
unfolding undo_entries
undo_batch [] = []
undo_batch (block ∷ blocks) = undo_entries block.point block.original_kvs ++ undo_batch blocks

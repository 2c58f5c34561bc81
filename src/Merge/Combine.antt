-- ===== src/Merge/Combine.antt =====
-- src/storage/merge_operation.rs: the operations of a write buffer, one after the other or combined.
use maestro_symphony.Prelude.{ℕ, ◌+◌, ◌^◌, ◌<◌, ◌≤◌, ◌≡◌, arith}
use maestro_symphony.Merge.{
  MergeOperation, increment, decrement, apply_operation, combine_merge_operations,
}

-- The operation neither passes 2 ^ 128 - 1 nor goes below 0 on this value.
abbrev pub FitsOn : MergeOperation → ℕ → Type 0
FitsOn (increment delta) current = current + delta < 2 ^ 128
FitsOn (decrement delta) current = delta ≤ current

-- Where the first of two operations does not saturate, the combined operation does to the value
-- what the two do one after the other, whether or not the second saturates.
pub apply_operation-combine_merge_operations :
    (first second : MergeOperation) (current : ℕ)
    → current < 2 ^ 128
    → FitsOn first current
    → apply_operation (combine_merge_operations first second) current
      ≡ apply_operation second (apply_operation first current)
unfolding combine_merge_operations
apply_operation-combine_merge_operations (increment a) (increment b) current h f = ground arith
apply_operation-combine_merge_operations (increment a) (decrement b) current h f = ground arith
apply_operation-combine_merge_operations (decrement a) (increment b) current h f = ground arith
apply_operation-combine_merge_operations (decrement a) (decrement b) current h f = ground arith

-- A decrement below zero, followed by an increment, leaves less when the two are combined than
-- when they are applied in turn.
pub combine_merge_operations_loses :
    (a b current : ℕ)
    → current < a
    → 0 < b
    → b < 2 ^ 128
    → apply_operation (combine_merge_operations (decrement a) (increment b)) current
      < apply_operation (increment b) (apply_operation (decrement a) current)
unfolding combine_merge_operations
combine_merge_operations_loses a b current h p q = ground arith

-- ===== src/Merge.antt =====
-- src/storage/merge_operation.rs: increments and decrements of u128 counters, as they wait in a
-- write buffer and as the store applies them.
use maestro_symphony.Prelude.{
  ℕ, zero, suc, ◌+◌, ◌-◌, ◌^◌, min, List, [], ◌∷◌, ◌++◌, Option, none, some, Bytes, leb,
  if◌then◌else◌, Result, ok, err, ◌>>=◌,
}
use maestro_symphony.Codec.{DecodingError, malformed_input, DecodingResult, Codec, decode_all}
use maestro_symphony.Encdec.Instances.{decode_u8, u128}
pub mod Combine
pub mod Partial

pub data MergeOperation : Type 0 where
  increment decrement : ℕ → MergeOperation

abbrev pub saturating_add : ℕ → ℕ → ℕ
saturating_add a b = min (a + b) (2 ^ 128 - 1)

-- `-` on ℕ stops at 0, as `saturating_sub` does.
abbrev pub saturating_sub : ℕ → ℕ → ℕ
saturating_sub a b = a - b

abbrev pub encode_operation : MergeOperation → Bytes
encode_operation (increment amount) = (0 ∷ []) ++ u128.encode amount
encode_operation (decrement amount) = (1 ∷ []) ++ u128.encode amount

abbrev pub decode_amount : ℕ → Bytes → DecodingResult MergeOperation
decode_amount zero bytes = do (amount, rest) ← u128.decode bytes; ok (increment amount, rest)
decode_amount (suc zero) bytes = do (amount, rest) ← u128.decode bytes; ok (decrement amount, rest)
decode_amount (suc (suc n)) bytes = err (malformed_input "invalid merge op code" bytes)

abbrev pub merge_operation : Codec MergeOperation
merge_operation = record {
  encode = encode_operation;
  decode = λ bytes. (do (op_code, rest) ← decode_u8 bytes; decode_amount op_code rest);
}

-- The arithmetic of one operation, the same in every function below.
abbrev pub apply_operation : MergeOperation → ℕ → ℕ
apply_operation (increment delta) current = saturating_add current delta
apply_operation (decrement delta) current = saturating_sub current delta

unfoldable pub apply_merge_to_value : MergeOperation → Bytes → Result DecodingError ℕ
apply_merge_to_value op existing_value = do
  existing_amount ← decode_all u128 existing_value
  ok (apply_operation op existing_amount)

unfoldable pub combine_merge_operations : MergeOperation → MergeOperation → MergeOperation
combine_merge_operations (increment existing) (increment new) =
    increment (saturating_add existing new)
combine_merge_operations (decrement existing) (decrement new) =
    decrement (saturating_add existing new)
combine_merge_operations (increment existing) (decrement new) =
    if leb new existing
    then increment (saturating_sub existing new)
    else decrement (saturating_sub new existing)
combine_merge_operations (decrement existing) (increment new) =
    if leb new existing
    then decrement (saturating_sub existing new)
    else increment (saturating_sub new existing)

-- `.ok()?` of a decoding: an error makes the merge answer `None`.
abbrev pub or_none : {A B : Type 0} → Result DecodingError A → (A → Option B) → Option B
or_none (ok a) f = f a
or_none (err e) f = none

unfoldable pub merge_operands : ℕ → List Bytes → Option Bytes
merge_operands current [] = some (u128.encode current)
merge_operands current (operand ∷ operands) =
    or_none (decode_all merge_operation operand)
      (λ op. merge_operands (apply_operation op current) operands)

-- `create_merge_operator`
unfoldable pub full_merge : Option Bytes → List Bytes → Option Bytes
full_merge none operands = merge_operands 0 operands
full_merge (some b) operands =
    or_none (decode_all u128 b) (λ current. merge_operands current operands)

-- The two totals of the partial merge.
unfoldable pub net_change : ℕ → ℕ → List Bytes → Option (ℕ × ℕ)
net_change increments decrements [] = some (increments, decrements)
net_change increments decrements (operand ∷ operands) =
    or_none (decode_all merge_operation operand) (elim [
      | increment delta ↦ net_change (saturating_add increments delta) decrements operands
      | decrement delta ↦ net_change increments (saturating_add decrements delta) operands
    ])

abbrev pub net_operation : ℕ → ℕ → MergeOperation
net_operation increments decrements =
    if leb decrements increments
    then increment (saturating_sub increments decrements)
    else decrement (saturating_sub decrements increments)

-- `create_partial_merge_operator`
unfoldable pub partial_merge : List Bytes → Option Bytes
unfolding net_change
partial_merge operands = elim (net_change 0 0 operands) [
  | none ↦ none
  | some (increments, decrements) ↦
      some (merge_operation.encode (net_operation increments decrements))
]

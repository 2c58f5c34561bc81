-- ===== src/Merge/Partial.antt =====
-- src/storage/merge_operation.rs: the partial merge against the full merge.
use maestro_symphony.Prelude.{
  ℕ, ◌+◌, ◌-◌, ◌^◌, ◌<◌, ◌≡◌, refl, sym, ap, ◌∙◌, arith, min, List, [], ◌∷◌, map, Option, none,
  some, Bytes, All, ok,
}
use maestro_symphony.Codec.{IsLawful, decode_all, decode_all-encode}
use maestro_symphony.Encdec.Instances.{u128}
use maestro_symphony.Encdec.Laws.{varuint_codec-IsLawful}
use maestro_symphony.Merge.{
  MergeOperation, increment, decrement, apply_operation, merge_operation, merge_operands,
  full_merge, net_change, net_operation, partial_merge,
}
use maestro_symphony.Merge.Combine.{FitsOn}

abbrev pub amount_of : MergeOperation → ℕ
amount_of (increment a) = a
amount_of (decrement a) = a

-- Merge operations of u128 amounts are read back.
pub merge_operation-IsLawful : IsLawful merge_operation (λ op. amount_of op < 2 ^ 128)
merge_operation-IsLawful (increment a) rest h =
    rw (varuint_codec-IsLawful (2 ^ 128) (omega arith) a rest h)
merge_operation-IsLawful (decrement a) rest h =
    rw (varuint_codec-IsLawful (2 ^ 128) (omega arith) a rest h)

abbrev pub increments_of : List MergeOperation → ℕ
increments_of [] = 0
increments_of (increment a ∷ ops) = a + increments_of ops
increments_of (decrement a ∷ ops) = increments_of ops

abbrev pub decrements_of : List MergeOperation → ℕ
decrements_of [] = 0
decrements_of (increment a ∷ ops) = decrements_of ops
decrements_of (decrement a ∷ ops) = a + decrements_of ops

abbrev pub apply_all : List MergeOperation → ℕ → ℕ
apply_all [] current = current
apply_all (op ∷ ops) current = apply_all ops (apply_operation op current)

-- No operation saturates on the value that the ones before it leave.
abbrev pub AllFitOn : List MergeOperation → ℕ → Type 0
AllFitOn [] current = Unit
AllFitOn (op ∷ ops) current = FitsOn op current × AllFitOn ops (apply_operation op current)

apply_all-balance :
    (ops : List MergeOperation) (current : ℕ)
    → current < 2 ^ 128
    → AllFitOn ops current
    → (apply_all ops current + decrements_of ops ≡ current + increments_of ops)
      × (apply_all ops current < 2 ^ 128)
apply_all-balance [] current h f = omega arith
apply_all-balance (increment a ∷ ops) current h f =
    omega (arith, apply_all-balance ops (min (current + a) (2 ^ 128 - 1)) (omega arith) f.1)
apply_all-balance (decrement a ∷ ops) current h f =
    omega (arith, apply_all-balance ops (current - a) (omega arith) f.1)

pub decode_all-operation :
    (op : MergeOperation)
    → amount_of op < 2 ^ 128
    → decode_all merge_operation (merge_operation.encode op) ≡ ok op
decode_all-operation op h =
    decode_all-encode merge_operation (λ o. amount_of o < 2 ^ 128) op merge_operation-IsLawful h

merge_operands-encode :
    (ops : List MergeOperation) (current : ℕ)
    → All (λ op. amount_of op < 2 ^ 128) ops
    → merge_operands current (map merge_operation.encode ops)
      ≡ some (u128.encode (apply_all ops current))
unfolding merge_operands
merge_operands-encode [] current h = refl
merge_operands-encode (op ∷ ops) current h =
    rw (decode_all-operation op h.0) (merge_operands-encode ops (apply_operation op current) h.1)

net_change-encode :
    (ops : List MergeOperation) (inc dec : ℕ)
    → All (λ op. amount_of op < 2 ^ 128) ops
    → inc + increments_of ops < 2 ^ 128
    → dec + decrements_of ops < 2 ^ 128
    → net_change inc dec (map merge_operation.encode ops)
      ≡ some (inc + increments_of ops, dec + decrements_of ops)
unfolding net_change
net_change-encode [] inc dec h p q = ground arith
net_change-encode (increment a ∷ ops) inc dec h p q =
    rw (decode_all-operation (increment a) h.0)
      (ground (arith, net_change-encode ops (inc + a) dec h.1))
net_change-encode (decrement a ∷ ops) inc dec h p q =
    rw (decode_all-operation (decrement a) h.0)
      (ground (arith, net_change-encode ops inc (dec + a) h.1))

net_change_from_zero :
    (ops : List MergeOperation)
    → All (λ op. amount_of op < 2 ^ 128) ops
    → increments_of ops < 2 ^ 128
    → decrements_of ops < 2 ^ 128
    → net_change 0 0 (map merge_operation.encode ops) ≡ some (increments_of ops, decrements_of ops)
net_change_from_zero ops h p q = ground (arith, net_change-encode ops 0 0 h)

-- The net operation does to a value what all the operations do.
apply_operation-net :
    (ops : List MergeOperation) (current : ℕ)
    → current < 2 ^ 128
    → AllFitOn ops current
    → apply_operation (net_operation (increments_of ops) (decrements_of ops)) current
      ≡ apply_all ops current
apply_operation-net ops current h f = ground (arith, apply_all-balance ops current h f)

amount_of-net : (i d : ℕ) → i < 2 ^ 128 → d < 2 ^ 128 → amount_of (net_operation i d) < 2 ^ 128
amount_of-net i d hi hd = ground arith

-- The value that a merge starts from, and its encoding if there is one.
abbrev pub value_or_zero : Option ℕ → ℕ
value_or_zero none = 0
value_or_zero (some v) = v

abbrev pub stored : Option ℕ → Option Bytes
stored none = none
stored (some v) = some (u128.encode v)

full_merge-stored :
    (existing : Option ℕ) (operands : List Bytes)
    → value_or_zero existing < 2 ^ 128
    → full_merge (stored existing) operands ≡ merge_operands (value_or_zero existing) operands
unfolding full_merge
full_merge-stored none operands h = refl
full_merge-stored (some v) operands h =
    rw (
      decode_all-encode u128 (λ a. a < 2 ^ 128) v (varuint_codec-IsLawful (2 ^ 128) (omega arith))
        h)

-- Merging the one operand that the partial merge makes of several gives what merging the several
-- gives, where no operation saturates and the totals of both kinds fit a u128.
pub full_merge-partial_merge :
    (existing : Option ℕ) (ops : List MergeOperation)
    → value_or_zero existing < 2 ^ 128
    → All (λ op. amount_of op < 2 ^ 128) ops
    → increments_of ops < 2 ^ 128
    → decrements_of ops < 2 ^ 128
    → AllFitOn ops (value_or_zero existing)
    → (operand : Bytes) × (partial_merge (map merge_operation.encode ops) ≡ some operand)
      × (full_merge (stored existing) (operand ∷ [])
          ≡ full_merge (stored existing) (map merge_operation.encode ops))
      × (full_merge (stored existing) (map merge_operation.encode ops)
          ≡ some (u128.encode (apply_all ops (value_or_zero existing))))
unfolding partial_merge
full_merge-partial_merge existing ops hv ha hi hd f = (
  merge_operation.encode net,
  rw (net_change_from_zero ops ha hi hd, partial_merge),
  one ∙ sym many,
  many,
)
  where
    net : MergeOperation
    net = net_operation (increments_of ops) (decrements_of ops)

    many :
        full_merge (stored existing) (map merge_operation.encode ops)
        ≡ some (u128.encode (apply_all ops (value_or_zero existing)))
    many = full_merge-stored existing _ hv ∙ merge_operands-encode ops (value_or_zero existing) ha

    one :
        full_merge (stored existing) (merge_operation.encode net ∷ [])
        ≡ some (u128.encode (apply_all ops (value_or_zero existing)))
    one =
        full_merge-stored existing _ hv
        ∙ merge_operands-encode (net ∷ []) (value_or_zero existing) (amount_of-net _ _ hi hd, tt)
        ∙ ap (λ v. some (u128.encode v)) (apply_operation-net ops (value_or_zero existing) hv f)

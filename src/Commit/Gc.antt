-- ===== src/Commit/Gc.antt =====
-- src/storage/kv_store.rs: the persistent rollback buffer under a commit.
use maestro_symphony.Prelude.{
  ℕ, ◌-◌, ◌^◌, ◌<◌, ◌≤◌, ◌≡◌, refl, sym, ◌∙◌, arith, [], ◌∷◌, ◌++◌, append-nil, Option, none, some,
  true, false, Bytes, ltb, lex_lt, if◌then◌else◌, inl, inr, ◌⊎◌,
}
use maestro_symphony.Encdec.VarUInt.{encode_varuint, IsU128}
use maestro_symphony.Encdec.Order.{encode_varuint-order}
use maestro_symphony.Encdec.Instances.{bytes_codec}
use maestro_symphony.Table.{encode_key, encode_range}
use maestro_symphony.Core.{Point, RollbackKey, rollback_buffer_kv}
use maestro_symphony.Store.{apply_op, gc_op}

lex_lt-asymmetric : (xs ys : Bytes) → lex_lt xs ys ≡ true → lex_lt ys xs ≡ false
lex_lt-asymmetric [] [] h = cc
lex_lt-asymmetric [] (y ∷ ys) h = refl
lex_lt-asymmetric (x ∷ xs) [] h = cc
lex_lt-asymmetric (x ∷ xs) (y ∷ ys) h = ground (arith, lex_lt-asymmetric xs ys)

lex_lt-prefix : (p xs : Bytes) → lex_lt (p ++ xs) p ≡ false
lex_lt-prefix [] [] = refl
lex_lt-prefix [] (x ∷ xs) = refl
lex_lt-prefix (b ∷ p) xs = ground (arith, lex_lt-prefix p xs)

-- An encoded number with anything behind it lies below another encoding as the numbers do.
lex_lt-encode_varuint :
    (h n : ℕ) (s : Bytes)
    → IsU128 h
    → IsU128 n
    → lex_lt (encode_varuint h ++ s) (encode_varuint n) ≡ ltb h n
lex_lt-encode_varuint h n s hh hn = elim (three h n) [
  | inl lt ↦ below lt ∙ sym (lt→ltb lt)
  | inr (inl gt) ↦
      lex_lt-asymmetric (encode_varuint n) (encode_varuint h ++ s) (above gt)
      ∙ sym (not_ltb h n (omega arith))
  | inr (inr e) ↦ rw e (lex_lt-prefix (encode_varuint n) s ∙ sym (not_ltb n n (omega arith)))
]
  where
    three : (a b : ℕ) → (a < b) ⊎ ((b < a) ⊎ (a ≡ b))
    three a b = grind arith

    lt→ltb : h < n → ltb h n ≡ true
    lt→ltb p = ground arith

    not_ltb : (a b : ℕ) → b ≤ a → ltb a b ≡ false
    not_ltb a b p = ground arith

    below : h < n → lex_lt (encode_varuint h ++ s) (encode_varuint n) ≡ true
    below p = rw append-nil at (encode_varuint-order h n s [] p hn)

    above : n < h → lex_lt (encode_varuint n) (encode_varuint h ++ s) ≡ true
    above p = rw append-nil at (encode_varuint-order n h [] s p hh)

-- The removal of old entries takes away exactly the entries of the persistent rollback buffer whose
-- height lies more than `max_rollback` below the height of the point.
pub apply_op-gc_op :
    (point : Point) (max_rollback : ℕ) (k : RollbackKey) (v : Option Bytes)
    → point.height < 2 ^ 64
    → k.height < 2 ^ 64
    → apply_op (gc_op point max_rollback) (encode_key rollback_buffer_kv k) v
      ≡ some (if ltb k.height (point.height - max_rollback) then none else v)
unfolding encode_range encode_key
apply_op-gc_op point max_rollback k v hp hk = rw (
  lex_lt-prefix (67 ∷ 82 ∷ []) (encode_varuint k.height ++ (k.hash ++ bytes_codec.encode k.key)),
  lex_lt-encode_varuint k.height (point.height - max_rollback) (k.hash ++ bytes_codec.encode k.key)
      (omega arith) (omega arith),
)

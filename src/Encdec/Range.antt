-- ===== src/Encdec/Range.antt =====
-- src/storage/encdec/mod.rs: `prefix_key_range`, the keys that begin with a prefix.
use maestro_symphony.Prelude.{
  ℕ, ◌+◌, ◌≡◌, refl, arith, [], ◌∷◌, ◌++◌, reverse, Bool, true, false, not, ◌&&◌, Bytes, IsBytes,
  eqb, lex_lt, starts_with, if◌then◌else◌, Option, none, some, Bool-cases, Option-cases, inl, inr,
  eqb_iff,
}
use mathlib.Core.List.{reverse-cons, reverse-reverse}

pub record KeyRange : Type 0 where
  pub start : Bytes
  pub end : Bytes

-- The loop `for i in (0..end.len()).rev()`: the bytes of `end` that are left, last first. The
-- first byte below 255 is raised and all behind it are cut off.
unfoldable pub bump_last : Bytes → Bytes
bump_last [] = []
bump_last (b ∷ before) =
    let rest = bump_last before in if eqb b 255 then rest else reverse ((b + 1) ∷ before)

unfoldable pub prefix_key_range : Bytes → KeyRange
unfolding bump_last
prefix_key_range prefix = record { start = prefix; end = bump_last (reverse prefix) }

abbrev is_before : Bytes → Bytes → Bool
is_before key [] = true
is_before key (b ∷ bs) = lex_lt key (b ∷ bs)

-- The keys from the start up to the end, in the order of the store; an empty end is no bound, as
-- the source's comment on it says.
abbrev pub is_in_range : KeyRange → Bytes → Bool
is_in_range r key = not (lex_lt key r.start) && is_before key r.end

-- The same bump from the front; `none` where every byte is 255.
bump : Bytes → Option Bytes
bump [] = none
bump (b ∷ bs) = elim (bump bs) [
  | some ys ↦ some (b ∷ ys)
  | none ↦ if eqb b 255 then none else some ((b + 1) ∷ [])
]

or_empty : Option Bytes → Bytes
or_empty none = []
or_empty (some e) = e

bump-append_full : (xs : Bytes) → bump (xs ++ (255 ∷ [])) ≡ bump xs
unfolding bump
bump-append_full [] = refl
bump-append_full (x ∷ xs) = rw (bump-append_full xs)

bump-append :
    (b : ℕ) (xs : Bytes) → eqb b 255 ≡ false → bump (xs ++ (b ∷ [])) ≡ some (xs ++ ((b + 1) ∷ []))
unfolding bump
bump-append b [] h = rw h
bump-append b (x ∷ xs) h = rw (bump-append b xs h)

bump_last-eq-bump : (r : Bytes) → bump_last r ≡ or_empty (bump (reverse r))
unfolding bump_last bump or_empty
bump_last-eq-bump [] = refl
bump_last-eq-bump (b ∷ r) = elim (Bool-cases (eqb b 255)) [
  | inl e ↦
      rw (
        e,
        bump_last-eq-bump r,
        reverse-cons b r,
        (eqb_iff b 255).0 e,
        bump-append_full (reverse r),
      )
  | inr e ↦ rw (e, reverse-cons b r, reverse-cons (b + 1) r, bump-append b (reverse r) e)
]

lex_lt-nil : (bs : Bytes) → lex_lt bs [] ≡ false
lex_lt-nil [] = refl
lex_lt-nil (b ∷ bs) = refl

-- Where every byte of the prefix is 255, no byte string above it leaves it.
starts_with-full :
    (p key : Bytes) → IsBytes key → bump p ≡ none → not (lex_lt key p) ≡ starts_with key p
unfolding bump
starts_with-full [] [] h e = refl
starts_with-full [] (b ∷ bs) h e = refl
starts_with-full (x ∷ p) [] h e = refl
starts_with-full (x ∷ p) (b ∷ bs) h e = ground (arith, starts_with-full p bs h.1)

bump-ne-empty : (p : Bytes) → ¬ (bump p ≡ some [])
unfolding bump
bump-ne-empty [] e = cc
bump-ne-empty (x ∷ p) e = ground arith

in_range-bump :
    (p key e : Bytes)
    → IsBytes key
    → bump p ≡ some e
    → (not (lex_lt key p) && is_before key e) ≡ starts_with key p
unfolding bump
in_range-bump [] key e h q = cc
in_range-bump (x ∷ p) [] e h q = refl
in_range-bump (x ∷ p) (b ∷ bs) e h q = elim (Option-cases (bump p)) [
  | inl n ↦ ground (arith, starts_with-full p bs h.1 n, lex_lt-nil bs)
  | inr ([], n) ↦ absurd (bump-ne-empty p n)
  | inr (y ∷ ys, n) ↦ ground (arith, in_range-bump p bs (y ∷ ys) h.1 n)
]

-- The range of a prefix holds exactly the byte strings that begin with it.
pub prefix_key_range-starts_with :
    (prefix key : Bytes)
    → IsBytes key
    → is_in_range (prefix_key_range prefix) key ≡ starts_with key prefix
unfolding prefix_key_range or_empty
prefix_key_range-starts_with prefix key h =
    rw (bump_last-eq-bump (reverse prefix), reverse-reverse prefix)
      (elim (Option-cases (bump prefix)) [
        | inl n ↦ rw n (all_full n)
        | inr ([], n) ↦ absurd (bump-ne-empty prefix n)
        | inr (y ∷ ys, n) ↦ rw n (in_range-bump prefix key (y ∷ ys) h n)
      ])
  where
    all_full : bump prefix ≡ none → (not (lex_lt key prefix) && true) ≡ starts_with key prefix
    all_full n = ground (arith, starts_with-full prefix key h n)

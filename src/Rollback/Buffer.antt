-- ===== src/Rollback/Buffer.antt =====
-- src/sync/stages/index/rollback/buffer.rs: what the rollback buffer finds, keeps and gives back.
use maestro_symphony.Prelude.{
  subst, ◌-◌, ◌≤◌, ℕ, zero, suc, ◌≤◌, ◌≡◌, refl, ap, arith, List, [], ◌∷◌, ◌++◌, none, some, false,
  All, ◌⊎◌, inl, inr, Bool-cases, ok, err, take, drop, length, min,
}
use maestro_symphony.Core.{Point, point_eq, point_beq, point_beq_iff, rollback}
use maestro_symphony.Store.{OriginalKvs}
use maestro_symphony.Rollback.{
  PointWithOriginalKvs, RollbackBuffer, position_in, position, add_block, rollback_to_point,
  points_since,
}

-- No entry of the list is of the point.
abbrev pub LacksPoint : Point → List PointWithOriginalKvs → Type 0
LacksPoint point = All (λ p. point_beq p.point point ≡ false)

-- The list begins with an entry of the point.
abbrev pub StartsAt : Point → List PointWithOriginalKvs → Type 0
StartsAt point [] = ⊥
StartsAt point (p ∷ ps) = p.point ≡ point

pub take-drop : {A : Type 0} (n : ℕ) (xs : List A) → take n xs ++ drop n xs ≡ xs
take-drop zero xs = refl
take-drop (suc n) [] = refl
take-drop (suc n) (x ∷ xs) = ap (λ ys. x ∷ ys) (take-drop n xs)

pub length-take : {A : Type 0} (n : ℕ) (xs : List A) → length (take n xs) ≡ min n (length xs)
length-take zero xs = omega arith
length-take (suc n) [] = omega arith
length-take (suc n) (x ∷ xs) = omega (arith, length-take n xs)

abbrev pub Found : Point → List PointWithOriginalKvs → Type 0
Found point ps =
    (i : ℕ) × (position_in point ps ≡ some i)
    × LacksPoint point (take i ps)
    × StartsAt point (drop i ps)

abbrev pub Missing : Point → List PointWithOriginalKvs → Type 0
Missing point ps = (position_in point ps ≡ none) × LacksPoint point ps

pub position_in-cases :
    (point : Point) (ps : List PointWithOriginalKvs) → Found point ps ⊎ Missing point ps
unfolding position_in
position_in-cases point [] = inr (refl, tt)
position_in-cases point (p ∷ ps) = elim (Bool-cases (point_beq p.point point)) [
  | inl e ↦ inl (0, rw e refl, tt, (point_beq_iff p.point point).0 e)
  | inr e ↦ elim (position_in-cases point ps) [
    | inl (i, q, l, s) ↦ inl (suc i, rw (e, q) refl, (e, l), s)
    | inr (q, l) ↦ inr (rw (e, q) refl, (e, l))
  ]
]

-- A rollback to a point gives back the blocks after its newest entry, newest first, as
-- `points_since` does, and leaves the others with that entry first; where the buffer has no such
-- entry, both are errors.
pub rollback_to_point-splits :
    (b : RollbackBuffer) (point : Point)
    → ((undone : List PointWithOriginalKvs) × (kept : List PointWithOriginalKvs)
        × (rollback_to_point b point ≡ ok (undone, record b { points = kept }))
        × (points_since b point ≡ ok undone)
        × (undone ++ kept ≡ b.points)
        × LacksPoint point undone
        × StartsAt point kept)
      ⊎ ((rollback_to_point b point ≡ err (rollback point))
          × (points_since b point ≡ err (rollback point))
          × LacksPoint point b.points)
unfolding rollback_to_point points_since position
rollback_to_point-splits b point = elim (position_in-cases point b.points) [
  | inl (i, q, l, s) ↦
      inl (take i b.points, drop i b.points, rw q refl, rw q refl, take-drop i b.points, l, s)
  | inr (q, l) ↦ inr (rw q refl, rw q refl, l)
]

take-cons :
    {A : Type 0} (n : ℕ) (x : A) (xs : List A) → 2 ≤ n → take n (x ∷ xs) ≡ x ∷ take (n - 1) xs
take-cons zero x xs h = absurd (omega (arith, h))
take-cons (suc n) x xs h = ap (λ k. x ∷ take k xs) (predecessor n)
  where
    predecessor : (n : ℕ) → n ≡ suc n - 1
    predecessor n = omega arith

StartsAt-take :
    (point : Point) (n : ℕ) (ps : List PointWithOriginalKvs)
    → 2 ≤ n
    → StartsAt point ps
    → StartsAt point (take (n - 1) ps)
StartsAt-take point zero ps h s = absurd (omega (arith, h))
StartsAt-take point (suc zero) ps h s = absurd (omega (arith, h))
StartsAt-take point (suc (suc n)) ps h s =
    subst (λ k. StartsAt point (take k ps)) (predecessor n) (first ps s)
  where
    predecessor : (n : ℕ) → suc n ≡ suc (suc n) - 1
    predecessor n = omega arith

    first : (ps : List PointWithOriginalKvs) → StartsAt point ps → StartsAt point (take (suc n) ps)
    first [] s = absurd s
    first (p ∷ ps) s = s

position_in-second :
    (point previous : Point) (kvs : OriginalKvs) (ps : List PointWithOriginalKvs)
    → point_beq point previous ≡ false
    → StartsAt previous ps
    → position_in previous (record { point = point; original_kvs = kvs } ∷ ps) ≡ some 1
unfolding position_in
position_in-second point previous kvs [] d s = absurd s
position_in-second point previous kvs (p ∷ ps) d s =
    rw (d, (point_beq_iff p.point previous).1 s) refl

-- What the buffer keeps of its points when one more comes in front of them.
abbrev pub pushed_down : RollbackBuffer → RollbackBuffer
pushed_down b = record b { points = take (b.size - 1) b.points }

-- A block that was added can be undone, where it differs from the point that was newest before: a
-- rollback to that point gives back the new block alone, and leaves the buffer as it was, but for a
-- last point that a full buffer gave up for the new one.
pub rollback_to_point-add_block :
    (b : RollbackBuffer) (point previous : Point) (kvs : OriginalKvs)
    → 2 ≤ b.size
    → point_beq point previous ≡ false
    → StartsAt previous b.points
    → rollback_to_point (add_block b point kvs) previous
      ≡ ok (record { point = point; original_kvs = kvs } ∷ [], pushed_down b)
unfolding rollback_to_point position position_in add_block
rollback_to_point-add_block b point previous kvs h d s =
    let block : PointWithOriginalKvs = record { point = point; original_kvs = kvs } in
    rw
      (
        take-cons b.size block b.points h,
        position_in-second point previous kvs (take (b.size - 1) b.points) d
            (StartsAt-take previous b.size b.points h s),
      )
      refl

pub points_since-add_block :
    (b : RollbackBuffer) (point previous : Point) (kvs : OriginalKvs)
    → 2 ≤ b.size
    → point_beq point previous ≡ false
    → StartsAt previous b.points
    → points_since (add_block b point kvs) previous
      ≡ ok (record { point = point; original_kvs = kvs } ∷ [])
unfolding points_since position add_block
points_since-add_block b point previous kvs h d s =
    let block : PointWithOriginalKvs = record { point = point; original_kvs = kvs } in
    rw
      (
        take-cons b.size block b.points h,
        position_in-second point previous kvs (take (b.size - 1) b.points) d
            (StartsAt-take previous b.size b.points h s),
      )
      refl

-- ===== src/Worker/Consistency.antt =====
-- src/sync/stages/index/worker/stage.rs: a stage whose rollback buffer stands on the tip, and what an
-- undo makes of it.
use maestro_symphony.Prelude.{
  ℕ, ◌≤◌, ◌<◌, ◌≡◌, refl, List, [], ◌∷◌, ◌++◌, Bool, true, false, ◌⊎◌, inl, inr, ok, err, nat_eq,
  list_eq,
}
use maestro_symphony.Core.{Point}
use maestro_symphony.Store.{Db, u64_max}
use maestro_symphony.Rollback.{PointWithOriginalKvs}
use maestro_symphony.Rollback.Buffer.{StartsAt, LacksPoint, rollback_to_point-splits}
use maestro_symphony.Worker.Cache.{CacheLib}
use maestro_symphony.Worker.Stage.{Stage, Outcome, worker_panic, undo_to_point, undone_stage}
use maestro_symphony.Worker.Execute.{mempool_point, after_undo}

-- A buffer, if it is not empty, begins with the last block, behind the point of the mempool blocks
-- where those were processed.
abbrev pub IsOnTip : Bool → Point → List PointWithOriginalKvs → Type 0
IsOnTip true last [] = ⊥
IsOnTip true last (m ∷ ps) = (m.point ≡ mempool_point last) × StartsAt last ps
IsOnTip false last [] = Unit
IsOnTip false last (p ∷ ps) = p.point ≡ last

-- A worker that keeps no originals has an empty buffer.
abbrev pub IsImmutable : Bool → List PointWithOriginalKvs → Type 0
IsImmutable true ps = Unit
IsImmutable false [] = Unit
IsImmutable false (p ∷ ps) = ⊥

pub record IsConsistent (lib : CacheLib) (db : Db) (st : Stage lib db) (mutable : Bool)
    : Type 0 where
  pub on_tip : IsOnTip st.processed_mempool st.last_processed st.rollback_buffer.points
  pub bounded : st.last_processed.height < u64_max
  pub roomy : 2 ≤ st.rollback_buffer.size
  pub immutable : IsImmutable mutable st.rollback_buffer.points

pub StartsAt-IsOnTip :
    (point : Point) (ps : List PointWithOriginalKvs) → StartsAt point ps → IsOnTip false point ps
StartsAt-IsOnTip point [] h = tt
StartsAt-IsOnTip point (p ∷ ps) h = h

-- A buffer that begins with a point is no buffer of a worker that keeps no originals.
pub StartsAt-mutable :
    (mutable : Bool) (ps : List PointWithOriginalKvs) (point : Point)
    (qs : List PointWithOriginalKvs)
    → IsImmutable mutable (qs ++ ps)
    → StartsAt point ps
    → mutable ≡ true
StartsAt-mutable true ps point qs h s = refl
StartsAt-mutable false (p ∷ ps) point [] h s = absurd h
StartsAt-mutable false [] point qs h s = absurd s
StartsAt-mutable false (p ∷ ps) point (q ∷ qs) h s = absurd h

module _ (lib : CacheLib) (db : Db) where
  -- The stage after an undo of `undone`.
  abbrev pub undone_to :
      ℕ
      → Stage lib db
      → Point
      → List PointWithOriginalKvs
      → List PointWithOriginalKvs
      → Stage lib db
  undone_to now st point undone rest = record (undone_stage lib db now st point undone) {
    rollback_buffer = record st.rollback_buffer { points = rest };
  }

  -- An undo panics and changes nothing where the buffer lacks the point, and otherwise undoes the
  -- blocks after it and leaves the buffer with the point first.
  pub undo_to_point-cases :
      (now : ℕ) (st : Stage lib db) (point : Point)
      → ((undone : List PointWithOriginalKvs) × (rest : List PointWithOriginalKvs) × (undo_to_point
              lib db now st point
            ≡ (undone_to now st point undone rest, ok tt))
          × (undone ++ rest ≡ st.rollback_buffer.points)
          × LacksPoint point undone
          × StartsAt point rest)
        ⊎ ((undo_to_point lib db now st point ≡ (st, err worker_panic))
            × LacksPoint point st.rollback_buffer.points)
  unfolding undo_to_point
  undo_to_point-cases now st point = elim (rollback_to_point-splits st.rollback_buffer point) [
    | inl (undone, rest, r, s, a, l, h) ↦ inl (undone, rest, rw (s, r) refl, a, l, h)
    | inr (r, s, l) ↦ inr (rw s refl, l)
  ]

  pub undone_to-IsConsistent :
      (now : ℕ) (st : Stage lib db) (mutable : Bool) (point : Point)
      (undone rest : List PointWithOriginalKvs)
      → IsConsistent lib db st mutable
      → undone ++ rest ≡ st.rollback_buffer.points
      → StartsAt point rest
      → point.height < u64_max
      → IsConsistent lib db (undone_to now st point undone rest) mutable
  undone_to-IsConsistent now st mutable point undone rest h a s f =
      let m : mutable ≡ true = StartsAt-mutable mutable rest point undone (rw a h.immutable) s in
      record {
        on_tip = StartsAt-IsOnTip point rest s;
        bounded = f;
        roomy = h.roomy;
        immutable = rw m tt;
      }

  abbrev pub IsConsistentOutcome : Outcome lib db → Type 0
  IsConsistentOutcome o = IsConsistent lib db o.stage o.mutable

  pub after_undo-IsConsistent :
      (now : ℕ) (st : Stage lib db) (mutable : Bool) (point : Point)
      (f : Stage lib db → Outcome lib db)
      → IsConsistent lib db st mutable
      → point.height < u64_max
      → ((st' : Stage lib db)
          → IsConsistent lib db st' mutable
          → st'.processed_mempool ≡ false
          → StartsAt st'.last_processed st'.rollback_buffer.points
          → IsConsistentOutcome (f st'))
      → IsConsistentOutcome (after_undo lib db mutable (undo_to_point lib db now st point) f)
  after_undo-IsConsistent now st mutable point f h g k = elim (undo_to_point-cases now st point) [
    | inl (undone, rest, e, a, l, s) ↦ rw e (
        k (undone_to now st point undone rest)
          (undone_to-IsConsistent now st mutable point undone rest h a s g) refl s)
    | inr (e, l) ↦ rw e h
  ]

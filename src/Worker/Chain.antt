-- ===== src/Worker/Chain.antt =====
-- src/sync/stages/index/worker/stage.rs: which blocks the stage takes, and what an undo of the mempool
-- blocks undoes.
use maestro_symphony.Prelude.{
  ℕ, ◌+◌, ◌<◌, ◌≡◌, refl, sym, ap, subst, ◌∙◌, arith, List, [], ◌∷◌, ◌++◌, Bool, true, false, ◌||◌,
  Bytes, Bool-cases, ◌⊎◌, inl, inr, if◌then◌else◌, Result, ok, err, ltb, list_beq, list_beq_iff,
  nat_eq, list_eq,
}
use maestro_symphony.Core.{Point, point_beq, point_beq_iff, BlockTxs}
use maestro_symphony.Store.{Db, u64_max}
use maestro_symphony.Rollback.{PointWithOriginalKvs}
use maestro_symphony.Rollback.Buffer.{StartsAt, LacksPoint}
use maestro_symphony.Worker.Cache.{CacheLib}
use maestro_symphony.Worker.Context.{Progress}
use maestro_symphony.Worker.Index.{ProcessTransaction, Failure}
use maestro_symphony.Worker.Stage.{Stage, Outcome, undo_to_point, Clock, roll_forward}
use maestro_symphony.Worker.Execute.{
  mempool_point, commit_block, index_block, accept_block, execute_roll_forward, execute, after_undo,
  near_tip,
}
use maestro_symphony.Worker.Consistency.{IsConsistent, IsOnTip, undone_to, undo_to_point-cases}

differs : (p q : Point) → p ≡ q → point_beq p q ≡ false → ⊥
differs p q e d = cc (sym ((point_beq_iff p q).1 e) ∙ d)

lacks_tip :
    (last : Point) (ps : List PointWithOriginalKvs) → IsOnTip true last ps → LacksPoint last ps → ⊥
lacks_tip last [] t l = t
lacks_tip last (m ∷ []) t l = t.1
lacks_tip last (m ∷ p ∷ ps) t l = differs p.point last t.1 l.1.0

-- What lies before the last point in a buffer that the mempool's point begins.
one_block :
    (last : Point) (undone rest ps : List PointWithOriginalKvs)
    → undone ++ rest ≡ ps
    → IsOnTip true last ps
    → last.height < u64_max
    → LacksPoint last undone
    → StartsAt last rest
    → (m : PointWithOriginalKvs) × (m.point ≡ mempool_point last) × (undone ≡ m ∷ [])
one_block last [] [] ps a t f l s = absurd s
one_block last [] (p ∷ rest) ps a t f l s =
    let t' : IsOnTip true last (p ∷ rest) = subst (λ qs. IsOnTip true last qs) (sym a) t in
    absurd (omega (arith, ap (λ x. x.height) (sym t'.0 ∙ s), f))
one_block last (m ∷ []) rest ps a t f l s =
    let t' : IsOnTip true last (m ∷ rest) = subst (λ qs. IsOnTip true last qs) (sym a) t in
    (m, t'.0, refl)
one_block last (m ∷ p ∷ undone) rest ps a t f l s =
    let t' : IsOnTip true last (m ∷ p ∷ (undone ++ rest)) =
      subst (λ qs. IsOnTip true last qs) (sym a) t in
    absurd (differs p.point last t'.1 l.1.0)

module _ (lib : CacheLib) (db : Db) where
  -- The block was not taken, or it is the next after `last` and was taken without an error.
  abbrev pub Taken : Point → Point → Bytes → Outcome lib db → Type 0
  Taken last point prev o =
      (o.stage.last_processed ≡ last)
      ⊎ ((o.stage.last_processed ≡ point)
          × (o.result ≡ ok tt)
          × (point.height ≡ last.height + 1)
          × (prev ≡ last.hash))

  commit_block-Taken :
      (now : ℕ) (st : Stage lib db) (mutable : Bool) (point : Point) (prev : Bytes)
      (r : Result (Failure lib.Cache) (Progress lib.Cache))
      → point.height ≡ st.last_processed.height + 1
      → prev ≡ st.last_processed.hash
      → Taken st.last_processed point prev (commit_block lib db now st mutable point r)
  commit_block-Taken now st mutable point prev (ok p) h e = inr (refl, refl, h, e)
  commit_block-Taken now st mutable point prev (err f) h e = inl refl

  next_height : (a b : ℕ) → ltb a b ≡ false → ltb b a ≡ false → a ≡ b
  next_height a b p q = ground arith

  accept_block-Taken :
      (now : ℕ) (fs : List (ProcessTransaction db)) (st : Stage lib db) (mutable : Bool)
      (point : Point) (prev : Bytes) (txs : BlockTxs) (tip : Point)
      → Taken st.last_processed point prev
          (accept_block lib db now fs st mutable point prev txs tip)
  unfolding accept_block index_block
  accept_block-Taken now fs st mutable point prev txs tip =
      elim (Bool-cases (ltb point.height (st.last_processed.height + 1))) [
        | inl a ↦ rw a (inl refl)
        | inr a ↦ elim (Bool-cases (ltb (st.last_processed.height + 1) point.height)) [
          | inl b ↦ rw (a, b) (inl refl)
          | inr b ↦ elim (Bool-cases (list_beq prev st.last_processed.hash)) [
            | inl c ↦
                rw (a, b, c)
                  (commit_block-Taken now st (mutable || near_tip lib db st point tip) point prev _
                    (next_height point.height (st.last_processed.height + 1) a b)
                    ((list_beq_iff prev st.last_processed.hash).0 c))
            | inr c ↦ rw (a, b, c) (inl refl)
          ]
        ]
      ]

  -- A new block moves the stage's last point only if it has the next height and the last point's hash
  -- before it, and then without an error. In every other case the last point stays.
  pub execute-roll_forward :
      (clock : Clock) (fs : List (ProcessTransaction db)) (st : Stage lib db) (mutable : Bool)
      (point : Point) (prev : Bytes) (txs : BlockTxs) (tip : Point)
      → Taken st.last_processed point prev
          (execute lib db clock fs st mutable (roll_forward point prev txs tip))
  unfolding execute execute_roll_forward
  execute-roll_forward clock fs st mutable point prev txs tip = begun st.processed_mempool
    where
      next : Stage lib db → Outcome lib db
      next st' = accept_block lib db clock.commit fs st' mutable point prev txs tip

      begun :
          (b : Bool)
          → Taken st.last_processed point prev (
              after_undo lib db mutable
                (if b then undo_to_point lib db clock.undo st st.last_processed else (st, ok tt))
                next)
      begun false = accept_block-Taken clock.commit fs st mutable point prev txs tip
      begun true = elim (undo_to_point-cases lib db clock.undo st st.last_processed) [
        | inl (undone, rest, e, a, l, s) ↦ rw e (
            accept_block-Taken clock.commit fs
              (undone_to lib db clock.undo st st.last_processed undone rest) mutable point prev txs
              tip)
        | inr (e, l) ↦ rw e (inl refl)
      ]

  -- While mempool blocks are processed, an undo to the last point undoes them and nothing else.
  pub undo_to_point-mempool :
      (now : ℕ) (st : Stage lib db) (mutable : Bool)
      → IsConsistent lib db st mutable
      → st.processed_mempool ≡ true
      → (m : PointWithOriginalKvs) × (rest : List PointWithOriginalKvs) × (st.rollback_buffer.points
          ≡ m ∷ rest)
        × (m.point ≡ mempool_point st.last_processed)
        × (undo_to_point lib db now st st.last_processed
            ≡ (undone_to lib db now st st.last_processed (m ∷ []) rest, ok tt))
  unfolding undo_to_point
  undo_to_point-mempool now st mutable h e =
      let tip : IsOnTip true st.last_processed st.rollback_buffer.points =
        subst (λ b. IsOnTip b st.last_processed st.rollback_buffer.points) e h.on_tip in
      elim (undo_to_point-cases lib db now st st.last_processed) [
        | inl (undone, rest, q, a, l, s) ↦
            let (m, t, u) =
              one_block st.last_processed undone rest st.rollback_buffer.points a tip h.bounded l
                s in
            (
              m,
              rest,
              sym a ∙ ap (λ us. us ++ rest) u,
              t,
              q ∙ ap (λ us. (undone_to lib db now st st.last_processed us rest, ok tt)) u,
            )
        | inr (q, l) ↦ absurd (lacks_tip st.last_processed st.rollback_buffer.points tip l)
      ]

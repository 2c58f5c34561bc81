-- ===== src/Worker/RollForward.antt =====
-- src/sync/stages/index/worker/stage.rs: the consistency of the stage on a new block.
use maestro_symphony.Prelude.{
  bind-ok, ℕ, zero, suc, ◌+◌, ◌≤◌, ◌<◌, ◌≡◌, refl, ◌∙◌, arith, List, [], ◌∷◌, Option, none, some,
  Bool, true, false, ◌||◌, Bytes, All, Bool-cases, inl, inr, if◌then◌else◌, Result, ok, err, take,
  ltb, list_beq, nat_eq, list_eq,
}
use maestro_symphony.Core.{Point, BlockTxs}
use maestro_symphony.Store.{Db, OriginalKvs, begin_indexing_task, finalize, u64_max}
use maestro_symphony.Rollback.{PointWithOriginalKvs, RollbackBuffer, add_block}
use maestro_symphony.Worker.Cache.{CacheLib}
use maestro_symphony.Worker.Context.{Progress}
use maestro_symphony.Worker.Index.{ProcessTransaction, Failure, prepare}
use maestro_symphony.Worker.Stage.{Stage, Outcome, undo_to_point, buffer_block, Clock}
use maestro_symphony.Worker.Execute.{
  commit_block, index_block, accept_block, execute_roll_forward, after_undo, finish_block, near_tip,
}
use maestro_symphony.Worker.Steps.{steps-index_txs, steps-prepare}
use maestro_symphony.Worker.Kept.{
  kept, is_kept, SameKept, SameKept-IsClosed, KeepsOriginals, is_kept-set,
  is_kept-begin_indexing_task,
}
use maestro_symphony.Worker.Consistency.{
  IsOnTip, IsImmutable, IsConsistent, after_undo-IsConsistent, IsConsistentOutcome,
}

module _ (lib : CacheLib) (db : Db) where
  -- A block that was added stands first, where the buffer has room.
  added-IsOnTip :
      (b : RollbackBuffer) (mutable : Bool) (point : Point) (o : Option OriginalKvs)
      → 2 ≤ b.size
      → IsImmutable mutable b.points
      → kept o ≡ mutable
      → IsOnTip false point (buffer_block lib db point o b).points
        × IsImmutable mutable (buffer_block lib db point o b).points
        × ((buffer_block lib db point o b).size ≡ b.size)
  unfolding add_block
  added-IsOnTip b true point none r i e = absurd (cc e)
  added-IsOnTip b false point (some kvs) r i e = absurd (cc e)
  added-IsOnTip b false point none r i e = (empty b.points i, i, refl)
    where
      empty : (ps : List PointWithOriginalKvs) → IsImmutable false ps → IsOnTip false point ps
      empty [] i = tt
      empty (p ∷ ps) i = absurd i
  added-IsOnTip b true point (some kvs) r i e = (first b.size r, tt, refl)
    where
      first :
          (n : ℕ)
          → 2 ≤ n
          → IsOnTip false point (take n (record { point = point; original_kvs = kvs } ∷ b.points))
      first zero h = absurd (omega (arith, h))
      first (suc n) h = refl

  commit_block-IsConsistent :
      (now : ℕ) (st : Stage lib db) (mutable : Bool) (point : Point)
      (r : Result (Failure lib.Cache) (Progress lib.Cache))
      → IsConsistent lib db st mutable
      → st.processed_mempool ≡ false
      → point.height < u64_max
      → ((p : Progress lib.Cache) → r ≡ ok p → is_kept p.task ≡ mutable)
      → IsConsistentOutcome lib db (commit_block lib db now st mutable point r)
  unfolding finalize
  commit_block-IsConsistent now st mutable point (ok p) h m g k =
      let (t, i, z) =
        added-IsOnTip st.rollback_buffer mutable point
          (finish_block lib db st point p).task.original_kvs h.roomy h.immutable
          (is_kept-set db st.handler.store _ _ _ _
            ∙ (is_kept-set db st.handler.store _ p.task tt _ ∙ k p refl)) in
      record { on_tip = rw m t; bounded = g; roomy = rw z h.roomy; immutable = i }
  commit_block-IsConsistent now st mutable point (err f) h m g k = record {
    on_tip = h.on_tip;
    bounded = h.bounded;
    roomy = h.roomy;
    immutable = h.immutable;
  }

  index_block-IsConsistent :
      (now : ℕ) (fs : List (ProcessTransaction db)) (st : Stage lib db) (mutable : Bool)
      (point : Point) (txs : BlockTxs)
      → All (KeepsOriginals db) fs
      → IsConsistent lib db st mutable
      → st.processed_mempool ≡ false
      → point.height < u64_max
      → IsConsistentOutcome lib db (index_block lib db now fs st mutable point txs)
  unfolding index_block
  index_block-IsConsistent now fs st mutable point txs ks h m g =
      commit_block-IsConsistent now st mutable point _ h m g (λ p e.
        let (q, a, b) =
          bind-ok
            (prepare lib db st.handler.store
              (begin_indexing_task st.handler.previous_timestamp mutable) txs point st.network
              st.utxo_cache)
            _ p e in
        steps-index_txs lib db st.handler.store (SameKept db) (SameKept-IsClosed db) fs txs 0 q p ks
          b
        ∙ (steps-prepare lib db st.handler.store (SameKept db) (SameKept-IsClosed db) _ txs point
              st.network st.utxo_cache q a
            ∙ is_kept-begin_indexing_task st.handler.previous_timestamp mutable))

  accept_block-IsConsistent :
      (now : ℕ) (fs : List (ProcessTransaction db)) (st : Stage lib db) (mutable : Bool)
      (point : Point) (prev : Bytes) (txs : BlockTxs) (tip : Point)
      → All (KeepsOriginals db) fs
      → IsConsistent lib db st mutable
      → st.processed_mempool ≡ false
      → point.height < u64_max
      → IsConsistentOutcome lib db (accept_block lib db now fs st mutable point prev txs tip)
  unfolding accept_block
  accept_block-IsConsistent now fs st mutable point prev txs tip ks h m g =
      elim (Bool-cases (ltb point.height (st.last_processed.height + 1))) [
        | inl a ↦ rw a h
        | inr a ↦ elim (Bool-cases (ltb (st.last_processed.height + 1) point.height)) [
          | inl b ↦ rw (a, b) h
          | inr b ↦ elim (Bool-cases (list_beq prev st.last_processed.hash)) [
            | inl c ↦
                rw (a, b, c)
                  (index_block-IsConsistent now fs st _ point txs ks
                    (record {
                      on_tip = h.on_tip;
                      bounded = h.bounded;
                      roomy = h.roomy;
                      immutable =
                          wider mutable (near_tip lib db st point tip) st.rollback_buffer.points
                            h.immutable;
                    })
                    m g)
            | inr c ↦ rw (a, b, c) h
          ]
        ]
      ]
    where
      wider :
          (a b : Bool) (ps : List PointWithOriginalKvs) → IsImmutable a ps → IsImmutable (a || b) ps
      wider true b ps h = tt
      wider false true ps h = tt
      wider false false ps h = h

  pub execute_roll_forward-IsConsistent :
      (clock : Clock) (fs : List (ProcessTransaction db)) (st : Stage lib db) (mutable : Bool)
      (point : Point) (prev : Bytes) (txs : BlockTxs) (tip : Point)
      → All (KeepsOriginals db) fs
      → IsConsistent lib db st mutable
      → point.height < u64_max
      → IsConsistentOutcome lib db
          (execute_roll_forward lib db clock fs st mutable point prev txs tip)
  unfolding execute_roll_forward
  execute_roll_forward-IsConsistent clock fs st mutable point prev txs tip ks h g =
      begun st.processed_mempool refl
    where
      next : Stage lib db → Outcome lib db
      next st' = accept_block lib db clock.commit fs st' mutable point prev txs tip

      begun :
          (b : Bool)
          → st.processed_mempool ≡ b
          → IsConsistentOutcome lib db (
              after_undo lib db mutable
                (if b then undo_to_point lib db clock.undo st st.last_processed else (st, ok tt))
                next)
      begun true m =
          after_undo-IsConsistent lib db clock.undo st mutable st.last_processed next h h.bounded
            (λ st' h' m' s'.
              accept_block-IsConsistent clock.commit fs st' mutable point prev txs tip ks h' m' g)
      begun false m =
          accept_block-IsConsistent clock.commit fs st mutable point prev txs tip ks h m g

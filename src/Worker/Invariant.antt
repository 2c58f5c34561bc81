-- ===== src/Worker/Invariant.antt =====
-- src/sync/stages/index/worker/stage.rs: the rollback buffer and the last point across
-- `execute`.
use maestro_symphony.Prelude.{
  bind-ok, ℕ, zero, suc, ◌≤◌, ◌<◌, ◌≡◌, refl, sym, ap, ◌∙◌, arith, List, [], ◌∷◌, ◌++◌, Option,
  none, some, Bool, true, false, All, Bool-cases, inl, inr, Result, ok, err, take, list_beq, nat_eq,
  list_eq,
}
use maestro_symphony.Core.{Point, BlockTxs}
use maestro_symphony.Store.{Db, OriginalKvs, begin_mempool_indexing_task, finalize, u64_max}
use maestro_symphony.Rollback.{PointWithOriginalKvs, RollbackBuffer, add_block}
use maestro_symphony.Rollback.Buffer.{StartsAt, rollback_to_point-splits}
use maestro_symphony.Worker.Cache.{CacheLib}
use maestro_symphony.Worker.Context.{Progress}
use maestro_symphony.Worker.Index.{ProcessTransaction, Failure, prepare}
use maestro_symphony.Worker.Stage.{
  Stage, Outcome, buffer_block, Clock, ChainEvent, roll_forward, roll_back, mempool_blocks,
  MempoolSnapshotInfo,
}
use maestro_symphony.Worker.Execute.{
  mempool_point, commit_mempool, index_mempool, undo_mempool, execute_mempool, execute, after_undo,
  concat_blocks,
}
use maestro_symphony.Worker.Steps.{steps-index_mempool_blocks, steps-prepare}
use maestro_symphony.Worker.Kept.{
  kept, is_kept, SameKept, SameKept-IsClosed, KeepsOriginals, is_kept-begin_mempool_indexing_task,
}
use maestro_symphony.Worker.Consistency.{
  IsOnTip, IsConsistent, StartsAt-mutable, undo_to_point-cases, undone_to-IsConsistent,
  after_undo-IsConsistent, IsConsistentOutcome,
}
use maestro_symphony.Worker.RollForward.{execute_roll_forward-IsConsistent}

module _ (lib : CacheLib) (db : Db) where
  added-mempool :
      (b : RollbackBuffer) (tip : Point) (o : Option OriginalKvs)
      → 2 ≤ b.size
      → StartsAt tip b.points
      → kept o ≡ true
      → IsOnTip true tip (buffer_block lib db (mempool_point tip) o b).points
        × ((buffer_block lib db (mempool_point tip) o b).size ≡ b.size)
  unfolding add_block
  added-mempool b tip none r s e = absurd (cc e)
  added-mempool b tip (some kvs) r s e = (first b.size b.points r s, refl)
    where
      first :
          (n : ℕ) (ps : List PointWithOriginalKvs)
          → 2 ≤ n
          → StartsAt tip ps
          → IsOnTip true tip
              (take n (record { point = mempool_point tip; original_kvs = kvs } ∷ ps))
      first zero ps h s = absurd (omega (arith, h))
      first (suc zero) ps h s = absurd (omega (arith, h))
      first (suc (suc n)) [] h s = absurd s
      first (suc (suc n)) (p ∷ ps) h s = (refl, s)

  -- The mempool blocks are indexed on a buffer that begins with the tip.
  commit_mempool-IsConsistent :
      (now : ℕ) (st : Stage lib db) (mutable : Bool) (info : MempoolSnapshotInfo)
      (bs : List BlockTxs) (r : Result (Failure lib.Cache) (Progress lib.Cache))
      → IsConsistent lib db st mutable
      → StartsAt st.last_processed st.rollback_buffer.points
      → st.processed_mempool ≡ false
      → ((p : Progress lib.Cache) → r ≡ ok p → is_kept p.task ≡ true)
      → IsConsistentOutcome lib db (commit_mempool lib db now st mutable info bs r)
  unfolding finalize
  commit_mempool-IsConsistent now st mutable info bs (ok p) h s m k =
      let (t, z) =
        added-mempool st.rollback_buffer st.last_processed p.task.original_kvs h.roomy s
          (k p refl) in
      record {
        on_tip = t;
        bounded = h.bounded;
        roomy = rw z h.roomy;
        immutable =
            rw
              (StartsAt-mutable mutable st.rollback_buffer.points st.last_processed [] h.immutable
                s)
              tt;
      }
  commit_mempool-IsConsistent now st mutable info bs (err f) h s m k = record {
    on_tip = h.on_tip;
    bounded = h.bounded;
    roomy = h.roomy;
    immutable = h.immutable;
  }

  index_mempool-IsConsistent :
      (now : ℕ) (fs : List (ProcessTransaction db)) (st : Stage lib db) (mutable : Bool)
      (info : MempoolSnapshotInfo) (bs : List BlockTxs)
      → All (KeepsOriginals db) fs
      → IsConsistent lib db st mutable
      → StartsAt st.last_processed st.rollback_buffer.points
      → st.processed_mempool ≡ false
      → IsConsistentOutcome lib db (index_mempool lib db now fs st mutable info bs)
  unfolding index_mempool
  index_mempool-IsConsistent now fs st mutable info bs ks h s m =
      elim (Bool-cases (list_beq info.tip st.last_processed.hash)) [
        | inl e ↦ rw e (
            commit_mempool-IsConsistent now st mutable info bs _ h s m (λ p e.
              let (q, a, b) =
                bind-ok
                  (prepare lib db st.handler.store
                    (begin_mempool_indexing_task st.handler.previous_timestamp)
                    (concat_blocks lib db bs) st.last_processed st.network st.utxo_cache)
                  _ p e in
              steps-index_mempool_blocks lib db st.handler.store (SameKept db)
                (SameKept-IsClosed db) fs st.last_processed bs 0 q p ks b
              ∙ (steps-prepare lib db st.handler.store (SameKept db) (SameKept-IsClosed db) _ _
                    st.last_processed st.network st.utxo_cache q a
                  ∙ is_kept-begin_mempool_indexing_task st.handler.previous_timestamp)))
        | inr e ↦ rw e h
      ]

  execute_mempool-IsConsistent :
      (clock : Clock) (fs : List (ProcessTransaction db)) (st : Stage lib db) (mutable : Bool)
      (info : MempoolSnapshotInfo) (bs : List BlockTxs)
      → All (KeepsOriginals db) fs
      → IsConsistent lib db st mutable
      → IsConsistentOutcome lib db (execute_mempool lib db clock fs st mutable info bs)
  unfolding execute_mempool
  execute_mempool-IsConsistent clock fs st mutable info bs ks h =
      elim (rollback_to_point-splits st.rollback_buffer st.last_processed) [
        | inl (undone, rest, r, e, a, l, s) ↦ rw e (begun undone rest a s)
        | inr (r, e, l) ↦ rw e h
      ]
    where
      next : Stage lib db → Outcome lib db
      next st' = index_mempool lib db clock.commit fs st' mutable info bs

      begun :
          (undone rest : List PointWithOriginalKvs)
          → undone ++ rest ≡ st.rollback_buffer.points
          → StartsAt st.last_processed rest
          → IsConsistentOutcome lib db
              (after_undo lib db mutable (undo_mempool lib db clock.undo st (ok undone)) next)
      begun [] rest a s =
          index_mempool-IsConsistent clock.commit fs st mutable info bs ks h (rw⁻¹ a s)
            (not_mempool st.processed_mempool st.rollback_buffer.points h.on_tip (rw⁻¹ a s))
        where
          not_mempool :
              (b : Bool) (ps : List PointWithOriginalKvs)
              → IsOnTip b st.last_processed ps
              → StartsAt st.last_processed ps
              → b ≡ false
          not_mempool false ps t s = refl
          not_mempool true [] t s = absurd t
          not_mempool true (p ∷ ps) t s =
              absurd (omega (arith, ap (λ x. x.height) (sym t.0 ∙ s), h.bounded))
      begun (x ∷ xs) rest a s =
          after_undo-IsConsistent lib db clock.undo st mutable st.last_processed next h h.bounded
            (λ st' h' m' s'.
              index_mempool-IsConsistent clock.commit fs st' mutable info bs ks h' s' m')

  -- The heights of an event leave room for the next, and for the mempool's own.
  abbrev pub FitsEvent : ChainEvent → Type 0
  FitsEvent (roll_forward point prev txs tip) = point.height < u64_max
  FitsEvent (roll_back point) = point.height < u64_max
  FitsEvent (mempool_blocks info bs) = Unit

  -- Let a rollback buffer that is not empty begin with the block that was processed last, behind the
  -- point of the mempool blocks where those were processed, let it be empty while no originals are
  -- kept and have room for two points, and let heights be below the greatest u64. Whatever event the stage executes on indexers
  -- that leave the keeping of originals alone, and whether or not that succeeds, all this still holds.
  pub execute-IsConsistent :
      (clock : Clock) (fs : List (ProcessTransaction db)) (st : Stage lib db) (mutable : Bool)
      (event : ChainEvent)
      → All (KeepsOriginals db) fs
      → IsConsistent lib db st mutable
      → FitsEvent event
      → IsConsistent lib db
          (execute lib db clock fs st mutable event).stage
          (execute lib db clock fs st mutable event).mutable
  unfolding execute
  execute-IsConsistent clock fs st mutable (roll_forward point prev txs tip) ks h g =
      execute_roll_forward-IsConsistent lib db clock fs st mutable point prev txs tip ks h g
  execute-IsConsistent clock fs st mutable (roll_back point) ks h g =
      elim (undo_to_point-cases lib db clock.undo st point) [
        | inl (undone, rest, e, a, l, s) ↦
            rw e (undone_to-IsConsistent lib db clock.undo st mutable point undone rest h a s g)
        | inr (e, l) ↦ rw e h
      ]
  execute-IsConsistent clock fs st mutable (mempool_blocks info bs) ks h g =
      execute_mempool-IsConsistent clock fs st mutable info bs ks h

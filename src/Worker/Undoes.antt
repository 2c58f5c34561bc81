-- ===== src/Worker/Undoes.antt =====
-- src/sync/stages/index/worker/stage.rs: the rollback of the block that was indexed last.
use maestro_symphony.Prelude.{
  ℕ, ◌+◌, ◌≤◌, ◌≡◌, ◌≢◌, refl, sym, ap, ◌∙◌, subst, arith, List, [], ◌∷◌, Option, none, some, Bool,
  true, false, Bytes, All, Bool-cases, ◌⊎◌, inl, inr, if◌then◌else◌, Result, ok, Result-cases,
  bind-ok, ◌>>=◌, ltb, list_beq, nat_eq,
}
use maestro_symphony.Timestamp.{as_u64}
use maestro_symphony.Core.{Point, point_beq, point_beq_iff, BlockTxs}
use maestro_symphony.Store.{
  Db, OriginalKvs, IndexingTask, begin_indexing_task, finalize, apply_indexing_task, next_timestamp,
  read_time, set,
}
use maestro_symphony.Commit.Batch.{IsDataKey}
use maestro_symphony.Rollback.{
  PointWithOriginalKvs, RollbackBuffer, add_block, points_since, rollback_to_point,
}
use maestro_symphony.Rollback.Buffer.{
  StartsAt, pushed_down, rollback_to_point-add_block, points_since-add_block,
}
use maestro_symphony.Rollback.Recorded.{run_ops_from_begin-IsRecorded}
use maestro_symphony.Rollback.History.{History, start, commit, value_at, get-undo_batch}
use maestro_symphony.Worker.Cache.{CacheLib}
use maestro_symphony.Worker.Context.{Progress}
use maestro_symphony.Worker.Index.{ProcessTransaction, Failure, index_txs, prepare}
use maestro_symphony.Worker.Stage.{
  Stage, Outcome, undo_to_point, undo_blocks, undone_stage, trim, buffer_block, Clock, roll_forward,
  roll_back,
}
use maestro_symphony.Worker.Execute.{
  commit_block, finish_block, index_block, accept_block, execute_roll_forward, execute, after_undo,
}
use maestro_symphony.Worker.Chain.{execute-roll_forward}
use maestro_symphony.Worker.Steps.{IsClosed, steps-index_txs, steps-prepare}
use maestro_symphony.Worker.Traces.{Traced, WritesOnly, Traced-IsClosed, run_ops-read_ts}

module _ (lib : CacheLib) (db : Db) where
  -- The block was indexed, by some writes to its task.
  abbrev Indexed : ℕ → Stage lib db → Bool → Point → Outcome lib db → Type 0
  Indexed now st mutable point o =
      (p : Progress lib.Cache) × Traced db st.handler.store
        (begin_indexing_task st.handler.previous_timestamp mutable) p.task
      × (o ≡ commit_block lib db now st mutable point (ok p))

  index_block-cases :
      (now : ℕ) (fs : List (ProcessTransaction db)) (st : Stage lib db) (mutable : Bool)
      (point : Point) (txs : BlockTxs)
      → All (WritesOnly db) fs
      → Indexed now st mutable point (index_block lib db now fs st mutable point txs)
        ⊎ ((index_block lib db now fs st mutable point txs).stage.last_processed
            ≡ st.last_processed)
  unfolding index_block
  index_block-cases now fs st mutable point txs ws = elim (Result-cases run) [
    | inl (p, e) ↦
        let (q, a, b) =
          bind-ok (prepare lib db s task txs point st.network st.utxo_cache)
            (λ p'. index_txs lib db s fs txs 0 p') p e in
        inl (
          p,
          (Traced-IsClosed db).transitive s _ _ _
              (steps-prepare lib db s (Traced db) (Traced-IsClosed db) task txs point st.network
                st.utxo_cache q a)
              (steps-index_txs lib db s (Traced db) (Traced-IsClosed db) fs txs 0 q p ws b),
          ap (commit_block lib db now st mutable point) e,
        )
    | inr (f, e) ↦
        inr (ap (λ r. (commit_block lib db now st mutable point r).stage.last_processed) e)
  ]
    where
      s : db.Store
      s = st.handler.store

      task : IndexingTask
      task = begin_indexing_task st.handler.previous_timestamp mutable

      run : Result (Failure lib.Cache) (Progress lib.Cache)
      run = prepare lib db s task txs point st.network st.utxo_cache >>= λ p'.
          index_txs lib db s fs txs 0 p'

  accept_block-cases :
      (now : ℕ) (fs : List (ProcessTransaction db)) (st : Stage lib db) (point : Point)
      (prev : Bytes) (txs : BlockTxs) (tip : Point)
      → All (WritesOnly db) fs
      → Indexed now st true point (accept_block lib db now fs st true point prev txs tip)
        ⊎ ((accept_block lib db now fs st true point prev txs tip).stage.last_processed
            ≡ st.last_processed)
  unfolding accept_block
  accept_block-cases now fs st point prev txs tip ws =
      elim (Bool-cases (ltb point.height (st.last_processed.height + 1))) [
        | inl a ↦ inr (rw a refl)
        | inr a ↦ elim (Bool-cases (ltb (st.last_processed.height + 1) point.height)) [
          | inl b ↦ inr (rw (a, b) refl)
          | inr b ↦ elim (Bool-cases (list_beq prev st.last_processed.hash)) [
            | inl c ↦ rw (a, b, c) (index_block-cases now fs st true point txs ws)
            | inr c ↦ inr (rw (a, b, c) refl)
          ]
        ]
      ]

  -- The time at which the next commit of a stage is written.
  abbrev pub commit_time : ℕ → Stage lib db → ℕ
  commit_time now st = as_u64 (next_timestamp now st.handler.previous_timestamp)

  -- The entries that the stage itself adds to a block.
  Traced-finish_block :
      (st : Stage lib db) (point : Point) (t : IndexingTask) (p : Progress lib.Cache)
      → Traced db st.handler.store t p.task
      → Traced db st.handler.store t (finish_block lib db st point p).task
  unfolding set
  Traced-finish_block st point t p e =
      let c : IsClosed db (Traced db) = Traced-IsClosed db in
      let s : db.Store = st.handler.store in
      c.transitive s _ _ _ e (c.transitive s _ _ _ (c.at_set s p.task _ _) (c.at_set s _ _ _))

  -- A rollback after a commit.
  undo_to_point-commit :
      (now : ℕ) (st1 : Stage lib db) (b : RollbackBuffer) (point last : Point)
      (o : Option OriginalKvs) (kvs : OriginalKvs)
      → o ≡ some kvs
      → st1.rollback_buffer ≡ buffer_block lib db point o b
      → 2 ≤ b.size
      → point_beq point last ≡ false
      → StartsAt last b.points
      → undo_to_point lib db now st1 last ≡ (
        record (undone_stage lib db now st1 last
            (record { point = point; original_kvs = kvs } ∷ [])) {
              rollback_buffer = pushed_down b;
            },
        ok tt,
      )
  unfolding undo_to_point
  undo_to_point-commit now st1 b point last o kvs e q h d s =
      let added : st1.rollback_buffer ≡ add_block b point kvs =
        q ∙ ap (λ x. buffer_block lib db point x b) e in
      ap (undo_blocks lib db now st1 last)
        (ap (λ x. points_since x last) added ∙ points_since-add_block b point last kvs h d s)
      ∙ ap
          (trim lib db
            (undone_stage lib db now st1 last (record { point = point; original_kvs = kvs } ∷ [])))
          (ap (λ x. rollback_to_point x last) added
            ∙ rollback_to_point-add_block b point last kvs h d s)

  -- What a rollback leaves of a block.
  abbrev pub IsUndone : Stage lib db → ℕ → Bytes → Outcome lib db → Type 0
  IsUndone st read_ts key o =
      (o.result ≡ ok tt)
      × (o.stage.last_processed ≡ st.last_processed)
      × (o.stage.rollback_buffer ≡ pushed_down st.rollback_buffer)
      × (db.get o.stage.handler.store read_ts key ≡ value_at db st.handler.store key)

  IsUndone-commit_block :
      (now : ℕ) (clock : Clock) (fs : List (ProcessTransaction db)) (st : Stage lib db)
      (point : Point) (p : Progress lib.Cache) (read_ts : ℕ) (key : Bytes)
      → Traced db st.handler.store (begin_indexing_task st.handler.previous_timestamp true) p.task
      → point_beq point st.last_processed ≡ false
      → StartsAt st.last_processed st.rollback_buffer.points
      → 2 ≤ st.rollback_buffer.size
      → IsDataKey key
      → db.newest st.handler.store ≤ read_time st.handler.previous_timestamp
      → db.newest st.handler.store ≤ commit_time now st
      → commit_time now st
        ≤ commit_time clock.undo (commit_block lib db now st true point (ok p)).stage
      → commit_time clock.undo (commit_block lib db now st true point (ok p)).stage ≤ read_ts
      → IsUndone st read_ts key (
          execute lib db clock fs
            (commit_block lib db now st true point (ok p)).stage
            true
            (roll_back st.last_processed))
  unfolding execute finalize apply_indexing_task begin_indexing_task
  IsUndone-commit_block now clock fs st point p read_ts key tr d s room dk nr nc c1 c2 =
      let s0 : db.Store = st.handler.store in
      let (ops, e) = Traced-finish_block st point _ p tr in
      let task : IndexingTask = (finish_block lib db st point p).task in
      let (kvs, r) = run_ops_from_begin-IsRecorded db s0 st.handler.previous_timestamp ops task e in
      let st1 : Stage lib db = (commit_block lib db now st true point (ok p)).stage in
      let block : PointWithOriginalKvs = record { point = point; original_kvs = kvs } in
      let h : History db s0 (block ∷ []) st1.handler.store =
        commit start now st.handler.previous_timestamp task kvs point point st.max_rollbacks none r
          (rw (run_ops-read_ts db s0 ops _ task e) nr) nc in
      let u =
        undo_to_point-commit clock.undo st1 st.rollback_buffer point st.last_processed
          task.original_kvs kvs r.originals refl room d s in
      rw u (
        refl,
        refl,
        refl,
        get-undo_batch db s0 st1.handler.store (block ∷ []) (commit_time clock.undo st1) read_ts key
            h dk (rw (db.newest-write s0 (commit_time now st) _ nc) c1) c2,
      )

  -- The stage on a new block, while it keeps originals.
  abbrev pub after_block :
      Clock
      → List (ProcessTransaction db)
      → Stage lib db
      → Point
      → Bytes
      → BlockTxs
      → Point
      → Outcome lib db
  after_block clock fs st point prev txs tip =
      execute lib db clock fs st true (roll_forward point prev txs tip)

  after_block-accept :
      (clock : Clock) (fs : List (ProcessTransaction db)) (st : Stage lib db) (point : Point)
      (prev : Bytes) (txs : BlockTxs) (tip : Point)
      → st.processed_mempool ≡ false
      → after_block clock fs st point prev txs tip
        ≡ accept_block lib db clock.commit fs st true point prev txs tip
  unfolding execute execute_roll_forward
  after_block-accept clock fs st point prev txs tip m =
      ap
        (λ b.
          after_undo lib db true
            (if b then undo_to_point lib db clock.undo st st.last_processed else (st, ok tt))
            (λ st'. accept_block lib db clock.commit fs st' true point prev txs tip))
        m

  -- No mempool blocks are processed, the buffer begins with the last point, and the stage has not read or
  -- written ahead of the clock.
  pub record IsReady (now : ℕ) (st : Stage lib db) : Type 0 where
    pub no_mempool : st.processed_mempool ≡ false
    pub on_tip : StartsAt st.last_processed st.rollback_buffer.points
    pub room : 2 ≤ st.rollback_buffer.size
    pub reads_newest : db.newest st.handler.store ≤ read_time st.handler.previous_timestamp
    pub writes_newest : db.newest st.handler.store ≤ commit_time now st

  higher : (p q : Point) → p.height ≡ q.height + 1 → point_beq p q ≡ false
  higher p q e = ground (arith, point_beq_iff p q)

  -- Let a stage keep originals, with no mempool blocks processed, the last point first in its rollback
  -- buffer, and indexers that only set, delete and merge. If it takes a new block, and the clock does
  -- not go back, a rollback to the point before succeeds: it restores the last point, the value of every
  -- data key at the rollback's timestamp and later, and the rollback buffer, but for a last point that a
  -- full buffer gave up for the block.
  pub execute-roll_back :
      (clock later : Clock) (fs : List (ProcessTransaction db)) (st : Stage lib db) (point : Point)
      (prev : Bytes) (txs : BlockTxs) (tip : Point) (read_ts : ℕ) (key : Bytes)
      → All (WritesOnly db) fs
      → IsReady clock.commit st
      → IsDataKey key
      → (after_block clock fs st point prev txs tip).stage.last_processed ≢ st.last_processed
      → commit_time clock.commit st
        ≤ commit_time later.undo (after_block clock fs st point prev txs tip).stage
      → commit_time later.undo (after_block clock fs st point prev txs tip).stage ≤ read_ts
      → IsUndone st read_ts key (
          execute lib db later fs
            (after_block clock fs st point prev txs tip).stage
            (after_block clock fs st point prev txs tip).mutable
            (roll_back st.last_processed))
  execute-roll_back clock later fs st point prev txs tip read_ts key ws ready dk taken c1 c2 =
      elim (execute-roll_forward lib db clock fs st true point prev txs tip) [
        | inl e ↦ absurd (taken e)
        | inr (e, r, h, b) ↦ elim (accept_block-cases clock.commit fs st point prev txs tip ws) [
          | inl (p, tr, q) ↦
              subst
                (λ o.
                  commit_time clock.commit st ≤ commit_time later.undo o.stage
                  → commit_time later.undo o.stage ≤ read_ts
                  → IsUndone st read_ts key
                      (execute lib db later fs o.stage o.mutable (roll_back st.last_processed)))
                (sym (accepted ∙ q))
                (IsUndone-commit_block clock.commit later fs st point p read_ts key tr
                  (higher point st.last_processed h) ready.on_tip ready.room dk ready.reads_newest
                  ready.writes_newest)
                c1 c2
          | inr q ↦ absurd (taken (ap (λ o. o.stage.last_processed) accepted ∙ q))
        ]
      ]
    where
      accepted :
          after_block clock fs st point prev txs tip
          ≡ accept_block lib db clock.commit fs st true point prev txs tip
      accepted = after_block-accept clock fs st point prev txs tip ready.no_mempool

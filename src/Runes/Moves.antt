-- ===== src/Runes/Moves.antt =====
-- src/sync/stages/index/indexers/custom/runes/indexer.rs: `process_tx`, from the runes that a transaction
-- spends to those that its outputs keep.
use maestro_symphony.Prelude.{
  ℕ, ◌^◌, ◌≡◌, ◌≤◌, ◌<◌, sym, ap, subst, ◌∙◌, arith, List, length, All, some, false, inl, inr, ltb,
  Result-cases, ok, ok-injective, bind-ok, ◌+◌,
}
use maestro_symphony.Core.{TransactionWithId}
use maestro_symphony.Store.{Db, IndexingTask}
use maestro_symphony.Worker.Cache.{CacheLib}
use maestro_symphony.Worker.Context.{IndexingContext}
use maestro_symphony.Runes.Tables.{RuneId}
use maestro_symphony.Runes.Allocate.{rune_id_eq, Balances}
use maestro_symphony.Runes.Ordinals.{OrdinalsLib, Artifact, mint_of}
use maestro_symphony.Runes.Inputs.{unallocated}
use maestro_symphony.Runes.Outputs.{assign_rest, keep_outputs, Received}
use maestro_symphony.Runes.Index.{
  RunesIndexerConfig, apply_artifact, index_outputs, input_activity, log_outputs, index_runes,
}
use maestro_symphony.Runes.Conservation.{sum_of}
use maestro_symphony.Runes.Held.{FitsRune}
use maestro_symphony.Runes.Transfers.{spent_of, unallocated-eq-spent}
use maestro_symphony.Runes.Kept.{kept_from, IsFresh, kept_from-keep_outputs}
use maestro_symphony.Runes.Created.{FitsId}
use maestro_symphony.Runes.Accounts.{Accounts, allocated-IsAllocation}

module _ (lib : OrdinalsLib) (config : RunesIndexerConfig) (db : Db) (s : db.Store) where
  -- What the outputs keep is what they were allocated.
  index_outputs-keeps :
      (tx : TransactionWithId) (allocated : List Balances) (st st' : IndexingTask × IndexingContext)
      → index_outputs lib config db s tx allocated st ≡ ok st'
      → (r : (IndexingTask × IndexingContext) × List Received) × (keep_outputs db s tx.tx_id
            st.1.point.height 0 tx.tx.output allocated st
          ≡ ok r)
        × (r.0.1 ≡ st'.1)
  unfolding index_outputs
  index_outputs-keeps tx allocated (task, ctx) st' e =
      elim (Result-cases (input_activity lib config db s tx.tx ctx)) [
        | inr (x, q) ↦ absurd (cc (rw q at e))
        | inl (sent, q) ↦
            elim (Result-cases
              (keep_outputs db s tx.tx_id ctx.point.height 0 tx.tx.output allocated (task, ctx))) [
                | inr (x, w) ↦ absurd (cc (rw (q, w) at e))
                | inl (r, w) ↦
                    elim (Result-cases (log_outputs lib config db s tx.tx_id sent r.1 r.0.0)) [
                      | inr (x, v) ↦ absurd (cc (rw (q, w, v) at e))
                      | inl (t, v) ↦ (r, w, ap (λ x. x.1) (ok-injective (rw (q, w, v) at e)))
                    ]
              ]
      ]

-- Let no runes be attached to the outputs of a transaction, from the start height on, the runes that it
-- spends be fewer than 2 ^ 64 - 2, and their ids, the height and the id of its mint be of their types.
-- Where its indexing succeeds, what the entries of its outputs hold of each rune, those of OP_RETURNs
-- included, is exactly what the outputs that it spends held of it, with what its runestone mints and
-- the premine of what it etches, modulo 2 ^ 128, if there is an output to take what the edicts leave
-- (the pointer's, or else the first that is no OP_RETURN). With none it is no more than that, and
-- under a cenotaph it is nothing.
pub index_runes-Accounts :
    (cache_lib : CacheLib) (lib : OrdinalsLib) (config : RunesIndexerConfig) (db : Db)
    (s : db.Store) (task spent_task task' : IndexingTask) (tx : TransactionWithId) (k : ℕ)
    (ctx ctx' : IndexingContext) (m : Balances) (i : RuneId)
    → config.start_height ≤ ctx.point.height
    → ctx.point.height < 2 ^ 64
    → ((a : Artifact) (id : RuneId) → lib.decipher tx.tx ≡ some a → mint_of a ≡ some id → FitsId id)
    → IsFresh cache_lib db s tx.tx_id 0 ctx
    → unallocated db s task tx.tx ctx ≡ ok (spent_task, m)
    → All FitsRune m
    → length m + 2 < 2 ^ 64
    → index_runes lib config db s task tx k ctx ≡ ok (task', ctx')
    → Accounts lib config db s tx k ctx spent_task
        (lib.decipher tx.tx)
        i
        (spent_of i ctx tx.tx.input)
        (kept_from cache_lib db s tx.tx_id i ctx' 0 tx.tx.output)
unfolding index_runes
index_runes-Accounts cache_lib lib config db s task spent_task task' tx k ctx ctx' m i late
      height_fits fits_mint fresh u f l e =
    let (d, sums) = unallocated-eq-spent db s task spent_task tx.tx ctx m u in
    let started : ltb ctx.point.height config.start_height ≡ false = ground (arith, late) in
    let (res, q, e1) =
      bind-ok (apply_artifact lib config db s tx k ctx (lib.decipher tx.tx) (spent_task, m)) _
        (task', ctx') (rw (started, u) at e) in
    let (allocated, w, e2) =
      bind-ok (assign_rest tx.tx.output (lib.decipher tx.tx) res.1) _ (task', ctx') e1 in
    let made =
      allocated-IsAllocation lib config db s tx k ctx spent_task (lib.decipher tx.tx)
        (λ j. spent_of j ctx tx.tx.input) m res allocated
        (record { distinct = d; fits = f; sums = sums; few = l; height_fits = height_fits })
        fits_mint q w in
    let (r, g, same) =
      index_outputs-keeps lib config db s tx allocated (res.0, ctx) (task', ctx') e2 in
    let kept : kept_from cache_lib db s tx.tx_id i ctx' 0 tx.tx.output ≡ sum_of i allocated =
      ap (λ c. kept_from cache_lib db s tx.tx_id i c 0 tx.tx.output) (sym same)
      ∙ kept_from-keep_outputs cache_lib db s tx.tx_id ctx.point.height made.all i 0 tx.tx.output
          allocated (res.0, ctx) r made.one_each made.are_held made.few fresh g in
    subst
      (Accounts lib config db s tx k ctx spent_task (lib.decipher tx.tx) i
        (spent_of i ctx tx.tx.input))
      (sym kept) (made.accounts i)

-- ===== src/Runes/OutputWrites.antt =====
-- src/sync/stages/index/indexers/custom/runes/indexer.rs: the writes of the runes indexer for the
-- outputs of a transaction and its log, and those of the whole transaction.
use maestro_symphony.Prelude.{
  ℕ, suc, ◌+◌, ◌^◌, refl, List, [], ◌∷◌, ◌++◌, Option, none, some, Bytes, ltb, eqb, ok, ◌>>=◌,
}
use maestro_symphony.Core.{panic, TxOut, TransactionWithId}
use maestro_symphony.Store.{Db, IndexingTask, set}
use maestro_symphony.Worker.Context.{IndexingContext}
use maestro_symphony.Worker.Traces.{WritesOnly, Traced, Traced-IsClosed}
use maestro_symphony.Worker.Writes.{
  Writes, Writes-ok, Writes-err, Writes-bind, Writes-read, Writes-if, Writes-set,
}
use maestro_symphony.Runes.Tables.{RuneBalanceChange, rune_activity_by_tx_kv}
use maestro_symphony.Runes.Allocate.{Balances}
use maestro_symphony.Runes.Ordinals.{OrdinalsLib, Artifact, mint_of}
use maestro_symphony.Runes.Etch.{etched, checked_u32}
use maestro_symphony.Runes.Inputs.{unallocated}
use maestro_symphony.Runes.Outputs.{assign_rest, keep_output, keep_outputs, Received, received_at}
use maestro_symphony.Runes.Activity.{
  Activities, AddressRuneKey, RuneActivity, log_change, log_received, log_activity,
  log_rune_balance_changes, received_change, sent_change, collect_received,
}
use maestro_symphony.Runes.Index.{
  RunesIndexerConfig, mint_to, create_etched, allocate_artifact, apply_artifact, input_activity,
  log_outputs, index_outputs, index_runes,
}
use maestro_symphony.Runes.Writes.{Writes-take_inputs, Writes-mint_to, Writes-create_etched}

module _ (db : Db) (s : db.Store) where
  Writes-log_change :
      (tx_hash : Bytes) (change : RuneBalanceChange) (st : IndexingTask × ℕ)
      → Writes db s (λ x. x.0) st.0 (log_change db s tx_hash change st)
  Writes-log_change tx_hash change (task, seq) =
      Writes-if db s (λ x. x.0) task (ltb (seq + 1) (2 ^ 16)) _ _
        (Writes-set db s (λ x. x.0) rune_activity_by_tx_kv task
          (record { tx_hash = tx_hash; seq = seq }) change
          (
            set db s rune_activity_by_tx_kv task (record { tx_hash = tx_hash; seq = seq }) change,
            seq + 1,
          )
          refl)
        (Writes-err db s (λ x. x.0) task (panic "seq overflow"))

  Writes-log_received :
      (tx_hash : Bytes) (key : AddressRuneKey) (received : List (ℕ × ℕ)) (st : IndexingTask × ℕ)
      → Writes db s (λ x. x.0) st.0 (log_received db s tx_hash key received st)
  unfolding log_received
  Writes-log_received tx_hash key [] st = Writes-ok db s (λ x. x.0) st
  Writes-log_received tx_hash key ((vout, amount) ∷ received) st =
      Writes-bind db s (λ x. x.0) (λ x. x.0) st.0 _ (log_received db s tx_hash key received)
        (Writes-if db s (λ x. x.0) st.0 (eqb amount 0) (ok st) _ (Writes-ok db s (λ x. x.0) st)
          (Writes-log_change tx_hash (received_change db s tx_hash key vout amount) st))
        (Writes-log_received tx_hash key received)

  Writes-log_activity :
      (tx_hash : Bytes) (key : AddressRuneKey) (activity : RuneActivity) (st : IndexingTask × ℕ)
      → Writes db s (λ x. x.0) st.0 (log_activity db s tx_hash key activity st)
  Writes-log_activity tx_hash key activity st =
      Writes-bind db s (λ x. x.0) (λ x. x.0) st.0 _
        (log_received db s tx_hash key activity.received)
        (Writes-if db s (λ x. x.0) st.0 (ltb 0 activity.sent) _ (ok st)
          (Writes-log_change tx_hash (sent_change db s tx_hash key activity.sent) st)
          (Writes-ok db s (λ x. x.0) st))
        (Writes-log_received tx_hash key activity.received)

  Writes-log_rune_balance_changes :
      (tx_hash : Bytes) (m : Activities) (st : IndexingTask × ℕ)
      → Writes db s (λ x. x.0) st.0 (log_rune_balance_changes db s tx_hash m st)
  unfolding log_rune_balance_changes
  Writes-log_rune_balance_changes tx_hash [] st = Writes-ok db s (λ x. x.0) st
  Writes-log_rune_balance_changes tx_hash ((key, activity) ∷ m) st =
      Writes-bind db s (λ x. x.0) (λ x. x.0) st.0 (log_activity db s tx_hash key activity st) _
        (Writes-log_activity tx_hash key activity st) (Writes-log_rune_balance_changes tx_hash m)

  Traced-keep_output :
      (tx_id : Bytes) (height i : ℕ) (o : TxOut) (m : Balances)
      (st : IndexingTask × IndexingContext)
      → Traced db s st.0 (keep_output db s tx_id height i o m st).0
  unfolding set
  Traced-keep_output tx_id height i o [] st = (Traced-IsClosed db).reflexive s st.0
  Traced-keep_output tx_id height i o (h ∷ held) (task, ctx) =
      (Traced-IsClosed db).at_set s task _ _

  Writes-keep_outputs :
      (tx_id : Bytes) (height i : ℕ) (os : List TxOut) (ms : List Balances)
      (st : IndexingTask × IndexingContext)
      → Writes db s (λ x. x.0.0) st.0 (keep_outputs db s tx_id height i os ms st)
  unfolding keep_outputs
  Writes-keep_outputs tx_id height i [] ms st = Writes-ok db s (λ x. x.0.0) (st, [])
  Writes-keep_outputs tx_id height i (o ∷ os) [] st = Writes-ok db s (λ x. x.0.0) (st, [])
  Writes-keep_outputs tx_id height i (o ∷ os) (m ∷ ms) st =
      Writes-read db s (λ x. x.0.0) st.0 (checked_u32 "output index u32 overflow" i) _
        λ n.
          kept n (keep_output db s tx_id height n o m st) (Traced-keep_output tx_id height n o m st)
            (Writes-keep_outputs tx_id height (suc i) os ms
              (keep_output db s tx_id height n o m st))
    where
      kept :
          (n : ℕ) (st' : IndexingTask × IndexingContext)
          → Traced db s st.0 st'.0
          → Writes db s (λ x. x.0.0) st'.0 (keep_outputs db s tx_id height (suc i) os ms st')
          → Writes db s
              (λ (x : (IndexingTask × IndexingContext) × List Received). x.0.0)
              st.0
              (do
                (st'', received) ← keep_outputs db s tx_id height (suc i) os ms st'
                ok (st'', received_at o n m ++ received))
      kept n st' h rest b e = (Traced-IsClosed db).transitive s _ _ _ h (
          Writes-bind db s (λ x. x.0.0) (λ x. x.0.0) st'.0
            (keep_outputs db s tx_id height (suc i) os ms st') _ rest
            (λ r. Writes-ok db s (λ x. x.0.0) (r.0, received_at o n m ++ r.1)) b e)

  module _ (lib : OrdinalsLib) (config : RunesIndexerConfig) where
    Writes-apply_artifact :
        (tx : TransactionWithId) (i : ℕ) (ctx : IndexingContext) (a : Option Artifact)
        (st : IndexingTask × Balances)
        → Writes db s (λ x. x.0) st.0 (apply_artifact lib config db s tx i ctx a st)
    unfolding apply_artifact
    Writes-apply_artifact tx i ctx none (task, m) = Writes-ok db s (λ x. x.0) (task, _)
    Writes-apply_artifact tx i ctx (some a) st =
        Writes-bind db s (λ x. x.0) (λ x. x.0) st.0
          (mint_to lib config db s ctx.point.height (mint_of a) st) _
          (Writes-mint_to db s lib config ctx.point.height (mint_of a) st)
          λ r.
            Writes-read db s (λ x. x.0) r.0
              (etched lib db s r.0 i tx.tx a ctx config.commitment_confirmations) _
              λ e.
                Writes-read db s (λ x. x.0) r.0
                  (allocate_artifact lib config db s tx.tx.output a e r.1) _
                  λ al.
                    Writes-bind db s (λ x. x) (λ x. x.0) r.0
                      (create_etched lib config db s a tx.tx_id ctx.point.height e r.0) _
                      (Writes-create_etched db s lib config a tx.tx_id ctx.point.height e r.0)
                      (λ t. Writes-ok db s (λ x. x.0) (t, al))

    Writes-log_outputs :
        (tx_id : Bytes) (sent : Activities) (received : List Received) (task : IndexingTask)
        → Writes db s (λ x. x) task (log_outputs lib config db s tx_id sent received task)
    Writes-log_outputs tx_id sent received task =
        Writes-if db s (λ x. x) task config.index_activity _ (ok task)
          (Writes-bind db s (λ x. x.0) (λ x. x) task
            (log_rune_balance_changes db s tx_id (collect_received received sent) (task, 0)) _
            (Writes-log_rune_balance_changes tx_id (collect_received received sent) (task, 0))
            (λ r. Writes-ok db s (λ x. x) r.0))
          (Writes-ok db s (λ x. x) task)

    Writes-index_outputs :
        (tx : TransactionWithId) (allocated : List Balances) (st : IndexingTask × IndexingContext)
        → Writes db s (λ x. x.0) st.0 (index_outputs lib config db s tx allocated st)
    unfolding index_outputs
    Writes-index_outputs tx allocated (task, ctx) =
        Writes-read db s (λ x. x.0) task (input_activity lib config db s tx.tx ctx) _
          λ sent.
            Writes-bind db s (λ x. x.0.0) (λ x. x.0) task
              (keep_outputs db s tx.tx_id ctx.point.height 0 tx.tx.output allocated (task, ctx)) _
              (Writes-keep_outputs tx.tx_id ctx.point.height 0 tx.tx.output allocated (task, ctx))
              λ r.
                Writes-bind db s (λ x. x) (λ x. x.0) r.0.0
                  (log_outputs lib config db s tx.tx_id sent r.1 r.0.0) _
                  (Writes-log_outputs tx.tx_id sent r.1 r.0.0)
                  (λ t. Writes-ok db s (λ x. x.0) (t, r.0.1))

    Writes-index_runes :
        (task : IndexingTask) (tx : TransactionWithId) (i : ℕ) (ctx : IndexingContext)
        → Writes db s (λ x. x.0) task (index_runes lib config db s task tx i ctx)
    unfolding index_runes unallocated
    Writes-index_runes task tx i ctx =
        Writes-if db s (λ x. x.0) task (ltb ctx.point.height config.start_height) (ok (task, ctx)) _
          (Writes-ok db s (λ x. x.0) (task, ctx))
          (Writes-bind db s (λ x. x.0) (λ x. x.0) task (unallocated db s task tx.tx ctx) _
            (Writes-take_inputs db s ctx tx.tx.input (task, []))
            λ st.
              Writes-bind db s (λ x. x.0) (λ x. x.0) st.0
                (apply_artifact lib config db s tx i ctx (lib.decipher tx.tx) st) _
                (Writes-apply_artifact tx i ctx (lib.decipher tx.tx) st)
                λ r.
                  Writes-read db s (λ x. x.0) r.0
                    (assign_rest tx.tx.output (lib.decipher tx.tx) r.1) _
                    λ allocated. Writes-index_outputs tx allocated (r.0, ctx))

pub index_runes-WritesOnly :
    (lib : OrdinalsLib) (config : RunesIndexerConfig) (db : Db)
    → WritesOnly db (index_runes lib config db)
index_runes-WritesOnly lib config db s task tx i ctx task' ctx' e =
    Writes-index_runes db s lib config task tx i ctx (task', ctx') e

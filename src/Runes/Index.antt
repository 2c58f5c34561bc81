-- ===== src/Runes/Index.antt =====
-- src/sync/stages/index/indexers/custom/runes/indexer.rs: `process_tx` of the runes indexer.
use maestro_symphony.Prelude.{
  ℕ, List, [], Option, none, some, Bool, ltb, Bytes, replicate, length, if◌then◌else◌, Result, ok,
  err, ◌>>=◌,
}
use maestro_symphony.Core.{Error, panic, Transaction, TransactionWithId, TxOut}
use maestro_symphony.Store.{Db, IndexingTask}
use maestro_symphony.Worker.Context.{IndexingContext}
use maestro_symphony.Worker.Index.{ProcessTransaction}
use maestro_symphony.Runes.Tables.{RuneId}
use maestro_symphony.Runes.Mint.{mint, unwrap_or_default}
use maestro_symphony.Runes.Allocate.{Balances, apply_edicts}
use maestro_symphony.Runes.Ordinals.{
  Etching, Runestone, Artifact, runestone, cenotaph, mint_of, OrdinalsLib,
}
use maestro_symphony.Runes.Etch.{etched, create_rune_entry}
use maestro_symphony.Runes.Inputs.{add_balance, unallocated}
use maestro_symphony.Runes.Outputs.{assign_rest, keep_outputs, Received}
use maestro_symphony.Runes.Activity.{
  Activities, collect_input_totals, collect_received, log_rune_balance_changes,
}

-- `RunesIndexerConfig`, whose fields `RunesIndexer::new` takes over.
pub record RunesIndexerConfig : Type 0 where
  pub start_height : ℕ
  pub index_activity : Bool
  pub commitment_confirmations : Option ℕ

abbrev pub add_minted : RuneId → Balances → IndexingTask × Option ℕ → IndexingTask × Balances
add_minted id m (task, none) = (task, m)
add_minted id m (task, some amount) = (task, add_balance id amount m)

abbrev pub premine_of : Option Etching → Result Error ℕ
premine_of none = err (panic "called `Option::unwrap()` on a `None` value")
premine_of (some etching) = ok (unwrap_or_default etching.premine)

abbrev pub add_premine : Runestone → Option (RuneId × ℕ) → Balances → Result Error Balances
add_premine r none m = ok m
add_premine r (some (id, rune)) m = do premine ← premine_of r.etching; ok (add_balance id premine m)

abbrev pub id_of : Option (RuneId × ℕ) → Option RuneId
id_of none = none
id_of (some (id, rune)) = some id

module _ (lib : OrdinalsLib) (config : RunesIndexerConfig) (db : Db) (s : db.Store) where
  abbrev pub mint_to :
      ℕ → Option RuneId → IndexingTask × Balances → Result Error (IndexingTask × Balances)
  mint_to height none st = ok st
  mint_to height (some id) (task, m) = do
    minted ← mint db s task id height
    ok (add_minted id m minted)

  -- Only a runestone has a premine and edicts.
  abbrev pub allocate_artifact :
      List TxOut
      → Artifact
      → Option (RuneId × ℕ)
      → Balances
      → Result Error (Balances × List Balances)
  allocate_artifact outputs (runestone r) e m = do
    m' ← add_premine r e m
    apply_edicts outputs (id_of e) r.edicts (m', replicate (length outputs) [])
  allocate_artifact outputs (cenotaph c) e m = ok (m, replicate (length outputs) [])

  abbrev pub create_etched :
      Artifact → Bytes → ℕ → Option (RuneId × ℕ) → IndexingTask → Result Error IndexingTask
  create_etched artifact tx_id height none task = ok task
  create_etched artifact tx_id height (some (id, rune)) task =
      create_rune_entry db s task artifact tx_id id rune height

  -- What the artifact does, if there is one: a mint, an etching, its premine and the edicts.
  unfoldable pub apply_artifact :
      TransactionWithId
      → ℕ
      → IndexingContext
      → Option Artifact
      → IndexingTask × Balances
      → Result Error (IndexingTask × (Balances × List Balances))
  apply_artifact tx tx_block_index ctx none (task, m) =
      ok (task, (m, replicate (length tx.tx.output) []))
  apply_artifact tx tx_block_index ctx (some artifact) st = do
    (task, m) ← mint_to ctx.point.height (mint_of artifact) st
    e ← etched lib db s task tx_block_index tx.tx artifact ctx config.commitment_confirmations
    allocation ← allocate_artifact tx.tx.output artifact e m
    task' ← create_etched artifact tx.tx_id ctx.point.height e task
    ok (task', allocation)

  abbrev pub input_activity : Transaction → IndexingContext → Result Error Activities
  input_activity tx ctx = if config.index_activity then collect_input_totals tx ctx [] else ok []

  abbrev pub log_outputs :
      Bytes → Activities → List Received → IndexingTask → Result Error IndexingTask
  log_outputs tx_id sent received task =
      if config.index_activity
      then (do
        (task', seq) ←
            log_rune_balance_changes db s tx_id (collect_received received sent) (task, 0)
        ok task')
      else ok task

  unfoldable pub index_outputs :
      TransactionWithId
      → List Balances
      → IndexingTask × IndexingContext
      → Result Error (IndexingTask × IndexingContext)
  index_outputs tx allocated (task, ctx) = do
    sent ← input_activity tx.tx ctx
    ((task', ctx'), received) ←
        keep_outputs db s tx.tx_id ctx.point.height 0 tx.tx.output allocated (task, ctx)
    task'' ← log_outputs tx.tx_id sent received task'
    ok (task'', ctx')

-- `RunesIndexer::process_tx`
unfoldable pub index_runes : OrdinalsLib → RunesIndexerConfig → (db : Db) → ProcessTransaction db
index_runes lib config db s task tx tx_block_index ctx =
    if ltb ctx.point.height config.start_height then ok (task, ctx) else do
      let artifact = lib.decipher tx.tx
      st ← unallocated db s task tx.tx ctx
      (task', allocation) ← apply_artifact lib config db s tx tx_block_index ctx artifact st
      allocated ← assign_rest tx.tx.output artifact allocation
      index_outputs lib config db s tx allocated (task', ctx)

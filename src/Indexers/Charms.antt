-- ===== src/Indexers/Charms.antt =====
-- src/sync/stages/index/indexers/custom/charms: the outputs that hold charms, by script and by app.
-- `charms_lib` is third-party: the verified spell of a transaction is a parameter.
use maestro_symphony.Prelude.{
  ℕ, suc, ◌%◌, ◌^◌, List, [], ◌∷◌, map, Bool, true, false, ◌++◌, Bytes, Option, none, some, Map,
  lookup, get_elem?, ltb, ◌==◌, if◌then◌else◌, Result, ok, ◌>>=◌, nat_eq,
}
use maestro_symphony.Codec.{Codec, decode_all}
use maestro_symphony.Encdec.Instances.{bytes_codec, u64, unit, vec, pair}
use maestro_symphony.Table.{Table, indexer_table}
use maestro_symphony.Core.{
  Error, lift_decoding, charms, unique_id, indexer_eq, ExtendedUtxoData, TxIn, TxOut, Transaction,
  TransactionWithId, TxoRef, Utxo, txo_ref,
}
use maestro_symphony.Store.{Db, IndexingTask, set, delete}
use maestro_symphony.Worker.Context.{IndexingContext, resolve_input, attach_utxo_metadata}
use maestro_symphony.Worker.Index.{ProcessTransaction}
use maestro_symphony.Indexers.Marks.{Mark}
pub mod Laws
pub mod Reads

pub record CharmsUtxosByScriptKey : Type 0 where
  pub script : Bytes
  pub produced_height : ℕ
  pub txo_ref : TxoRef

abbrev pub charms_utxos_by_script_key : Codec CharmsUtxosByScriptKey
charms_utxos_by_script_key = record {
  encode = λ k.
      bytes_codec.encode k.script ++ (u64.encode k.produced_height ++ txo_ref.encode k.txo_ref);
  decode = λ bytes. (do
    (script, rest) ← bytes_codec.decode bytes
    (produced_height, rest') ← u64.decode rest
    (r, rest'') ← txo_ref.decode rest'
    ok (record { script = script; produced_height = produced_height; txo_ref = r }, rest''));
}

-- An app stands by the bytes of its canonical string.
pub record CharmsUtxosByAppKey : Type 0 where
  pub app : Bytes
  pub produced_height : ℕ
  pub txo_ref : TxoRef

abbrev pub charms_utxos_by_app_key : Codec CharmsUtxosByAppKey
charms_utxos_by_app_key = record {
  encode =
      λ k. bytes_codec.encode k.app ++ (u64.encode k.produced_height ++ txo_ref.encode k.txo_ref);
  decode = λ bytes. (do
    (app, rest) ← bytes_codec.decode bytes
    (produced_height, rest') ← u64.decode rest
    (r, rest'') ← txo_ref.decode rest'
    ok (record { app = app; produced_height = produced_height; txo_ref = r }, rest''));
}

-- `CharmsTables` numbers the tables.
abbrev pub charms_utxos_by_script_kv : Table CharmsUtxosByScriptKey Mark
charms_utxos_by_script_kv = indexer_table (unique_id charms) 0 charms_utxos_by_script_key unit

abbrev pub charms_utxos_by_app_kv : Table CharmsUtxosByAppKey Mark
charms_utxos_by_app_kv = indexer_table (unique_id charms) 1 charms_utxos_by_app_key unit

-- Pairs of an app's string and the data of its charm.
abbrev pub UtxoCharms : Type 0
UtxoCharms = List (Bytes × Bytes)

abbrev pub utxo_charms : Codec UtxoCharms
utxo_charms = vec (pair bytes_codec bytes_codec)

-- What the indexer reads of a spell: the strings of the apps in the order of their indices, the
-- charms of each output by the app's index, and the indices of the beamed outputs.
pub record Spell : Type 0 where
  pub app_public_inputs : List Bytes
  pub outs : List (Map ℕ Bytes)
  pub beamed_outs : Option (List ℕ)

-- `extract_and_verify_spell(&tx, false)`, whose errors are all ignored.
abbrev pub ExtractSpell : Type 0
ExtractSpell = Transaction → Option Spell

abbrev pub has : ℕ → List ℕ → Bool
has n [] = false
has n (x ∷ xs) = if n == x then true else has n xs

abbrev pub is_beamed : Option (List ℕ) → ℕ → Bool
is_beamed none output_index = false
is_beamed (some beamed) output_index = has output_index beamed

abbrev pub is_empty : {A : Type 0} → List A → Bool
is_empty [] = true
is_empty (x ∷ xs) = false

-- The `filter_map` over the charms of an output.
abbrev pub known_app : Option Bytes → Bytes → UtxoCharms → UtxoCharms
known_app none bytes rest = rest
known_app (some app) bytes rest = (app, bytes) ∷ rest

unfoldable pub convert_charms : List Bytes → Map ℕ Bytes → UtxoCharms
convert_charms apps [] = []
convert_charms apps ((app_idx, bytes) ∷ n_charms) =
    known_app (get_elem? apps app_idx) bytes (convert_charms apps n_charms)

abbrev pub script_key : Bytes → ℕ → TxoRef → CharmsUtxosByScriptKey
script_key script height r = record { script = script; produced_height = height; txo_ref = r }

abbrev pub app_key : ℕ → TxoRef → Bytes → CharmsUtxosByAppKey
app_key height r app = record { app = app; produced_height = height; txo_ref = r }

abbrev pub out_ref : Bytes → ℕ → TxoRef
out_ref tx_id output_index = record { tx_hash = tx_id; txo_index = output_index % (2 ^ 32) }

module _ (db : Db) (s : db.Store) where
  unfoldable pub delete_apps : ℕ → TxoRef → UtxoCharms → IndexingTask → IndexingTask
  delete_apps height r [] task = task
  delete_apps height r ((app, _) ∷ cs) task =
      delete_apps height r cs (delete db s charms_utxos_by_app_kv task (app_key height r app))

  unfoldable pub set_apps : ℕ → TxoRef → UtxoCharms → IndexingTask → IndexingTask
  set_apps height r [] task = task
  set_apps height r ((app, _) ∷ cs) task =
      set_apps height r cs (set db s charms_utxos_by_app_kv task (app_key height r app) tt)

  abbrev pub delete_charms : TxoRef → Utxo → UtxoCharms → IndexingTask → IndexingTask
  delete_charms r utxo [] task = task
  delete_charms r utxo (c ∷ cs) task =
      delete_apps utxo.height r (c ∷ cs)
        (delete db s charms_utxos_by_script_kv task (script_key utxo.script utxo.height r))

  abbrev pub clean_raw : TxoRef → Utxo → Option Bytes → IndexingTask → Result Error IndexingTask
  clean_raw r utxo none task = ok task
  clean_raw r utxo (some raw) task = do
    cs ← lift_decoding (decode_all utxo_charms raw)
    ok (delete_charms r utxo cs task)

  abbrev pub clean_utxo : TxoRef → Option Utxo → IndexingTask → Result Error IndexingTask
  clean_utxo r none task = ok task
  clean_utxo r (some utxo) task = clean_raw r utxo (lookup charms utxo.extended) task

  unfoldable pub clean_input : IndexingContext → TxIn → IndexingTask → Result Error IndexingTask
  clean_input ctx i task =
      if i.is_null
      then ok task
      else clean_utxo i.previous_output (resolve_input ctx i.previous_output) task

  unfoldable pub clean_inputs :
      IndexingContext → List TxIn → IndexingTask → Result Error IndexingTask
  clean_inputs ctx [] task = ok task
  clean_inputs ctx (i ∷ is) task = do task' ← clean_input ctx i task; clean_inputs ctx is task'

  abbrev pub keep_charms :
      ℕ
      → TxoRef
      → TxOut
      → UtxoCharms
      → IndexingTask × IndexingContext
      → IndexingTask × IndexingContext
  keep_charms height r output cs (task, ctx) = (
    set_apps height r cs
        (set db s charms_utxos_by_script_kv task (script_key output.script_pubkey height r) tt),
    attach_utxo_metadata ctx r charms (utxo_charms.encode cs),
  )

  abbrev pub produce_output :
      Bytes
      → ℕ
      → Spell
      → ℕ
      → TxOut
      → Map ℕ Bytes
      → IndexingTask × IndexingContext
      → IndexingTask × IndexingContext
  produce_output tx_id height spell output_index output n_charms st =
      if is_beamed spell.beamed_outs (output_index % (2 ^ 32))
      then st
      else if is_empty n_charms
      then st
      else keep_charms height (out_ref tx_id output_index) output
          (convert_charms spell.app_public_inputs n_charms) st

  -- The outputs and the spell's, zipped.
  unfoldable pub produce_outputs :
      Bytes
      → ℕ
      → Spell
      → ℕ
      → List TxOut
      → List (Map ℕ Bytes)
      → IndexingTask × IndexingContext
      → IndexingTask × IndexingContext
  produce_outputs tx_id height spell output_index [] outs st = st
  produce_outputs tx_id height spell output_index (o ∷ os) [] st = st
  produce_outputs tx_id height spell output_index (o ∷ os) (n ∷ ns) st =
      produce_outputs tx_id height spell (suc output_index) os ns
        (produce_output tx_id height spell output_index o n st)

  abbrev pub apply_spell :
      TransactionWithId
      → Option Spell
      → IndexingTask × IndexingContext
      → IndexingTask × IndexingContext
  apply_spell tx none st = st
  apply_spell tx (some spell) (task, ctx) =
      produce_outputs tx.tx_id ctx.point.height spell 0 tx.tx.output spell.outs (task, ctx)

-- `CharmsIndexer::process_tx`
unfoldable pub index_charms : ExtractSpell → ℕ → (db : Db) → ProcessTransaction db
index_charms extract start_height db s task tx tx_block_index ctx =
    if ltb ctx.point.height start_height then ok (task, ctx) else do
      task' ← clean_inputs db s ctx tx.tx.input task
      ok (apply_spell db s tx (extract tx.tx) (task', ctx))

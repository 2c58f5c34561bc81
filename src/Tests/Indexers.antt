-- ===== src/Tests/Indexers.antt =====
-- src/sync/stages/index/indexers/custom on concrete inputs: one transaction, with a charm.
use maestro_symphony.Prelude.{
  ◌≡◌, refl, arith, List, [], ◌∷◌, none, some, true, false, Bytes, replicate, list_eq, nat_eq,
  Result, ok, err,
}
use maestro_symphony.Encdec.VarUInt.{
  encode_varuint, encode_digits, to_be_bytes, decode_varuint, split_at_checked, from_be_bytes,
}
use maestro_symphony.Encdec.Instances.{encode_items, decode_items}
use maestro_symphony.Table.{encode_key}
use maestro_symphony.Core.{Error, TxOut, TransactionWithId, TxoRef, txo_ref_eq, Utxo, charms}
use maestro_symphony.Store.{IndexingTask, get, increment_by, merge_raw, maybe_store_original_kv}
use maestro_symphony.Rollback.Recorded.{run_ops}
use maestro_symphony.Worker.Resolve.{contains}
use maestro_symphony.Worker.Context.{IndexingContext, regtest, produced_utxo}
use maestro_symphony.Worker.Index.{ProcessTransaction}
use maestro_symphony.Worker.Execute.{execute}
use maestro_symphony.Worker.Consistency.{IsConsistent}
use maestro_symphony.Indexers.Marks.{marked, set_all, delete_all}
use maestro_symphony.Indexers.TxCount.{
  count_tx, seen_scripts, spent_scripts, paid_scripts, IsDistinct, touches, increments,
  count_tx-once_per_script,
}
use maestro_symphony.Indexers.Utxos.{
  index_utxos, delete_consumed, set_produced, utxos_by_address_kv, UtxosByAddressKey, produced_keys,
  spent_keys, index_utxos-get,
}
use maestro_symphony.Indexers.Charms.{
  ExtractSpell, index_charms, clean_inputs, clean_input, utxo_charms, UtxoCharms, keep_charms,
  clean_utxo, charms_utxos_by_script_kv, charms_utxos_by_script_key, CharmsUtxosByScriptKey,
}
use maestro_symphony.Indexers.Charms.Laws.{spell_keys, consumed_keys, charm_keys}
use maestro_symphony.Indexers.Charms.Reads.{index_charms-get, clean_utxo-keep_charms}
use maestro_symphony.Indexers.Factory.{
  IndexerLibs, TransactionIndexerFactory, create_indexer, create_indexers, here, next,
  Reach-IsConsistent,
}
use maestro_symphony.Tests.Database.{memory}
use maestro_symphony.Tests.Worker.{
  at_height, map_cache, near_stage, near_stage-IsConsistent, clock, new_block,
}

abbrev charm : UtxoCharms
charm = (116 ∷ 47 ∷ [], 7 ∷ []) ∷ []

abbrev spent_ref : TxoRef
spent_ref = record { tx_hash = replicate 32 7; txo_index = 0 }

abbrev spent_utxo : Utxo
spent_utxo = record {
  satoshis = 900;
  script = 82 ∷ [];
  height = 7;
  extended = (charms, utxo_charms.encode charm) ∷ [];
}

abbrev ctx : IndexingContext
ctx = record {
  point = at_height 8;
  resolver = (spent_ref, spent_utxo) ∷ [];
  utxo_metadata = [];
  chained_txos = [];
  network = regtest;
}

abbrev to_other : TxOut
to_other = record { value = 400; script_pubkey = 81 ∷ []; is_op_return = false }

abbrev tx : TransactionWithId
tx = record {
  tx_id = replicate 32 9;
  tx = record {
    is_coinbase = false;
    input = record { previous_output = spent_ref; is_null = false; witness = [] } ∷ [];
    output = to_other ∷ record { value = 500; script_pubkey = 82 ∷ []; is_op_return = false } ∷ [];
  };
}

abbrev task : IndexingTask
task = record { read_ts = 5; write_buffer = []; original_kvs = none; mempool = false }

abbrev task_of : Result Error (IndexingTask × IndexingContext) → IndexingTask
task_of (ok r) = r.0
task_of (err e) = task

abbrev ctx_of : Result Error (IndexingTask × IndexingContext) → IndexingContext
ctx_of (ok r) = r.1
ctx_of (err e) = ctx

abbrev counted : Result Error (IndexingTask × IndexingContext)
counted = count_tx memory [] task tx 0 ctx

counted_ok : counted ≡ ok (task_of counted, ctx_of counted)
unfolding count_tx seen_scripts spent_scripts paid_scripts increment_by merge_raw
    maybe_store_original_kv encode_key to_be_bytes encode_varuint encode_digits encode_items
counted_ok = refl

count_tx-once_per_script_example :
    (scripts : List Bytes) × IsDistinct scripts
    × ((x : Bytes) → contains x scripts ≡ touches ctx x tx.tx)
    × (run_ops memory [] (increments scripts) task ≡ ok (task_of counted))
    × (ctx_of counted ≡ ctx)
count_tx-once_per_script_example =
    count_tx-once_per_script memory [] task (task_of counted) tx 0 ctx (ctx_of counted) counted_ok

abbrev marked_utxos : Result Error (IndexingTask × IndexingContext)
marked_utxos = index_utxos memory [] task tx 0 ctx

marked_utxos_ok : marked_utxos ≡ ok (task_of marked_utxos, ctx_of marked_utxos)
unfolding index_utxos delete_consumed set_produced
marked_utxos_ok = refl

index_utxos-get_example :
    ((j : UtxosByAddressKey)
      → get memory [] utxos_by_address_kv (task_of marked_utxos) j
        ≡ marked
            (contains
              (encode_key utxos_by_address_kv j)
              (produced_keys ctx tx.tx_id 0 tx.tx.output))
            (contains (encode_key utxos_by_address_kv j) (spent_keys ctx tx.tx))
            (get memory [] utxos_by_address_kv task j))
    × (ctx_of marked_utxos ≡ ctx)
index_utxos-get_example =
    index_utxos-get memory [] task (task_of marked_utxos) tx 0 ctx (ctx_of marked_utxos)
      marked_utxos_ok

-- One app, whose charm goes to the first output.
abbrev extract : ExtractSpell
extract _ = some (record {
  app_public_inputs = (116 ∷ 47 ∷ []) ∷ [];
  outs = ((0, 7 ∷ []) ∷ []) ∷ [] ∷ [];
  beamed_outs = none;
})

abbrev charmed : Result Error (IndexingTask × IndexingContext)
charmed = index_charms extract 3 memory [] task tx 0 ctx

charmed_ok : charmed ≡ ok (task_of charmed, ctx_of charmed)
unfolding index_charms clean_inputs clean_input decode_varuint split_at_checked from_be_bytes
    encode_varuint encode_digits to_be_bytes encode_items decode_items
charmed_ok = refl

abbrev other_key : CharmsUtxosByScriptKey
other_key = record {
  script = 81 ∷ [];
  produced_height = 8;
  txo_ref = record { tx_hash = replicate 32 9; txo_index = 0 };
}

index_charms-get_example :
    get memory [] charms_utxos_by_script_kv (task_of charmed) other_key
    ≡ marked
        (contains
          (encode_key charms_utxos_by_script_kv other_key)
          (spell_keys tx 8 (extract tx.tx)))
        (contains (encode_key charms_utxos_by_script_kv other_key) (consumed_keys ctx tx.tx.input))
        (get memory [] charms_utxos_by_script_kv task other_key)
index_charms-get_example =
    index_charms-get extract 3 memory [] task (task_of charmed) tx 0 ctx (ctx_of charmed)
      charms_utxos_by_script_kv.prefix charms_utxos_by_script_key other_key (omega arith) charmed_ok

clean_utxo-keep_charms_example :
    ((keep_charms memory [] 8 spent_ref to_other charm (task, ctx)).0
      ≡ set_all memory [] (charm_keys (81 ∷ []) 8 spent_ref charm) task)
    × (clean_utxo memory [] spent_ref
          (some (
            produced_utxo map_cache memory [] spent_ref to_other
              (keep_charms memory [] 8 spent_ref to_other charm (task, ctx)).1))
          task
        ≡ ok (delete_all memory [] (charm_keys (81 ∷ []) 8 spent_ref charm) task))
clean_utxo-keep_charms_example =
    clean_utxo-keep_charms map_cache memory [] task task ctx spent_ref to_other charm (omega arith)
      refl

abbrev libs : IndexerLibs
libs = record {
  ordinals = record {
    decipher = λ t. none;
    minimum_at_height = λ network height. 0;
    is_reserved = λ rune. false;
    reserved = λ height tx. height;
    commitment = λ rune. [];
    commit_confirmations = 6;
    tapscript = λ witness. none;
    is_p2tr = λ script. false;
  };
  extract_spell = extract;
}

abbrev all_indexers : List TransactionIndexerFactory
all_indexers =
    TransactionIndexerFactory.tx_count_by_address
    ∷ TransactionIndexerFactory.runes
        (record { start_height = 3; index_activity = true; commitment_confirmations = none })
    ∷ TransactionIndexerFactory.utxos_by_address
    ∷ TransactionIndexerFactory.charms 3
    ∷ []

abbrev counting : List (ProcessTransaction memory)
counting = count_tx memory ∷ []

counting_ok :
    create_indexers libs memory (TransactionIndexerFactory.tx_count_by_address ∷ []) ≡ ok counting
unfolding create_indexers create_indexer
counting_ok = refl

Reach-IsConsistent_example :
    IsConsistent map_cache memory
      (execute map_cache memory clock counting near_stage true new_block).stage
      (execute map_cache memory clock counting near_stage true new_block).mutable
Reach-IsConsistent_example =
    Reach-IsConsistent libs map_cache memory (TransactionIndexerFactory.tx_count_by_address ∷ [])
      counting near_stage true
      (execute map_cache memory clock counting near_stage true new_block).stage
      (execute map_cache memory clock counting near_stage true new_block).mutable counting_ok
      near_stage-IsConsistent (next clock new_block here (omega arith))

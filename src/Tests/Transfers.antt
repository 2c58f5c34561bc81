-- ===== src/Tests/Transfers.antt =====
-- src/sync/stages/index/indexers/custom/runes/indexer.rs on a transaction that spends one rune.
use maestro_symphony.Prelude.{
  ◌^◌, ◌<◌, ◌≡◌, refl, arith, List, [], ◌∷◌, none, some, true, false, Bool-cases, inl, inr,
  replicate, list_eq, nat_eq, Result, ok, err, ◌>>=◌,
}
use maestro_symphony.Encdec.VarUInt.{
  encode_varuint, encode_digits, to_be_bytes, decode_varuint, split_at_checked, from_be_bytes,
}
use maestro_symphony.Encdec.Instances.{encode_items, decode_items}
use maestro_symphony.Table.{encode_key}
use maestro_symphony.Core.{Error, TxOut, Transaction, TransactionWithId, TxoRef, runes}
use maestro_symphony.Store.{
  IndexingTask, get, get_inner, delete, delete_raw, maybe_store_original_kv,
}
use maestro_symphony.Worker.Context.{IndexingContext, regtest, attach_utxo_metadata}
use maestro_symphony.Runes.Tables.{RuneId, UtxoRunes, utxo_runes}
use maestro_symphony.Runes.Allocate.{rune_id_eq, rune_id_beq, Balances, balance_of}
use maestro_symphony.Runes.Ordinals.{
  OrdinalsLib, Runestone, Cenotaph, Artifact, runestone, cenotaph,
}
use maestro_symphony.Runes.Conservation.{sum_of}
use maestro_symphony.Runes.Etch.{
  etched, create_rune_entry, requested_rune, tx_commits_to_rune, inputs_commit, instructions_commit,
}
use maestro_symphony.Runes.Etching.{MayEtch, etched-MayEtch}
use maestro_symphony.Runes.Inputs.{unallocated, take_inputs, add_all}
use maestro_symphony.Runes.Outputs.{assign_rest, first_of, give_rest, keep_outputs}
use maestro_symphony.Runes.Allocate.{destinations_from, apply_edicts, distribute, allocate}
use maestro_symphony.Runes.Index.{
  RunesIndexerConfig, allocate_artifact, apply_artifact, index_outputs, index_runes,
}
use maestro_symphony.Runes.Activity.{
  log_rune_balance_changes, log_received, collect_input_totals, collect_inputs, collect_received,
  collect_sent,
}
use maestro_symphony.Runes.Kept.{kept_from}
use maestro_symphony.Runes.Accounts.{Accounts}
use maestro_symphony.Runes.Moves.{index_runes-Accounts}
use maestro_symphony.Runes.Leftovers.{Arrives, start}
use maestro_symphony.Runes.Transfers.{spent_of, assign_rest-Arrives}
use maestro_symphony.Tests.Database.{memory}
use maestro_symphony.Tests.Worker.{at_height, map_cache}

abbrev rune : RuneId
rune = record { block = 5; tx = 1 }

abbrev held : UtxoRunes
held = (rune, 100) ∷ []

abbrev spent_ref : TxoRef
spent_ref = record { tx_hash = replicate 32 7; txo_index = 0 }

abbrev ctx : IndexingContext
ctx = record {
  point = at_height 8;
  resolver =
      (
        spent_ref,
        record {
          satoshis = 900;
          script = 82 ∷ [];
          height = 2;
          extended = (runes, utxo_runes.encode held) ∷ [];
        },
      )
      ∷ [];
  utxo_metadata = [];
  chained_txos = [];
  network = regtest;
}

abbrev outputs : List TxOut
outputs =
    record { value = 0; script_pubkey = 106 ∷ []; is_op_return = true }
    ∷ record { value = 500; script_pubkey = 81 ∷ []; is_op_return = false }
    ∷ []

abbrev tx : Transaction
tx = record {
  is_coinbase = false;
  input = record { previous_output = spent_ref; is_null = false; witness = (1 ∷ []) ∷ [] } ∷ [];
  output = outputs;
}

abbrev task : IndexingTask
task = record { read_ts = 5; write_buffer = []; original_kvs = none; mempool = false }

abbrev taken : Result Error (IndexingTask × Balances)
taken = unallocated memory [] task tx ctx

abbrev task_of : Result Error (IndexingTask × Balances) → IndexingTask
task_of (ok r) = r.0
task_of (err e) = task

taken_ok : taken ≡ ok (task_of taken, (rune, 100) ∷ [])
unfolding unallocated take_inputs add_all decode_varuint split_at_checked from_be_bytes
    encode_varuint encode_digits to_be_bytes encode_items decode_items
taken_ok = refl

-- Forty to the second output, and the rest to the default output.
abbrev stone : Runestone
stone = record {
  edicts = record { id = rune; amount = 40; output = 1 } ∷ [];
  etching = none;
  mint = none;
  pointer = none;
}

abbrev flawed : Cenotaph
flawed = record { etching = none; mint = none }

abbrev lib : OrdinalsLib
lib = record {
  decipher = λ t. none;
  minimum_at_height = λ network height. 50;
  is_reserved = λ name. false;
  reserved = λ height index. height;
  commitment = λ name. name ∷ [];
  commit_confirmations = 6;
  tapscript = λ witness. some (some (some (77 ∷ [])) ∷ []);
  is_p2tr = λ script. true;
}

abbrev config : RunesIndexerConfig
config = record { start_height = 0; index_activity = true; commitment_confirmations = none }

balances_fit : (j : RuneId) → balance_of j ((rune, 100) ∷ []) < 2 ^ 128
balances_fit j = elim (Bool-cases (rune_id_beq rune j)) [
  | inl e ↦ rw e (omega arith)
  | inr e ↦ rw e (omega arith)
]

assign_rest-Arrives_example :
    ((allocated : List Balances) × ((allocate_artifact lib config memory [] outputs
            (runestone stone)
            none
            ((rune, 100) ∷ [])
          >>= assign_rest outputs (some (runestone stone)))
        ≡ ok allocated)
      × Arrives (some 1) 100 (sum_of rune allocated))
    × ((allocated : List Balances) × (assign_rest outputs none (start outputs ((rune, 100) ∷ []))
          ≡ ok allocated)
        × Arrives (first_of (destinations_from 0 outputs)) 100 (sum_of rune allocated))
    × ((allocated : List Balances) × ((allocate_artifact lib config memory [] outputs
              (cenotaph flawed)
              none
              ((rune, 100) ∷ [])
            >>= assign_rest outputs (some (cenotaph flawed)))
          ≡ ok allocated)
        × (sum_of rune allocated ≡ 0))
assign_rest-Arrives_example =
    assign_rest-Arrives lib config memory [] outputs stone none ((rune, 100) ∷ [])
      ((rune, 100) ∷ []) (some 1) flawed rune refl (refl, tt) balances_fit (omega arith, tt) refl

abbrev naming : Artifact
naming = runestone (record stone {
  etching = some (record {
    divisibility = none;
    premine = some 10;
    rune = some 77;
    spacers = none;
    symbol = none;
    terms = none;
  });
})

named :
    etched lib memory [] task 3 tx naming ctx none ≡ ok (some (record { block = 8; tx = 3 }, 77))
unfolding etched get get_inner encode_key encode_varuint encode_digits to_be_bytes
    tx_commits_to_rune inputs_commit instructions_commit
named = refl

etched-MayEtch_example :
    (◌≡◌ {A = RuneId} (record { block = 8; tx = 3 }) (record { block = 8; tx = 3 }))
    × MayEtch lib memory [] task tx ctx none 3 77 (requested_rune naming)
etched-MayEtch_example =
    etched-MayEtch lib memory [] task 3 tx naming ctx none (record { block = 8; tx = 3 }) 77 named

abbrev moving_lib : OrdinalsLib
moving_lib = record lib { decipher = λ t. some naming }

abbrev moving_tx : TransactionWithId
moving_tx = record { tx = tx; tx_id = replicate 32 8 }

abbrev indexed : Result Error (IndexingTask × IndexingContext)
indexed = index_runes moving_lib config memory [] task moving_tx 1 ctx

abbrev result_of : Result Error (IndexingTask × IndexingContext) → IndexingTask × IndexingContext
result_of (ok r) = r
result_of (err e) = (task, ctx)

indexed_ok : indexed ≡ ok (result_of indexed)
unfolding index_runes unallocated take_inputs add_all decode_varuint split_at_checked from_be_bytes
    encode_varuint encode_digits to_be_bytes encode_items decode_items apply_artifact etched
    apply_edicts distribute allocate assign_rest give_rest index_outputs keep_outputs
    attach_utxo_metadata log_rune_balance_changes log_received collect_input_totals collect_inputs
    collect_received collect_sent get delete delete_raw maybe_store_original_kv encode_key
    tx_commits_to_rune inputs_commit instructions_commit create_rune_entry
indexed_ok = refl

index_runes-Accounts_example :
    Accounts moving_lib config memory [] moving_tx 1 ctx
      (task_of taken)
      (some naming)
      rune
      (spent_of rune ctx tx.input)
      (kept_from map_cache memory [] moving_tx.tx_id rune (result_of indexed).1 0 outputs)
index_runes-Accounts_example =
    index_runes-Accounts map_cache moving_lib config memory [] task (task_of taken)
      (result_of indexed).0 moving_tx 1 ctx (result_of indexed).1 ((rune, 100) ∷ []) rune
      (omega arith) (omega arith) (λ a id q r. absurd (cc (q, r))) (λ j l. refl) taken_ok
      (((omega arith, omega arith), omega arith), tt) (omega arith) indexed_ok

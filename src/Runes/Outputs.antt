-- ===== src/Runes/Outputs.antt =====
-- src/sync/stages/index/indexers/custom/runes/indexer.rs: what is left after the edicts, and what each
-- output keeps of its runes.
use maestro_symphony.Prelude.{
  ℕ, suc, List, [], ◌∷◌, ◌++◌, length, Option, none, some, ltb, Bytes, if◌then◌else◌, Result, ok,
  err, ◌>>=◌,
}
use maestro_symphony.Core.{Error, panic, runes, TxOut, TxoRef}
use maestro_symphony.Store.{Db, IndexingTask, set}
use maestro_symphony.Worker.Context.{IndexingContext, attach_utxo_metadata}
use maestro_symphony.Runes.Tables.{RuneId, rune_utxos_by_script_kv, utxo_runes}
use maestro_symphony.Runes.Allocate.{Balances, add_at, destinations_from}
use maestro_symphony.Runes.Ordinals.{Artifact, runestone, cenotaph}
use maestro_symphony.Runes.Etch.{checked_u32}
use maestro_symphony.Runes.Inputs.{runes_key}

abbrev pub first_of : List ℕ → Option ℕ
first_of [] = none
first_of (x ∷ xs) = some x

-- The pointer, or the first output that is no OP_RETURN.
abbrev pub default_output : List TxOut → Option ℕ → Result Error (Option ℕ)
default_output outputs none = ok (first_of (destinations_from 0 outputs))
default_output outputs (some pointer) =
    if ltb pointer (length outputs) then ok (some pointer) else err (panic "pointer out of range")

unfoldable pub give_rest : ℕ → Balances → List Balances → List Balances
give_rest vout [] allocated = allocated
give_rest vout ((id, balance) ∷ unallocated) allocated =
    give_rest vout unallocated
      (if ltb 0 balance then add_at vout id balance allocated else allocated)

-- With no output to take them, the unallocated runes are burned.
abbrev pub give_or_burn : Option ℕ → Balances → List Balances → List Balances
give_or_burn none unallocated allocated = allocated
give_or_burn (some vout) unallocated allocated = give_rest vout unallocated allocated

abbrev pub assign_to :
    Balances × List Balances → List TxOut → Option ℕ → Result Error (List Balances)
assign_to st outputs pointer = do
  target ← default_output outputs pointer
  ok (give_or_burn target st.0 st.1)

-- The runes that no edict moved. A cenotaph burns them all.
unfoldable pub assign_rest :
    List TxOut → Option Artifact → Balances × List Balances → Result Error (List Balances)
assign_rest outputs none st = assign_to st outputs none
assign_rest outputs (some (runestone r)) st = assign_to st outputs r.pointer
assign_rest outputs (some (cenotaph c)) st = ok st.1

-- What an output receives of a rune.
pub record Received : Type 0 where
  pub script : Bytes
  pub rune_id : RuneId
  pub output_index : ℕ
  pub amount : ℕ

abbrev pub received_at : TxOut → ℕ → Balances → List Received
received_at output output_index [] = []
received_at output output_index ((id, amount) ∷ m) =
    record {
      script = output.script_pubkey;
      rune_id = id;
      output_index = output_index;
      amount = amount;
    }
    ∷ received_at output output_index m

module _ (db : Db) (s : db.Store) (tx_id : Bytes) (height : ℕ) where
  abbrev pub ref_at : ℕ → TxoRef
  ref_at output_index = record { tx_hash = tx_id; txo_index = output_index }

  abbrev pub keep_output :
      ℕ → TxOut → Balances → IndexingTask × IndexingContext → IndexingTask × IndexingContext
  keep_output output_index output [] st = st
  keep_output output_index output (h ∷ held) (task, ctx) = (
    set db s rune_utxos_by_script_kv task
        (runes_key output.script_pubkey height (ref_at output_index)) tt,
    attach_utxo_metadata ctx (ref_at output_index) runes (utxo_runes.encode (h ∷ held)),
  )

  -- The loop over the outputs and what each has got; `received` are its movements in order.
  unfoldable pub keep_outputs :
      ℕ
      → List TxOut
      → List Balances
      → IndexingTask × IndexingContext
      → Result Error ((IndexingTask × IndexingContext) × List Received)
  keep_outputs output_index [] allocated st = ok (st, [])
  keep_outputs output_index (o ∷ os) [] st = ok (st, [])
  keep_outputs output_index (o ∷ os) (m ∷ ms) st = do
    i ← checked_u32 "output index u32 overflow" output_index
    (st', received) ← keep_outputs (suc output_index) os ms (keep_output i o m st)
    ok (st', received_at o i m ++ received)

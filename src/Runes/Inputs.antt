-- ===== src/Runes/Inputs.antt =====
-- src/sync/stages/index/indexers/custom/runes/indexer.rs: `unallocated`, the runes that a transaction
-- spends. A hash map is an association list in the order of insertion.
use maestro_symphony.Prelude.{
  ℕ, List, [], ◌∷◌, Option, none, some, Bytes, lookup, insert, if◌then◌else◌, Result, ok, ◌>>=◌,
}
use maestro_symphony.Codec.{decode_all, ok_or}
use maestro_symphony.Core.{
  Error, lift_decoding, panic, runes, indexer_eq, TxIn, Transaction, TxoRef, Utxo,
}
use maestro_symphony.Store.{Db, IndexingTask, delete}
use maestro_symphony.Worker.Context.{IndexingContext, resolve_input}
use maestro_symphony.Runes.Tables.{
  RuneId, RuneUtxosByScriptKey, rune_utxos_by_script_kv, UtxoRunes, utxo_runes,
}
use maestro_symphony.Runes.Allocate.{rune_id_eq, Balances, balance_of, wrapping_add}

-- `*unallocated.entry(id).or_default() += amount`
abbrev pub add_balance : RuneId → ℕ → Balances → Balances
add_balance id amount m = insert id (wrapping_add (balance_of id m) amount) m

unfoldable pub add_all : UtxoRunes → Balances → Balances
add_all [] m = m
add_all ((id, balance) ∷ held) m = add_all held (add_balance id balance m)

abbrev pub decode_runes : Option Bytes → Result Error UtxoRunes
decode_runes none = ok []
decode_runes (some raw) = lift_decoding (decode_all utxo_runes raw)

abbrev pub runes_key : Bytes → ℕ → TxoRef → RuneUtxosByScriptKey
runes_key script height r = record { script = script; produced_height = height; txo_ref = r }

module _ (db : Db) (s : db.Store) where
  abbrev pub delete_entry : TxoRef → Utxo → UtxoRunes → IndexingTask → IndexingTask
  delete_entry r utxo [] task = task
  delete_entry r utxo (h ∷ held) task =
      delete db s rune_utxos_by_script_kv task (runes_key utxo.script utxo.height r)

  abbrev pub take_runes :
      TxoRef → Utxo → IndexingTask × Balances → Result Error (IndexingTask × Balances)
  take_runes r utxo (task, m) = do
    held ← decode_runes (lookup runes utxo.extended)
    ok (delete_entry r utxo held task, add_all held m)

  abbrev pub take_input :
      IndexingContext → TxIn → IndexingTask × Balances → Result Error (IndexingTask × Balances)
  take_input ctx i st = if i.is_null then ok st else do
    utxo ← ok_or (resolve_input ctx i.previous_output) (panic "todo")
    take_runes i.previous_output utxo st

  unfoldable pub take_inputs :
      IndexingContext → List TxIn → IndexingTask × Balances → Result Error (IndexingTask × Balances)
  take_inputs ctx [] st = ok st
  take_inputs ctx (i ∷ is) st = do st' ← take_input ctx i st; take_inputs ctx is st'

  unfoldable pub unallocated :
      IndexingTask → Transaction → IndexingContext → Result Error (IndexingTask × Balances)
  unallocated task tx ctx = take_inputs ctx tx.input (task, [])

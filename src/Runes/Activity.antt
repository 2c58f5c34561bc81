-- ===== src/Runes/Activity.antt =====
-- src/sync/stages/index/indexers/custom/runes/indexer.rs: the log of the runes that the scripts of a
-- transaction send and receive. A hash map is an association list in the order of insertion.
use maestro_symphony.Prelude.{
  ℕ, ◌+◌, ◌^◌, ◌≡◌, ◌↔◌, arith, List, [], ◌∷◌, ◌++◌, Option, none, some, Bool, true, ◌&&◌, Bytes,
  Eq, list_beq, list_beq_iff, nat_eq, Map, lookup, insert, ltb, eqb, if◌then◌else◌, Result, ok, err,
  ◌>>=◌,
}
use maestro_symphony.Core.{Error, panic, runes, indexer_eq, TxIn, Transaction, Utxo}
use maestro_symphony.Store.{Db, IndexingTask, set}
use maestro_symphony.Worker.Context.{IndexingContext, resolve_input}
use maestro_symphony.Runes.Tables.{RuneId, RuneBalanceChange, rune_activity_by_tx_kv, UtxoRunes}
use maestro_symphony.Runes.Allocate.{rune_id_beq, rune_id_beq_iff, wrapping_add}
use maestro_symphony.Runes.Inputs.{decode_runes}
use maestro_symphony.Runes.Outputs.{Received}

pub record AddressRuneKey : Type 0 where
  pub script : Bytes
  pub rune_id : RuneId

abbrev pub address_rune_beq : AddressRuneKey → AddressRuneKey → Bool
address_rune_beq a b = list_beq a.script b.script && rune_id_beq a.rune_id b.rune_id

pub address_rune_beq_iff : (a b : AddressRuneKey) → (address_rune_beq a b ≡ true) ↔ (a ≡ b)
address_rune_beq_iff a b =
    ground (arith, list_beq_iff a.script b.script, rune_id_beq_iff a.rune_id b.rune_id)

instance abbrev pub address_rune_eq : Eq AddressRuneKey
address_rune_eq = record { beq = address_rune_beq; beq_iff = address_rune_beq_iff }

pub record RuneActivity : Type 0 where
  pub sent : ℕ
  pub received : List (ℕ × ℕ)

abbrev pub Activities : Type 0
Activities = Map AddressRuneKey RuneActivity

abbrev pub activity_of : Option RuneActivity → RuneActivity
activity_of none = record { sent = 0; received = [] }
activity_of (some a) = a

abbrev pub add_sent : AddressRuneKey → ℕ → Activities → Activities
add_sent key qty m =
    let a = activity_of (lookup key m) in insert key (record a { sent = wrapping_add a.sent qty }) m

abbrev pub add_received : Received → Activities → Activities
add_received r m =
    let key : AddressRuneKey = record { script = r.script; rune_id = r.rune_id } in
    let a = activity_of (lookup key m) in
    insert key (record a { received = a.received ++ (r.output_index, r.amount) ∷ [] }) m

unfoldable pub collect_received : List Received → Activities → Activities
collect_received [] m = m
collect_received (r ∷ rs) m = collect_received rs (add_received r m)

unfoldable pub collect_sent : Bytes → UtxoRunes → Activities → Activities
collect_sent script [] m = m
collect_sent script ((id, qty) ∷ held) m =
    collect_sent script held (add_sent (record { script = script; rune_id = id }) qty m)

-- An orphaned input and one without runes are passed over.
abbrev pub collect_utxo : Option Utxo → Activities → Result Error Activities
collect_utxo none m = ok m
collect_utxo (some utxo) m = do
  held ← decode_runes (lookup runes utxo.extended)
  ok (collect_sent utxo.script held m)

unfoldable pub collect_inputs : IndexingContext → List TxIn → Activities → Result Error Activities
collect_inputs ctx [] m = ok m
collect_inputs ctx (i ∷ is) m = do
  m' ← (if i.is_null then ok m else collect_utxo (resolve_input ctx i.previous_output) m)
  collect_inputs ctx is m'

unfoldable pub collect_input_totals :
    Transaction → IndexingContext → Activities → Result Error Activities
collect_input_totals tx ctx m = if tx.is_coinbase then ok m else collect_inputs ctx tx.input m

module _ (db : Db) (s : db.Store) (tx_hash : Bytes) where
  -- One record under the next sequence number.
  abbrev pub log_change : RuneBalanceChange → IndexingTask × ℕ → Result Error (IndexingTask × ℕ)
  log_change change (task, seq) =
      if ltb (seq + 1) (2 ^ 16)
      then ok (
        set db s rune_activity_by_tx_kv task (record { tx_hash = tx_hash; seq = seq }) change,
        seq + 1,
      )
      else err (panic "seq overflow")

  abbrev pub sent_change : AddressRuneKey → ℕ → RuneBalanceChange
  sent_change key sent = record {
    rune_id = key.rune_id;
    script = key.script;
    sent = sent;
    received = 0;
    output_index = none;
  }

  abbrev pub received_change : AddressRuneKey → ℕ → ℕ → RuneBalanceChange
  received_change key vout amount = record {
    rune_id = key.rune_id;
    script = key.script;
    sent = 0;
    received = amount;
    output_index = some vout;
  }

  unfoldable pub log_received :
      AddressRuneKey → List (ℕ × ℕ) → IndexingTask × ℕ → Result Error (IndexingTask × ℕ)
  log_received key [] st = ok st
  log_received key ((vout, amount) ∷ received) st = do
    st' ← (if eqb amount 0 then ok st else log_change (received_change key vout amount) st)
    log_received key received st'

  abbrev pub log_activity :
      AddressRuneKey → RuneActivity → IndexingTask × ℕ → Result Error (IndexingTask × ℕ)
  log_activity key activity st = do
    st' ← (if ltb 0 activity.sent then log_change (sent_change key activity.sent) st else ok st)
    log_received key activity.received st'

  unfoldable pub log_rune_balance_changes :
      Activities → IndexingTask × ℕ → Result Error (IndexingTask × ℕ)
  log_rune_balance_changes [] st = ok st
  log_rune_balance_changes ((key, activity) ∷ m) st = do
    st' ← log_activity key activity st
    log_rune_balance_changes m st'

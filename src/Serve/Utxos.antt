-- ===== src/Serve/Utxos.antt =====
-- src/serve/routes: the outputs of a script that hold runes, an output's balance, and what is known
-- of a rune, without the formatting of the answers.
use maestro_symphony.Prelude.{
  ℕ, List, [], ◌∷◌, some, Bytes, list_eq, nat_eq, lookup, if◌then◌else◌, Result, ok, ◌>>=◌, map_err,
}
use maestro_symphony.Codec.{decode_all, ok_or}
use maestro_symphony.Encdec.Instances.{pair, bytes_codec, u64}
use maestro_symphony.Encdec.Range.{KeyRange}
use maestro_symphony.Table.{encode_range, decode_entry}
use maestro_symphony.Core.{lift_decoding, runes, indexer_eq, utxo_by_txo_ref_kv}
use maestro_symphony.Store.{Db, u64_max}
use maestro_symphony.Runes.Tables.{RuneId, UtxoRunes, rune_utxos_by_script_kv, utxo_runes}
use maestro_symphony.Serve.Reader.{symphony, ServeError, internal, decoding, get_expected}
use maestro_symphony.Serve.Reader.{get_maybe, not_found}
use maestro_symphony.Prelude.{contains_key, Option, none, some, Bool, true, false, list_beq}
use maestro_symphony.Core.{TxoRef}
use maestro_symphony.Runes.Allocate.{balance_of, rune_id_eq}
use maestro_symphony.Runes.Tables.{
  RuneInfo, rune_info_by_id_kv, rune_id_by_name_kv, RuneBalanceChange, rune_activity_by_tx_kv,
}
use maestro_symphony.Indexers.Utxos.{utxos_by_address_kv}

-- What an iteration over a range of keys finds is RocksDB's: it is taken as a function of the time
-- and the range.
abbrev pub KvIter : Type 0
KvIter = ℕ → KeyRange → List (Bytes × Bytes)

-- The range of a script, for the four routes on runes.
unfoldable pub script_entries : KvIter → ℕ → Bytes → List (Bytes × Bytes)
script_entries iter_kvs read_ts script_pk =
    let bound = λ (height : ℕ). some ((pair bytes_codec u64).encode (script_pk, height)) in
    iter_kvs read_ts (encode_range rune_utxos_by_script_kv (bound 0) (bound u64_max))

pub record RuneUtxo : Type 0 where
  pub txo_ref : TxoRef
  pub height : ℕ
  pub satoshis : ℕ
  pub runes : UtxoRunes

pub record AddressUtxo : Type 0 where
  pub txo_ref : TxoRef
  pub height : ℕ
  pub satoshis : ℕ

pub record RuneEdict : Type 0 where
  pub rune_id : RuneId
  pub amount : ℕ
  pub output : Option ℕ
  pub block_height : ℕ

pub data RuneIdentifier : Type 0 where
  by_id : RuneId → RuneIdentifier
  by_name : ℕ → RuneIdentifier

abbrev pub keep_if : Bool → RuneUtxo → List RuneUtxo → List RuneUtxo
keep_if true u us = u ∷ us
keep_if false u us = us

module _ (db : Db) (s : db.Store) where
  -- The output that an entry names, with what it holds: how the four loops over the entries begin.
  unfoldable pub rune_utxo : ℕ → Bytes × Bytes → Result ServeError RuneUtxo
  rune_utxo read_ts entry = do
    (key, _) ← map_err symphony (lift_decoding (decode_entry rune_utxos_by_script_kv entry))
    utxo ← get_expected db s utxo_by_txo_ref_kv read_ts key.txo_ref
    raw ← ok_or (lookup runes utxo.extended) (internal "missing expected data")
    held ← map_err decoding (decode_all utxo_runes raw)
    ok (record {
      txo_ref = key.txo_ref;
      height = key.produced_height;
      satoshis = utxo.satoshis;
      runes = held;
    })

  -- `addresses_all_rune_utxos`, the loop.
  unfoldable pub all_rune_utxos : ℕ → List (Bytes × Bytes) → Result ServeError (List RuneUtxo)
  all_rune_utxos read_ts [] = ok []
  all_rune_utxos read_ts (entry ∷ entries) = do
    utxo ← rune_utxo read_ts entry
    utxos ← all_rune_utxos read_ts entries
    ok (utxo ∷ utxos)

  -- `addresses_specific_rune_utxos`, the loop.
  unfoldable pub specific_rune_utxos :
      RuneId → ℕ → List (Bytes × Bytes) → Result ServeError (List RuneUtxo)
  specific_rune_utxos rune read_ts [] = ok []
  specific_rune_utxos rune read_ts (entry ∷ entries) = do
    utxo ← rune_utxo read_ts entry
    utxos ← specific_rune_utxos rune read_ts entries
    ok (keep_if (contains_key rune utxo.runes) utxo utxos)

  -- `addresses_utxos_by_address`, the loop.
  unfoldable pub address_utxos : ℕ → List (Bytes × Bytes) → Result ServeError (List AddressUtxo)
  address_utxos read_ts [] = ok []
  address_utxos read_ts (entry ∷ entries) = do
    (key, _) ← map_err symphony (lift_decoding (decode_entry utxos_by_address_kv entry))
    utxo ← get_expected db s utxo_by_txo_ref_kv read_ts key.txo_ref
    utxos ← address_utxos read_ts entries
    ok (
        record { txo_ref = key.txo_ref; height = key.produced_height; satoshis = utxo.satoshis }
        ∷ utxos)

  abbrev pub balance_in : RuneId → Option Bytes → Result ServeError ℕ
  balance_in rune none = ok 0
  balance_in rune (some raw) = do
    held ← map_err decoding (decode_all utxo_runes raw)
    ok (balance_of rune held)

  -- `rune_balance_at_utxo`, after its parameters are parsed and the rune is resolved.
  unfoldable pub balance_at_utxo : RuneId → ℕ → TxoRef → Result ServeError ℕ
  balance_at_utxo rune read_ts txo_ref = do
    found ← get_maybe db s utxo_by_txo_ref_kv read_ts txo_ref
    utxo ← ok_or found not_found
    balance_in rune (lookup runes utxo.extended)

  -- The rune that an identifier names, as all routes on one rune resolve it.
  unfoldable pub resolve_rune : ℕ → RuneIdentifier → Result ServeError RuneId
  resolve_rune read_ts (by_id id) = ok id
  resolve_rune read_ts (by_name n) = do
    found ← get_maybe db s rune_id_by_name_kv read_ts n
    ok_or found not_found

  unfoldable pub rune_info_of : ℕ → RuneIdentifier → Result ServeError (RuneId × RuneInfo)
  rune_info_of read_ts identifier = do
    rune ← resolve_rune read_ts identifier
    found ← get_maybe db s rune_info_by_id_kv read_ts rune
    info ← ok_or found not_found
    ok (rune, info)

abbrev pub edict_of : RuneBalanceChange → RuneEdict
edict_of change = record {
  rune_id = change.rune_id;
  amount = change.received;
  output = change.output_index;
  block_height = change.rune_id.block;
}

-- `addresses_runes_by_tx`, the loop.
unfoldable pub edicts_of : Bytes → List (Bytes × Bytes) → Result ServeError (List RuneEdict)
edicts_of script_pk [] = ok []
edicts_of script_pk (entry ∷ entries) = do
  (_, change) ← map_err symphony (lift_decoding (decode_entry rune_activity_by_tx_kv entry))
  edicts ← edicts_of script_pk entries
  ok (if list_beq change.script script_pk then edict_of change ∷ edicts else edicts)

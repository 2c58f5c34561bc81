-- ===== src/Serve/Balances.antt =====
-- src/serve/routes/addresses: the loops of `all_rune_balances.rs` and `specific_rune_balance.rs` over the
-- outputs of a script that hold runes. The sums of a u128 wrap, as in a release build.
use maestro_symphony.Prelude.{
  ℕ, List, [], ◌∷◌, Bytes, list_eq, nat_eq, if◌then◌else◌, Result, ok, ◌>>=◌,
}
use maestro_symphony.Encdec.Range.{KeyRange}
use maestro_symphony.Core.{indexer_eq}
use maestro_symphony.Store.{Db}
use maestro_symphony.Runes.Tables.{RuneId, UtxoRunes}
use maestro_symphony.Runes.Allocate.{Balances, rune_id_beq, wrapping_add}
use maestro_symphony.Runes.Inputs.{add_all}
use maestro_symphony.Serve.Utxos.{rune_utxo, script_entries}
use maestro_symphony.Serve.Reader.{ServeError}

abbrev pub add_specific : RuneId → UtxoRunes → ℕ → ℕ
add_specific rune [] balance = balance
add_specific rune ((id, quantity) ∷ held) balance =
    if rune_id_beq id rune then wrapping_add balance quantity else add_specific rune held balance

module _ (db : Db) (s : db.Store) where
  -- The runes of the output that an entry names.
  abbrev pub held_of : ℕ → Bytes × Bytes → Result ServeError UtxoRunes
  held_of read_ts entry = do utxo ← rune_utxo db s read_ts entry; ok utxo.runes

  -- `addresses_all_rune_balances`, the loop over the entries of the iterator.
  unfoldable pub sum_balances : ℕ → List (Bytes × Bytes) → Balances → Result ServeError Balances
  sum_balances read_ts [] balances = ok balances
  sum_balances read_ts (entry ∷ entries) balances = do
    held ← held_of read_ts entry
    sum_balances read_ts entries (add_all held balances)

  -- `addresses_specific_rune_balance`, the loop over the same entries.
  unfoldable pub sum_specific : RuneId → ℕ → List (Bytes × Bytes) → ℕ → Result ServeError ℕ
  sum_specific rune read_ts [] balance = ok balance
  sum_specific rune read_ts (entry ∷ entries) balance = do
    held ← held_of read_ts entry
    sum_specific rune read_ts entries (add_specific rune held balance)

  module _ (iter_kvs : ℕ → KeyRange → List (Bytes × Bytes)) where
    unfoldable pub all_rune_balances : ℕ → Bytes → Result ServeError Balances
    all_rune_balances read_ts script_pk =
        sum_balances read_ts (script_entries iter_kvs read_ts script_pk) []

    unfoldable pub specific_rune_balance : RuneId → ℕ → Bytes → Result ServeError ℕ
    specific_rune_balance rune read_ts script_pk =
        sum_specific rune read_ts (script_entries iter_kvs read_ts script_pk) 0

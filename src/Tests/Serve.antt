-- ===== src/Tests/Serve.antt =====
-- src/serve on a database in memory: two outputs of one script that hold runes.
use maestro_symphony.Prelude.{
  ℕ, ◌≡◌, refl, sym, ◌∙◌, subst, arith, [], ◌∷◌, All, none, some, Bool, true, false, Bytes, nat_eq,
  list_eq, replicate, HasDistinctKeys, if◌then◌else◌, ok, ◌>>=◌, ok-injective,
}
use maestro_symphony.Timestamp.{as_u64, new, after}
use maestro_symphony.Encdec.VarUInt.{
  encode_varuint, encode_digits, to_be_bytes, decode_varuint, split_at_checked, from_be_bytes,
}
use maestro_symphony.Encdec.Instances.{encode_items, decode_items, decode_entries}
use maestro_symphony.Table.{encode_key, decode_entry}
use maestro_symphony.Core.{Point, TxoRef, Utxo, runes, utxo_by_txo_ref_kv, confirmed, mempool_kind}
use maestro_symphony.Store.{
  FinalizedTask, apply_indexing_task, set_action, next_timestamp, put_cf, apply_batch, reader_get,
  StorageHandler,
}
use maestro_symphony.Runes.Tables.{RuneId, UtxoRunes, utxo_runes, rune_utxos_by_script_kv}
use maestro_symphony.Runes.Allocate.{rune_id_eq, balance_of}
use maestro_symphony.Serve.Reader.{start_reader, info_at, get_expected, get_maybe}
use maestro_symphony.Serve.Utxos.{
  KvIter, rune_utxo, all_rune_utxos, specific_rune_utxos, script_entries,
}
use maestro_symphony.Serve.Balances.{held_of, all_rune_balances, specific_rune_balance}
use maestro_symphony.Serve.Listed.{holding, shown, AgreesAt, specific_rune_utxos-holding}
use maestro_symphony.Serve.Totals.{ListsOnce, specific_rune_balance-balance_of}
use maestro_symphony.Serve.Entries.{LeavesTimestamps, entry_of}
use maestro_symphony.Rollback.History.{value_at}
use maestro_symphony.Serve.Snapshot.{InOrder, start_reader-snapshot}
use maestro_symphony.Tests.Database.{memory, Log}

abbrev rune : RuneId
rune = record { block = 5; tx = 1 }

abbrev other_rune : RuneId
other_rune = record { block = 6; tx = 2 }

abbrev ref_at : ℕ → TxoRef
ref_at n = record { tx_hash = replicate 32 7; txo_index = n }

abbrev utxo_with : UtxoRunes → Utxo
utxo_with held = record {
  satoshis = 900;
  script = 82 ∷ [];
  height = 2;
  extended = (runes, utxo_runes.encode held) ∷ [];
}

abbrev first_held : UtxoRunes
first_held = (other_rune, 3) ∷ (rune, 100) ∷ []

abbrev second_held : UtxoRunes
second_held = (other_rune, 4) ∷ []

abbrev served : Log
served =
    (
      5,
      put_cf (encode_key utxo_by_txo_ref_kv (ref_at 0))
            (utxo_by_txo_ref_kv.value.encode (utxo_with first_held))
          ∷ put_cf (encode_key utxo_by_txo_ref_kv (ref_at 1))
              (utxo_by_txo_ref_kv.value.encode (utxo_with second_held))
          ∷ [],
    )
    ∷ []

abbrev entry_at : ℕ → Bytes × Bytes
entry_at n = (
  encode_key rune_utxos_by_script_kv
      (record { script = 82 ∷ []; produced_height = 2; txo_ref = ref_at n }),
  [],
)

abbrev listed : KvIter
listed read_ts range = entry_at 0 ∷ entry_at 1 ∷ []

first_is_held : held_of memory served 5 (entry_at 0) ≡ ok first_held
unfolding rune_utxo get_expected get_maybe reader_get encode_key decode_entry apply_batch
    encode_varuint encode_digits to_be_bytes decode_varuint split_at_checked from_be_bytes
    encode_items decode_items decode_entries
first_is_held = refl

second_is_held : held_of memory served 5 (entry_at 1) ≡ ok second_held
unfolding rune_utxo get_expected get_maybe reader_get encode_key decode_entry apply_batch
    encode_varuint encode_digits to_be_bytes decode_varuint split_at_checked from_be_bytes
    encode_items decode_items decode_entries
second_is_held = refl

both_list_once : All (ListsOnce memory served 5) (script_entries listed 5 (82 ∷ []))
unfolding script_entries
both_list_once = (
  λ held e. subst HasDistinctKeys (ok-injective (sym first_is_held ∙ e)) (refl, (refl, tt)),
  (λ held e. subst HasDistinctKeys (ok-injective (sym second_is_held ∙ e)) (refl, tt), tt),
)

specific_rune_balance-balance_of_example :
    specific_rune_balance memory served listed rune 5 (82 ∷ [])
    ≡ (do found ← all_rune_balances memory served listed 5 (82 ∷ []); ok (balance_of rune found))
specific_rune_balance-balance_of_example =
    specific_rune_balance-balance_of memory served rune 5 listed (82 ∷ []) both_list_once

specific_rune_utxos-holding_example :
    (specific_rune_utxos memory served rune 5 (entry_at 0 ∷ entry_at 1 ∷ []) ≡ (do
      us ← all_rune_utxos memory served 5 (entry_at 0 ∷ entry_at 1 ∷ [])
      ok (holding rune us)))
    × AgreesAt memory served rune 5
        (shown (all_rune_utxos memory served 5 (entry_at 0 ∷ entry_at 1 ∷ [])))
specific_rune_utxos-holding_example =
    specific_rune_utxos-holding memory served rune 5 (entry_at 0 ∷ entry_at 1 ∷ [])

abbrev tip : ℕ → Point
tip height = record { height = height; hash = replicate 32 7 }

abbrev task_of : Bool → FinalizedTask
task_of is_mempool = record {
  write_buffer = (65 ∷ [], set_action (if is_mempool then 2 ∷ [] else 1 ∷ [])) ∷ [];
  original_kvs = some [];
  mempool = is_mempool;
}

abbrev fresh : StorageHandler memory
fresh = record { store = []; previous_timestamp = none }

writes_no_timestamps : (is_mempool : Bool) → LeavesTimestamps (task_of is_mempool)
unfolding encode_key
writes_no_timestamps is_mempool = record {
  distinct = (refl, tt);
  leaves = λ kind. elim kind [ confirmed ↦ refl | mempool_kind ↦ refl ];
}

in_order :
    InOrder memory fresh 1000 1000 16
      (task_of false)
      (task_of true)
      (tip 8)
      (tip 10)
      none
      (some 1234)
unfolding next_timestamp as_u64 new after
in_order = record {
  block_task = refl;
  mempool_task_too = refl;
  leaves = writes_no_timestamps false;
  mempool_leaves = writes_no_timestamps true;
  newest = omega arith;
  later = omega arith;
  fits = (omega arith, refl, omega arith, tt);
  mempool_fits = (omega arith, refl, omega arith, omega arith);
}

abbrev mined : StorageHandler memory
mined = apply_indexing_task memory 1000 fresh (task_of false) (tip 8) 16 none

abbrev with_mempool : StorageHandler memory
with_mempool = apply_indexing_task memory 1000 mined (task_of true) (tip 10) 16 (some 1234)

start_reader-snapshot_example :
    (start_reader memory with_mempool.store false
      ≡ ok (record {
        read_ts = 262144000;
        indexer_info = info_at (entry_of (tip 8) 262144000 none) none [];
      }))
    × ((key : Bytes)
        → memory.get with_mempool.store 262144000 key ≡ memory.get mined.store 262144000 key)
    × ((key : Bytes)
        → memory.get with_mempool.store 262144001 key ≡ value_at memory with_mempool.store key)
    × (start_reader memory with_mempool.store true
        ≡ ok (record {
          read_ts = 262144001;
          indexer_info = info_at (entry_of (tip 8) 262144000 none) (some 1234) (9 ∷ 10 ∷ []);
        }))
unfolding next_timestamp as_u64 new after
start_reader-snapshot_example =
    start_reader-snapshot memory fresh 1000 1000 16 (task_of false) (task_of true) (tip 8) (tip 10)
      none (some 1234) in_order

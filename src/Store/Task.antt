-- ===== src/Store/Task.antt =====
-- src/storage/kv_store.rs: `IndexingTask`, a write buffer over a read of the store at one timestamp,
-- with the original values that an undo needs.
use maestro_symphony.Prelude.{
  ℕ, Option, none, some, Bool, Bytes, list_eq, nat_eq, if◌then◌else◌, Map, lookup, contains_key,
  insert, Result, ok, ◌>>=◌,
}
use maestro_symphony.Codec.{decode_all}
use maestro_symphony.Encdec.Instances.{u128}
use maestro_symphony.Merge.{
  MergeOperation, increment, decrement, apply_operation, apply_merge_to_value,
  combine_merge_operations,
}
use maestro_symphony.Table.{Table, encode_key}
use maestro_symphony.Core.{Error, lift_decoding, PreviousValue, previous_value_of}
use maestro_symphony.Store.Interface.{Db}

pub data StorageAction : Type 0 where
  set_action : Bytes → StorageAction
  delete_action : StorageAction
  merge_action : MergeOperation → StorageAction

abbrev pub WriteBuffer : Type 0
WriteBuffer = Map Bytes StorageAction

abbrev pub OriginalKvs : Type 0
OriginalKvs = Map Bytes PreviousValue

-- The task without its handles of the database: the store is an argument of its operations.
pub record IndexingTask : Type 0 where
  pub read_ts : ℕ
  pub write_buffer : WriteBuffer
  pub original_kvs : Option OriginalKvs
  pub mempool : Bool

pub record FinalizedTask : Type 0 where
  pub write_buffer : WriteBuffer
  pub original_kvs : Option OriginalKvs
  pub mempool : Bool

unfoldable pub finalize : IndexingTask → FinalizedTask
finalize task = record {
  write_buffer = task.write_buffer;
  original_kvs = task.original_kvs;
  mempool = task.mempool;
}

abbrev pub decode_option : {K V : Type 0} → Table K V → Option Bytes → Result Error (Option V)
decode_option t none = ok none
decode_option t (some bytes) = do v ← lift_decoding (decode_all t.value bytes); ok (some v)

abbrev pub base_or_zero : Option Bytes → Result Error ℕ
base_or_zero (some bytes) = lift_decoding (decode_all u128 bytes)
base_or_zero none = ok 0

module _ (db : Db) (s : db.Store) where
  -- A read of the database at the task's timestamp.
  abbrev pub read : IndexingTask → Bytes → Option Bytes
  read task raw_key = db.get s task.read_ts raw_key

  unfoldable pub get_inner :
      {K V : Type 0}
      → Table K V
      → IndexingTask
      → Bytes
      → Option MergeOperation
      → Result Error (Option V)
  get_inner t task encoded_key none = decode_option t (read task encoded_key)
  get_inner t task encoded_key (some op) = do
    base ← base_or_zero (read task encoded_key)
    v ← lift_decoding (decode_all t.value (u128.encode (apply_operation op base)))
    ok (some v)

  -- `get`, by what the write buffer holds of the key.
  abbrev pub get_action :
      {K V : Type 0}
      → Table K V
      → IndexingTask
      → Bytes
      → Option StorageAction
      → Result Error (Option V)
  get_action t task encoded_key (some (set_action value)) = decode_option t (some value)
  get_action t task encoded_key (some delete_action) = ok none
  get_action t task encoded_key (some (merge_action op)) = get_inner t task encoded_key (some op)
  get_action t task encoded_key none = get_inner t task encoded_key none

  unfoldable pub get : {K V : Type 0} → Table K V → IndexingTask → K → Result Error (Option V)
  unfolding get_inner
  get t task key =
      get_action t task (encode_key t key) (lookup (encode_key t key) task.write_buffer)

  -- Only the first change of a key records its original value.
  abbrev pub record_original : IndexingTask → Bytes → OriginalKvs → OriginalKvs
  record_original task raw_key original_kvs =
      if contains_key raw_key original_kvs
      then original_kvs
      else insert raw_key (previous_value_of (read task raw_key)) original_kvs

  unfoldable pub maybe_store_original_kv : IndexingTask → Bytes → IndexingTask
  maybe_store_original_kv task raw_key = record task {
    original_kvs = elim task.original_kvs [
      | none ↦ none
      | some original_kvs ↦ some (record_original task raw_key original_kvs)
    ];
  }

  abbrev pub buffer : IndexingTask → Bytes → StorageAction → IndexingTask
  buffer task encoded_key action = record task {
    write_buffer = insert encoded_key action task.write_buffer;
  }

  -- `set` and `delete` on encoded keys.
  unfoldable pub set_raw : IndexingTask → Bytes → Bytes → IndexingTask
  set_raw task encoded_key encoded_value =
      buffer (maybe_store_original_kv task encoded_key) encoded_key (set_action encoded_value)

  unfoldable pub delete_raw : IndexingTask → Bytes → IndexingTask
  delete_raw task encoded_key =
      buffer (maybe_store_original_kv task encoded_key) encoded_key delete_action

  unfoldable pub set : {K V : Type 0} → Table K V → IndexingTask → K → V → IndexingTask
  set t task key value = set_raw task (encode_key t key) (t.value.encode value)

  unfoldable pub delete : {K V : Type 0} → Table K V → IndexingTask → K → IndexingTask
  delete t task key = delete_raw task (encode_key t key)

  -- What `merge_op` makes of the action that waits for the key.
  abbrev pub merged_action : Option StorageAction → MergeOperation → Result Error StorageAction
  merged_action (some (set_action existing_value)) op = do
    result ← lift_decoding (apply_merge_to_value op existing_value)
    ok (set_action (u128.encode result))
  merged_action (some (merge_action existing_op)) op =
      ok (merge_action (combine_merge_operations existing_op op))
  merged_action (some delete_action) op = ok (merge_action op)
  merged_action none op = ok (merge_action op)

  unfoldable pub merge_raw : IndexingTask → Bytes → MergeOperation → Result Error IndexingTask
  merge_raw task encoded_key op = do
    let stored = maybe_store_original_kv task encoded_key
    action ← merged_action (lookup encoded_key task.write_buffer) op
    ok (buffer stored encoded_key action)

  unfoldable pub increment_by :
      {K V : Type 0} → Table K V → IndexingTask → K → ℕ → Result Error IndexingTask
  increment_by t task key amount = merge_raw task (encode_key t key) (increment amount)

  unfoldable pub decrement_by :
      {K V : Type 0} → Table K V → IndexingTask → K → ℕ → Result Error IndexingTask
  decrement_by t task key amount = merge_raw task (encode_key t key) (decrement amount)

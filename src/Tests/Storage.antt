-- ===== src/Tests/Storage.antt =====
-- src/storage and src/sync/stages/index/rollback on concrete inputs.
use maestro_symphony.Prelude.{
  ℕ, ◌<◌, ◌≡◌, refl, arith, List, [], ◌∷◌, ◌++◌, map, replicate, none, some, true, false, Bytes,
  lex_lt, starts_with, ok,
}
use maestro_symphony.Encdec.VarUInt.{
  to_be_bytes, encode_digits, encode_varuint, decode_varuint, split_at_checked,
}
use maestro_symphony.Encdec.RoundTrip.{decode_varuint-encode_varuint}
use maestro_symphony.Encdec.Order.{encode_varuint-order}
use maestro_symphony.Encdec.Range.{prefix_key_range, is_in_range, prefix_key_range-starts_with}
use maestro_symphony.Table.{encode_key, encode_range}
use maestro_symphony.Timestamp.{Timestamp, new, as_u64, from_u64, after}
use maestro_symphony.Timestamp.Laws.{IsPacked, after-lt, after-clock_back}
use maestro_symphony.Merge.{
  MergeOperation, increment, decrement, apply_operation, combine_merge_operations, merge_operation,
  full_merge, partial_merge,
}
use maestro_symphony.Merge.Combine.{
  apply_operation-combine_merge_operations, combine_merge_operations_loses,
}
use maestro_symphony.Merge.Partial.{full_merge-partial_merge, stored, apply_all}
use maestro_symphony.Encdec.Instances.{u128, encode_items}
use maestro_symphony.Core.{hash_by_height_kv, Point, present, not_present}
use maestro_symphony.Store.{
  get, reader_get, IndexingTask, OriginalKvs, commit_batch, apply_batch, rollback_ops, timestamp_op,
  set_action, delete_action, set_raw, delete_raw, maybe_store_original_kv, begin_indexing_task,
  finalize, apply_indexing_task, next_timestamp,
}
use maestro_symphony.Commit.Reads.{reader_get-apply_indexing_task}
use maestro_symphony.Rollback.{PointWithOriginalKvs, undo_batch}
use maestro_symphony.Rollback.Recorded.{
  TaskOp, set_op, delete_op, run_op, run_ops, IsRecorded, run_ops_from_begin-IsRecorded,
}
use maestro_symphony.Rollback.History.{History, start, commit, value_at, get-undo_batch}
use maestro_symphony.Tests.Database.{memory, Log}

encode_300 : encode_varuint 300 ≡ 2 ∷ 1 ∷ 44 ∷ []
unfolding encode_varuint encode_digits to_be_bytes
encode_300 = refl

-- A padded encoding, which `encode` never writes, is accepted.
decode_padded : decode_varuint (2 ∷ 0 ∷ 5 ∷ 9 ∷ []) ≡ ok (5, 9 ∷ [])
unfolding decode_varuint
decode_padded = refl

decode_varuint-encode_varuint_example :
    decode_varuint (encode_varuint 300 ++ (7 ∷ [])) ≡ ok (300, 7 ∷ [])
decode_varuint-encode_varuint_example = decode_varuint-encode_varuint 300 (7 ∷ []) (omega arith)

encode_varuint-order_example :
    lex_lt (encode_varuint 255 ++ (9 ∷ [])) (encode_varuint 256 ++ []) ≡ true
encode_varuint-order_example = encode_varuint-order 255 256 (9 ∷ []) [] (omega arith) (omega arith)

prefix_key_range-starts_with_example :
    is_in_range (prefix_key_range (67 ∷ 255 ∷ [])) (67 ∷ 255 ∷ 3 ∷ [])
    ≡ starts_with (67 ∷ 255 ∷ 3 ∷ []) (67 ∷ 255 ∷ [])
prefix_key_range-starts_with_example =
    prefix_key_range-starts_with (67 ∷ 255 ∷ []) (67 ∷ 255 ∷ 3 ∷ []) (omega arith)

abbrev noon : Timestamp
noon = record { physical = 1000; logical = 3 }

after-lt_example : (as_u64 noon < as_u64 (after 1000 noon)) × IsPacked (after 1000 noon)
after-lt_example = after-lt 1000 noon (omega arith) (omega arith) (omega arith) (omega arith)

after-clock_back_example : as_u64 (after 999 noon) < as_u64 noon
after-clock_back_example = after-clock_back 999 noon (omega arith) (omega arith) (omega arith)

apply_operation-combine_merge_operations_example :
    apply_operation (combine_merge_operations (decrement 5) (increment 7)) 6
    ≡ apply_operation (increment 7) (apply_operation (decrement 5) 6)
apply_operation-combine_merge_operations_example =
    apply_operation-combine_merge_operations (decrement 5) (increment 7) 6 (omega arith)
      (omega arith)

combine_merge_operations_loses_example :
    apply_operation (combine_merge_operations (decrement 5) (increment 7)) 0
    < apply_operation (increment 7) (apply_operation (decrement 5) 0)
combine_merge_operations_loses_example =
    combine_merge_operations_loses 5 7 0 (omega arith) (omega arith) (omega arith)

abbrev two_operations : List MergeOperation
two_operations = increment 10 ∷ decrement 4 ∷ []

full_merge-partial_merge_example :
    (operand : Bytes) × (partial_merge (map merge_operation.encode two_operations) ≡ some operand)
    × (full_merge (stored none) (operand ∷ [])
        ≡ full_merge (stored none) (map merge_operation.encode two_operations))
    × (full_merge (stored none) (map merge_operation.encode two_operations)
        ≡ some (u128.encode (apply_all two_operations 0)))
full_merge-partial_merge_example =
    full_merge-partial_merge none two_operations (omega arith) (omega arith) (omega arith)
      (omega arith) (omega arith)

-- Two blocks over an empty store: the first sets the keys [1] and [2], the second deletes one and
-- sets the other again.
abbrev key_a : Bytes
key_a = 1 ∷ []

abbrev key_b : Bytes
key_b = 2 ∷ []

abbrev block_at : ℕ → Point
block_at n = record { height = n; hash = n ∷ [] }

abbrev first_ops : List TaskOp
first_ops = set_op key_a (5 ∷ []) ∷ set_op key_b (6 ∷ []) ∷ []

abbrev first_task : IndexingTask
first_task = record {
  read_ts = 18446744073709551615;
  write_buffer = (key_a, set_action (5 ∷ [])) ∷ (key_b, set_action (6 ∷ [])) ∷ [];
  original_kvs = some ((key_a, not_present) ∷ (key_b, not_present) ∷ []);
  mempool = false;
}

first_run : run_ops memory [] first_ops (begin_indexing_task none true) ≡ ok first_task
unfolding run_ops run_op set_raw maybe_store_original_kv begin_indexing_task as_u64 from_u64
first_run = refl

run_ops_from_begin-IsRecorded_example : (kvs : OriginalKvs) × IsRecorded memory [] first_task kvs
run_ops_from_begin-IsRecorded_example =
    run_ops_from_begin-IsRecorded memory [] none first_ops first_task first_run

abbrev first_store : Log
first_store =
    (apply_indexing_task memory 1000 (record { store = []; previous_timestamp = none })
      (finalize first_task) (block_at 1) 16 none).store

abbrev second_ops : List TaskOp
second_ops = delete_op key_a ∷ set_op key_b (7 ∷ []) ∷ []

abbrev second_task : IndexingTask
second_task = record {
  read_ts = as_u64 (new 1000);
  write_buffer = (key_a, delete_action) ∷ (key_b, set_action (7 ∷ [])) ∷ [];
  original_kvs = some ((key_a, present (5 ∷ [])) ∷ (key_b, present (6 ∷ [])) ∷ []);
  mempool = false;
}

second_run :
    run_ops memory first_store second_ops (begin_indexing_task (some (new 1000)) true)
    ≡ ok second_task
unfolding run_ops run_op set_raw delete_raw maybe_store_original_kv begin_indexing_task
    apply_indexing_task finalize commit_batch apply_batch next_timestamp as_u64 new rollback_ops
    timestamp_op encode_key encode_range encode_varuint encode_digits to_be_bytes encode_items
second_run = refl

abbrev second_store : Log
second_store =
    (apply_indexing_task memory 1000
      (record { store = first_store; previous_timestamp = some (new 1000) }) (finalize second_task)
      (block_at 2) 16 none).store

first_kvs : (kvs : OriginalKvs) × IsRecorded memory [] first_task kvs
first_kvs = run_ops_from_begin-IsRecorded memory [] none first_ops first_task first_run

second_kvs : (kvs : OriginalKvs) × IsRecorded memory first_store second_task kvs
second_kvs =
    run_ops_from_begin-IsRecorded memory first_store (some (new 1000)) second_ops second_task
      second_run

abbrev committed : List PointWithOriginalKvs
committed =
    record { point = block_at 2; original_kvs = second_kvs.0 }
    ∷ record { point = block_at 1; original_kvs = first_kvs.0 }
    ∷ []

committed-History : History memory [] committed second_store
unfolding apply_indexing_task next_timestamp as_u64 new after
committed-History =
    commit
      (commit start 1000 none first_task first_kvs.0 (block_at 1) (block_at 1) 16 none first_kvs.1
        (omega arith) (omega arith))
      1000 (some (new 1000)) second_task second_kvs.0 (block_at 2) (block_at 2) 16 none second_kvs.1
      (omega arith) (omega arith)

get-undo_batch_example :
    memory.get (memory.write second_store 262144002 (undo_batch committed)) 262144005 key_b
    ≡ value_at memory [] key_b
unfolding apply_indexing_task next_timestamp as_u64 new after
get-undo_batch_example =
    get-undo_batch memory [] second_store committed 262144002 262144005 key_b committed-History
      (record { not_rollback = refl; not_timestamps = refl }) (omega arith) (omega arith)

abbrev reading_task : IndexingTask
reading_task = record {
  read_ts = 0;
  write_buffer = (67 ∷ 72 ∷ 1 ∷ 7 ∷ [], set_action (replicate 32 7)) ∷ [];
  original_kvs = none;
  mempool = false;
}

reading_key : encode_key hash_by_height_kv 7 ≡ 67 ∷ 72 ∷ 1 ∷ 7 ∷ []
unfolding encode_key encode_varuint encode_digits to_be_bytes
reading_key = refl

reading_get : get memory [] hash_by_height_kv reading_task 7 ≡ ok (some (replicate 32 7))
unfolding get encode_key encode_varuint encode_digits to_be_bytes split_at_checked
reading_get = refl

reader_get-apply_indexing_task_example :
    reader_get memory hash_by_height_kv
      (apply_indexing_task memory 3
        (record { store = []; previous_timestamp = none })
        (finalize reading_task)
        (block_at 7)
        16
        none).store
      786432
      7
    ≡ ok (some (replicate 32 7))
unfolding next_timestamp as_u64 new
reader_get-apply_indexing_task_example =
    reader_get-apply_indexing_task memory 3 (record { store = []; previous_timestamp = none })
      reading_task (block_at 7) 16 none 786432 hash_by_height_kv 7 (some (replicate 32 7))
      (record { keys_distinct = (refl, tt); amounts_fit = (tt, tt) })
      (rw reading_key (record { not_rollback = refl; not_timestamps = refl })) (omega arith)
      (omega arith) (omega arith) reading_get

-- ===== src/Tests/Commit.antt =====
-- src/storage/kv_store.rs and the rollback buffer: reads, counters and rollbacks on concrete inputs.
use maestro_symphony.Store.{multi_get, split_keys, fetch}
use maestro_symphony.Prelude.{
  ==_refl, ℕ, ◌^◌, ◌≡◌, refl, arith, [], ◌∷◌, none, some, false, lookup, list_eq, nat_eq, ok,
}
use maestro_symphony.Encdec.VarUInt.{encode_varuint, decode_varuint, encode_digits, to_be_bytes}
use maestro_symphony.Encdec.Instances.{u64}
use maestro_symphony.Table.{Table, encode_key}
use maestro_symphony.Store.{IndexingTask, get, delete, get_inner, increment_by, merge_action}
use maestro_symphony.Merge.{increment}
use maestro_symphony.Commit.Counters.{counter_table, get-increment_by_deleted}
use maestro_symphony.Rollback.{PointWithOriginalKvs, RollbackBuffer}
use maestro_symphony.Tests.Database.{memory}

abbrev counts : Table ℕ ℕ
counts = counter_table (85 ∷ 0 ∷ []) u64 (2 ^ 64)

abbrev empty_task : IndexingTask
empty_task = record { read_ts = 5; write_buffer = []; original_kvs = some []; mempool = false }

abbrev counting_task : IndexingTask
counting_task = record empty_task {
  write_buffer = (encode_key counts 3, merge_action (increment 4)) ∷ [];
}

waiting :
    lookup (encode_key counts 3) counting_task.write_buffer ≡ some (merge_action (increment 4))
waiting = rw (==_refl (encode_key counts 3)) refl

counting_task_reads : get memory [] counts counting_task 3 ≡ ok (some 4)
unfolding get encode_key encode_varuint encode_digits to_be_bytes get_inner decode_varuint
counting_task_reads = refl

get-increment_by_deleted_example :
    (task' : IndexingTask) × (increment_by memory [] counts
        (delete memory [] counts empty_task 3)
        3
        2
      ≡ ok task')
    × (get memory [] counts task' 3 ≡ ok (some 2))
get-increment_by_deleted_example =
    get-increment_by_deleted memory [] (85 ∷ 0 ∷ []) u64 (2 ^ 64) empty_task 3 2 0 (omega arith)
      refl (omega arith)

abbrev point_at : ℕ → PointWithOriginalKvs
point_at n = record { point = record { height = n; hash = n ∷ [] }; original_kvs = [] }

abbrev three_points : RollbackBuffer
three_points = record {
  points = point_at 9 ∷ point_at 8 ∷ point_at 7 ∷ [];
  size = 18;
  safe_mode = false;
}

two_answers :
    multi_get memory [] counts counting_task (9 ∷ 3 ∷ []) ≡ ok ((3, some 4) ∷ (9, none) ∷ [])
unfolding multi_get split_keys fetch encode_key encode_varuint encode_digits to_be_bytes get_inner
    decode_varuint
two_answers = refl

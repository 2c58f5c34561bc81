-- ===== src/Tests/Worker.antt =====
-- src/sync/stages/index on concrete inputs: one indexer, two blocks and their rollback.
use maestro_symphony.Prelude.{
  subst, ◌≤◌, ap, sym, ◌∙◌, ok-injective, replicate, ℕ, ◌≡◌, refl, arith, List, [], ◌∷◌, none, some,
  true, false, ◌⊎◌, inl, inr, Map, lookup, insert, remove, lookup-insert, lookup-remove, ok,
  Bool-cases,
}
use maestro_symphony.Core.{
  Point, TxoRef, txo_ref_eq, txo_ref_beq, txo_ref_beq_iff, Utxo, hash_by_height_kv, BlockTxs,
}
use maestro_symphony.Store.{set, apply_indexing_task, next_timestamp}
use maestro_symphony.Rollback.{PointWithOriginalKvs}
use maestro_symphony.Worker.Cache.{CacheLib}
use maestro_symphony.Worker.Context.{regtest}
use maestro_symphony.Worker.Index.{ProcessTransaction, prepare, index_txs, run_indexers}
use maestro_symphony.Worker.Stage.{
  roll_back, Outcome, Stage, Clock, ChainEvent, roll_forward, undo_to_point,
}
use maestro_symphony.Worker.Execute.{
  execute, execute_roll_forward, accept_block, index_block, mempool_point,
}
use maestro_symphony.Worker.Chain.{Taken, execute-roll_forward, undo_to_point-mempool}
use maestro_symphony.Timestamp.{new, after, as_u64}
use maestro_symphony.Table.{encode_key}
use maestro_symphony.Worker.Resolve.{
  resolve_inputs, scan_block, scan_inputs, start_scan, input_refs_of, fetch_missing,
}
use maestro_symphony.Worker.Undoes.{IsReady, IsUndone, after_block, commit_time, execute-roll_back}
use maestro_symphony.Worker.Traces.{WritesOnly}
use maestro_symphony.Rollback.Recorded.{set_op, run_ops, run_op}
use maestro_symphony.Worker.Kept.{KeepsOriginals, is_kept, is_kept-set}
use maestro_symphony.Worker.Consistency.{IsConsistent, undone_to}
use maestro_symphony.Worker.Invariant.{execute-IsConsistent}
use maestro_symphony.Tests.Database.{memory}

pub map_insert :
    (c : Map TxoRef Utxo) (r q : TxoRef) (u v : Utxo)
    → lookup q (insert r u c) ≡ some v
    → ((r ≡ q) × (u ≡ v)) ⊎ (lookup q c ≡ some v)
map_insert c r q u v e = elim (Bool-cases (txo_ref_beq r q)) [
  | inl b ↦ inl ((txo_ref_beq_iff r q).0 b, cc (rw (lookup-insert q r u c, b) at e))
  | inr b ↦ inr (rw (lookup-insert q r u c, b) at e)
]

pub map_remove :
    (c : Map TxoRef Utxo) (r q : TxoRef) (v : Utxo)
    → lookup q (remove r c) ≡ some v
    → (txo_ref_beq r q ≡ false) × (lookup q c ≡ some v)
map_remove c r q v e = elim (Bool-cases (txo_ref_beq r q)) [
  | inl b ↦ absurd (cc (rw (lookup-remove q r c, b) at e))
  | inr b ↦ (b, rw (lookup-remove q r c, b) at e)
]

-- A cache that forgets nothing.
abbrev pub map_cache : CacheLib
map_cache = record {
  Cache = Map TxoRef Utxo;
  get = λ c r. lookup r c;
  insert = λ c r u. insert r u c;
  invalidate = λ c r. remove r c;
  wipe_if_mem_usage_high = λ c. c;
  get-insert = map_insert;
  get-invalidate = map_remove;
  get-wipe = λ c q v e. e;
}

-- An indexer that writes the height of the block of each transaction.
abbrev height_indexer : ProcessTransaction memory
height_indexer s task tx block_index ctx =
    ok (set memory s hash_by_height_kv task ctx.point.height tx.tx_id, ctx)

height_indexer-KeepsOriginals : KeepsOriginals memory height_indexer
height_indexer-KeepsOriginals s task tx i ctx task' ctx' e =
    ap (λ r. is_kept r.0) (sym (ok-injective e))
    ∙ is_kept-set memory s hash_by_height_kv task ctx.point.height tx.tx_id

abbrev pub at_height : ℕ → Point
at_height n = record { height = n; hash = n ∷ [] }

abbrev pub near_stage : Stage map_cache memory
near_stage = record {
  handler = record { store = []; previous_timestamp = none };
  network = regtest;
  rollback_buffer = record {
    points = record { point = at_height 7; original_kvs = [] } ∷ [];
    size = 18;
    safe_mode = false;
  };
  max_rollbacks = 16;
  last_processed = at_height 7;
  processed_mempool = false;
  utxo_cache = some [];
  stop_after = none;
}

-- The same stage with mempool blocks.
abbrev mempool_stage : Stage map_cache memory
mempool_stage = record near_stage {
  rollback_buffer = record {
    points =
        record { point = mempool_point (at_height 7); original_kvs = [] }
        ∷ record { point = at_height 7; original_kvs = [] }
        ∷ [];
    size = 18;
    safe_mode = false;
  };
  processed_mempool = true;
}

pub near_stage-IsConsistent : IsConsistent map_cache memory near_stage true
near_stage-IsConsistent = record {
  on_tip = refl;
  bounded = omega arith;
  roomy = omega arith;
  immutable = tt;
}

mempool_stage-IsConsistent : IsConsistent map_cache memory mempool_stage true
mempool_stage-IsConsistent = record {
  on_tip = (refl, refl);
  bounded = omega arith;
  roomy = omega arith;
  immutable = tt;
}

abbrev pub clock : Clock
clock = record { undo = 1000; commit = 1001 }

abbrev pub eighth : BlockTxs
eighth =
    record {
      tx_id = replicate 32 8;
      tx = record {
        is_coinbase = true;
        input = [];
        output = record { value = 5000; script_pubkey = 81 ∷ []; is_op_return = false } ∷ [];
      };
    }
    ∷ []

abbrev pub new_block : ChainEvent
new_block = roll_forward (at_height 8) (7 ∷ []) eighth (at_height 9)

execute-IsConsistent_example :
    IsConsistent map_cache memory
      (execute map_cache memory clock (height_indexer ∷ []) near_stage true new_block).stage
      (execute map_cache memory clock (height_indexer ∷ []) near_stage true new_block).mutable
execute-IsConsistent_example =
    execute-IsConsistent map_cache memory clock (height_indexer ∷ []) near_stage true new_block
      (height_indexer-KeepsOriginals, tt) near_stage-IsConsistent (omega arith)

execute-roll_forward_example :
    Taken map_cache memory
      (at_height 7)
      (at_height 8)
      (7 ∷ [])
      (execute map_cache memory clock (height_indexer ∷ []) mempool_stage true new_block)
execute-roll_forward_example =
    execute-roll_forward map_cache memory clock (height_indexer ∷ []) mempool_stage true
      (at_height 8) (7 ∷ []) eighth (at_height 9)

undo_to_point-mempool_example :
    (m : PointWithOriginalKvs) × (rest : List PointWithOriginalKvs)
    × (mempool_stage.rollback_buffer.points ≡ m ∷ rest)
    × (m.point ≡ mempool_point (at_height 7))
    × (undo_to_point map_cache memory 1000 mempool_stage (at_height 7)
        ≡ (undone_to map_cache memory 1000 mempool_stage (at_height 7) (m ∷ []) rest, ok tt))
undo_to_point-mempool_example =
    undo_to_point-mempool map_cache memory 1000 mempool_stage true mempool_stage-IsConsistent refl

height_indexer-WritesOnly : WritesOnly memory height_indexer
unfolding set run_ops run_op
height_indexer-WritesOnly s task tx i ctx task' ctx' e = (
  set_op (encode_key hash_by_height_kv ctx.point.height) tx.tx_id ∷ [],
  ap ok (ap (λ r. r.0) (ok-injective e)),
)

abbrev eighth_taken : Outcome map_cache memory
eighth_taken =
    after_block map_cache memory clock (height_indexer ∷ []) near_stage (at_height 8) (7 ∷ [])
      eighth (at_height 9)

near_stage-IsReady : IsReady map_cache memory 1001 near_stage
near_stage-IsReady = record {
  no_mempool = refl;
  on_tip = refl;
  room = omega arith;
  reads_newest = omega arith;
  writes_newest = omega arith;
}

eighth_last : eighth_taken.stage.last_processed.height ≡ 8
unfolding execute execute_roll_forward accept_block index_block prepare resolve_inputs scan_block
    scan_inputs start_scan input_refs_of fetch_missing index_txs run_indexers
    maestro_symphony.Worker.Context.new
eighth_last = refl

eighth_time : eighth_taken.stage.handler.previous_timestamp ≡ some (new 1001)
unfolding execute execute_roll_forward accept_block index_block prepare resolve_inputs scan_block
    scan_inputs start_scan input_refs_of fetch_missing index_txs run_indexers apply_indexing_task
    next_timestamp maestro_symphony.Worker.Context.new
eighth_time = refl

first_time : commit_time map_cache memory 1001 near_stage ≡ 262406144
unfolding as_u64 next_timestamp new
first_time = refl

later_time : commit_time map_cache memory 1002 eighth_taken.stage ≡ 262668288
unfolding as_u64 next_timestamp new after
later_time = ap (λ t. as_u64 (next_timestamp 1002 t)) eighth_time

execute-roll_back_example :
    IsUndone map_cache memory near_stage 18446744073709551615 (67 ∷ 72 ∷ 2 ∷ []) (
      execute map_cache memory
        (record { undo = 1002; commit = 1002 })
        (height_indexer ∷ [])
        eighth_taken.stage
        eighth_taken.mutable
        (roll_back (at_height 7)))
execute-roll_back_example =
    execute-roll_back map_cache memory clock (record { undo = 1002; commit = 1002 })
      (height_indexer ∷ []) near_stage (at_height 8) (7 ∷ []) eighth (at_height 9)
      18446744073709551615 (67 ∷ 72 ∷ 2 ∷ []) (height_indexer-WritesOnly, tt) near_stage-IsReady
      (record { not_rollback = refl; not_timestamps = refl })
      (λ e. absurd (omega (arith, eighth_last, ap (λ p. p.height) e)))
      (subst (λ n. commit_time map_cache memory 1001 near_stage ≤ n) (sym later_time)
        (subst (λ n. n ≤ 262668288) (sym first_time) (omega arith)))
      (subst (λ n. n ≤ 18446744073709551615) (sym later_time) (omega arith))

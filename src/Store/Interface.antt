-- ===== src/Store/Interface.antt =====
-- What src/storage/kv_store.rs and src/sync/stages/index use of RocksDB, a third-party library: one
-- column family with user timestamps and the merge operator of merge_operation.rs.
use maestro_symphony.Prelude.{
  ℕ, ◌≤◌, ◌<◌, ◌≡◌, List, [], ◌∷◌, Option, none, some, not, ◌&&◌, Bytes, lex_lt, list_beq, nat_eq,
  if◌then◌else◌,
}
use maestro_symphony.Encdec.Range.{KeyRange}
use maestro_symphony.Merge.{full_merge}

-- The entries of a `WriteBatch`.
pub data BatchOp : Type 0 where
  put_cf : Bytes → Bytes → BatchOp
  delete_cf : Bytes → BatchOp
  merge_cf : Bytes → Bytes → BatchOp
  delete_range_cf : KeyRange → BatchOp

abbrev pub merged : Option Bytes → Option (Option Bytes)
merged none = none
merged (some v) = some (some v)

-- The value of `key` after the operation, from its value before; `none` where the merge operator
-- refuses, and nothing is known of the value.
abbrev pub apply_op : BatchOp → Bytes → Option Bytes → Option (Option Bytes)
apply_op (put_cf k v) key old = some (if list_beq k key then some v else old)
apply_op (delete_cf k) key old = some (if list_beq k key then none else old)
apply_op (merge_cf k operand) key old =
    if list_beq k key then merged (full_merge old (operand ∷ [])) else some old
apply_op (delete_range_cf r) key old =
    some (if not (lex_lt key r.start) && lex_lt key r.end then none else old)

-- What comes after an operation, on the value that it leaves.
abbrev pub and_then :
    Option (Option Bytes) → (Option Bytes → Option (Option Bytes)) → Option (Option Bytes)
and_then none f = none
and_then (some v) f = f v

unfoldable pub apply_batch : List BatchOp → Bytes → Option Bytes → Option (Option Bytes)
apply_batch [] key old = some old
apply_batch (op ∷ ops) key old = and_then (apply_op op key old) (apply_batch ops key)

-- A database: what a read at a timestamp finds of a key, the newest timestamp that was written,
-- and an atomic batch at a timestamp. The documented behaviour: a batch that is not older than
-- what was written shows to the reads at its timestamp and later, in the batch's order, and to no
-- earlier read.
pub record Db : Type 1 where
  pub Store : Type 0
  pub get : Store → ℕ → Bytes → Option Bytes
  pub newest : Store → ℕ
  pub write : Store → ℕ → List BatchOp → Store
  pub newest-write :
      (s : Store) (ts : ℕ) (ops : List BatchOp) → newest s ≤ ts → newest (write s ts ops) ≡ ts
  pub get-write :
      (s : Store) (ts : ℕ) (ops : List BatchOp) (read_ts : ℕ) (key : Bytes) (v : Option Bytes)
      → newest s ≤ ts
      → ts ≤ read_ts
      → apply_batch ops key (get s read_ts key) ≡ some v
      → get (write s ts ops) read_ts key ≡ v
  pub get-write_before :
      (s : Store) (ts : ℕ) (ops : List BatchOp) (read_ts : ℕ) (key : Bytes)
      → newest s ≤ ts
      → read_ts < ts
      → get (write s ts ops) read_ts key ≡ get s read_ts key
  -- Past the newest write all reads agree.
  pub get-settled :
      (s : Store) (read_ts : ℕ) (key : Bytes)
      → newest s ≤ read_ts
      → get s read_ts key ≡ get s (newest s) key

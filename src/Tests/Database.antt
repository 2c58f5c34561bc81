-- ===== src/Tests/Database.antt =====
-- A database in memory that behaves as `Db` asks: its batches, newest first.
use maestro_symphony.Prelude.{
  ℕ, ◌≤◌, ◌<◌, ◌≡◌, refl, arith, List, [], ◌∷◌, Option, none, some, Bytes, leb, if◌then◌else◌, max,
}
use maestro_symphony.Store.{Db, BatchOp, apply_batch}

abbrev pub Log : Type 0
Log = List (ℕ × List BatchOp)

abbrev pub known : Option (Option Bytes) → Option Bytes
known none = none
known (some v) = v

abbrev pub log_get : Log → ℕ → Bytes → Option Bytes
log_get [] r key = none
log_get ((ts, ops) ∷ s) r key =
    let before = log_get s r key in if leb ts r then known (apply_batch ops key before) else before

abbrev pub log_newest : Log → ℕ
log_newest [] = 0
log_newest ((ts, ops) ∷ s) = max ts (log_newest s)

pub log_settled :
    (s : Log) (r key_time : ℕ) (key : Bytes)
    → log_newest s ≤ r
    → log_newest s ≤ key_time
    → log_get s r key ≡ log_get s key_time key
log_settled [] r q key h k = refl
log_settled ((ts, ops) ∷ s) r q key h k = ground (arith, log_settled s r q key)

pub log_newest-write :
    (s : Log) (ts : ℕ) (ops : List BatchOp) → log_newest s ≤ ts → log_newest ((ts, ops) ∷ s) ≡ ts
log_newest-write s ts ops h = omega arith

pub log_get-write :
    (s : Log) (ts : ℕ) (ops : List BatchOp) (r : ℕ) (key : Bytes) (v : Option Bytes)
    → log_newest s ≤ ts
    → ts ≤ r
    → apply_batch ops key (log_get s r key) ≡ some v
    → log_get ((ts, ops) ∷ s) r key ≡ v
log_get-write s ts ops r key v h le e = ground arith

pub log_get-write_before :
    (s : Log) (ts : ℕ) (ops : List BatchOp) (r : ℕ) (key : Bytes)
    → log_newest s ≤ ts
    → r < ts
    → log_get ((ts, ops) ∷ s) r key ≡ log_get s r key
log_get-write_before s ts ops r key h lt = ground arith

abbrev pub memory : Db
memory = record {
  Store = Log;
  get = log_get;
  newest = log_newest;
  write = λ s ts ops. (ts, ops) ∷ s;
  newest-write = log_newest-write;
  get-write = log_get-write;
  get-write_before = log_get-write_before;
  get-settled = λ s r key h. log_settled s r (log_newest s) key h (omega arith);
}

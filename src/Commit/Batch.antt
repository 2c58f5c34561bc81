-- ===== src/Commit/Batch.antt =====
-- src/storage/kv_store.rs: the write batch of a commit, key by key.
use maestro_symphony.Prelude.{
  ℕ, ◌≡◌, refl, sym, arith, List, [], ◌∷◌, ◌++◌, map, subst, Option, none, some, true, false, not,
  ◌&&◌, Bytes, All, lex_lt, starts_with, list_beq, list_beq_iff, nat_eq, list_eq, if◌then◌else◌,
  lookup, Map, HasDistinctKeys, Bool-cases, Option-cases, inl, inr,
}
use maestro_symphony.Store.{
  BatchOp, apply_op, apply_batch, and_then, StorageAction, set_action, delete_action, merge_action,
  WriteBuffer, FinalizedTask, flush_action, persist_original, gc_op, rollback_ops, timestamp_op,
  commit_batch,
}
use maestro_symphony.Core.{Point, PreviousValue}
use maestro_symphony.Table.{encode_key, encode_range}

pub apply_batch-append :
    (xs ys : List BatchOp) (key : Bytes) (v : Option Bytes)
    → apply_batch (xs ++ ys) key v ≡ and_then (apply_batch xs key v) (apply_batch ys key)
unfolding apply_batch
apply_batch-append [] ys key v = refl
apply_batch-append (op ∷ xs) ys key v = elim (Option-cases (apply_op op key v)) [
  | inl e ↦ rw (e)
  | inr (w, e) ↦ rw (e) (apply_batch-append xs ys key w)
]

abbrev pub Keeps : Bytes → BatchOp → Type 0
Keeps key op = (v : Option Bytes) → apply_op op key v ≡ some v

pub apply_batch-Keeps :
    (ops : List BatchOp) (key : Bytes) (v : Option Bytes)
    → All (Keeps key) ops
    → apply_batch ops key v ≡ some v
unfolding apply_batch
apply_batch-Keeps [] key v h = refl
apply_batch-Keeps (op ∷ ops) key v h = rw (h.0 v) (apply_batch-Keeps ops key v h.1)

pub All-append {ℓ} :
    {A : Type 0} (P : A → Type ℓ) (xs ys : List A) → All P xs → All P ys → All P (xs ++ ys)
All-append P [] ys hx hy = hy
All-append P (x ∷ xs) ys hx hy = (hx.0, All-append P xs ys hx.1 hy)

pub list_beq-prefix : (p x key : Bytes) → starts_with key p ≡ false → list_beq (p ++ x) key ≡ false
list_beq-prefix [] x key h = cc
list_beq-prefix (b ∷ p) x [] h = refl
list_beq-prefix (b ∷ p) x (c ∷ key) h = ground (arith, list_beq-prefix p x key)

pub not_in_range-prefix :
    (p e key : Bytes)
    → starts_with key p ≡ false
    → (not (lex_lt key p) && lex_lt key (p ++ e)) ≡ false
not_in_range-prefix [] e key h = cc
not_in_range-prefix (b ∷ p) e [] h = refl
not_in_range-prefix (b ∷ p) e (c ∷ key) h = ground (arith, not_in_range-prefix p e key)

abbrev pub rollback_prefix : Bytes
rollback_prefix = 67 ∷ 82 ∷ []

abbrev pub timestamps_prefix : Bytes
timestamps_prefix = 67 ∷ 84 ∷ []

-- A key of neither the persistent rollback buffer nor the table of timestamps.
pub record IsDataKey (key : Bytes) : Type 0 where
  pub not_rollback : starts_with key rollback_prefix ≡ false
  pub not_timestamps : starts_with key timestamps_prefix ≡ false

persist_originals-Keeps :
    (height : ℕ) (hash key : Bytes) (kvs : Map Bytes PreviousValue)
    → starts_with key rollback_prefix ≡ false
    → All (Keeps key) (map (persist_original height hash) kvs)
unfolding encode_key
persist_originals-Keeps height hash key [] h = tt
persist_originals-Keeps height hash key (e ∷ kvs) h = (
  λ v. rw (list_beq-prefix rollback_prefix _ key h),
  persist_originals-Keeps height hash key kvs h,
)

gc_op-Keeps :
    (point : Point) (n : ℕ) (key : Bytes)
    → starts_with key rollback_prefix ≡ false
    → Keeps key (gc_op point n)
unfolding encode_range
gc_op-Keeps point n key h v = rw (not_in_range-prefix rollback_prefix _ key h)

pub rollback_ops-Keeps :
    (task : FinalizedTask) (point : Point) (n : ℕ) (key : Bytes)
    → starts_with key rollback_prefix ≡ false
    → All (Keeps key) (rollback_ops task point n)
unfolding rollback_ops
rollback_ops-Keeps task point n key h = elim (Option-cases task.original_kvs) [
  | inl e ↦ rw e tt
  | inr (kvs, e) ↦
      rw e (All-append (Keeps key) _ _ (persist_originals-Keeps _ _ key kvs h) collected)
]
  where
    collected : All (Keeps key) (if task.mempool then [] else (gc_op point n ∷ []))
    collected = elim (Bool-cases task.mempool) [
      | inl m ↦ rw m tt
      | inr m ↦ rw m (gc_op-Keeps point n key h, tt)
    ]

timestamp_op-Keeps :
    (task : FinalizedTask) (point : Point) (ts : ℕ) (m : Option ℕ) (key : Bytes)
    → IsDataKey key
    → Keeps key (timestamp_op task point ts m)
unfolding timestamp_op encode_key
timestamp_op-Keeps task point ts m key h v =
    rw (list_beq-prefix timestamps_prefix _ key h.not_timestamps)

-- What the flush of a write buffer does to a key.
abbrev pub flushed : Option StorageAction → Bytes → Option Bytes → Option (Option Bytes)
flushed none key v = some v
flushed (some action) key v = apply_op (flush_action (key, action)) key v

apply_op-other :
    (k key : Bytes) (a : StorageAction) (v : Option Bytes)
    → list_beq k key ≡ false
    → apply_op (flush_action (k, a)) key v ≡ some v
apply_op-other k key (set_action x) v h = rw h
apply_op-other k key delete_action v h = rw h
apply_op-other k key (merge_action op) v h = rw h

flush_others :
    (buffer : WriteBuffer) (key : Bytes) (v : Option Bytes)
    → lookup key buffer ≡ none
    → apply_batch (map flush_action buffer) key v ≡ some v
unfolding apply_batch
flush_others [] key v h = refl
flush_others ((k, a) ∷ buffer) key v h = elim (Bool-cases (list_beq k key)) [
  | inl e ↦ absurd (found e)
  | inr e ↦ rw (apply_op-other k key a v e) (flush_others buffer key v (rw e at h))
]
  where
    found : list_beq k key ≡ true → ⊥
    found e = cc (rw e at h)

flush_first :
    (buffer : WriteBuffer) (key : Bytes) (a : StorageAction) (v : Option Bytes)
    → lookup key buffer ≡ none
    → apply_batch (map flush_action ((key, a) ∷ buffer)) key v
      ≡ apply_op (flush_action (key, a)) key v
unfolding apply_batch
flush_first buffer key a v h = elim (Option-cases (apply_op (flush_action (key, a)) key v)) [
  | inl e ↦ rw e
  | inr (w, e) ↦ rw e (flush_others buffer key w h)
]

pub apply_batch-flush :
    (buffer : WriteBuffer) (key : Bytes) (v : Option Bytes)
    → HasDistinctKeys buffer
    → apply_batch (map flush_action buffer) key v ≡ flushed (lookup key buffer) key v
unfolding apply_batch
apply_batch-flush [] key v h = refl
apply_batch-flush ((k, a) ∷ buffer) key v h = elim (Bool-cases (list_beq k key)) [
  | inl e ↦
      let same : k ≡ key = (list_beq_iff k key).0 e in
      rw e (
        subst
          (λ x.
            apply_batch (map flush_action ((x, a) ∷ buffer)) key v
            ≡ apply_op (flush_action (key, a)) key v)
          (sym same) (flush_first buffer key a v (subst (λ x. lookup x buffer ≡ none) same h.0)))
  | inr e ↦ rw (e, apply_op-other k key a v e) (apply_batch-flush buffer key v h.1)
]

-- On a key of the data tables the batch of a commit does what the write buffer holds for it.
pub apply_batch-commit_batch :
    (task : FinalizedTask) (point : Point) (max_rollback ts : ℕ) (m : Option ℕ) (key : Bytes)
    (v : Option Bytes)
    → HasDistinctKeys task.write_buffer
    → IsDataKey key
    → apply_batch (commit_batch task point max_rollback ts m) key v
      ≡ flushed (lookup key task.write_buffer) key v
unfolding commit_batch
apply_batch-commit_batch task point max_rollback ts m key v hd h =
    rw (apply_batch-append _ _ key v, apply_batch-flush task.write_buffer key v hd)
      (rest (flushed (lookup key task.write_buffer) key v))
  where
    bookkeeping : List BatchOp
    bookkeeping = rollback_ops task point max_rollback ++ (timestamp_op task point ts m ∷ [])

    kept : All (Keeps key) bookkeeping
    kept =
        All-append (Keeps key) _ _ (rollback_ops-Keeps task point max_rollback key h.not_rollback)
          (timestamp_op-Keeps task point ts m key h, tt)

    rest : (o : Option (Option Bytes)) → and_then o (apply_batch bookkeeping key) ≡ o
    rest none = refl
    rest (some w) = apply_batch-Keeps bookkeeping key w kept

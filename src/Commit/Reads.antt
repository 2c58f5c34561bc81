-- ===== src/Commit/Reads.antt =====
-- src/storage/kv_store.rs: the reads of an indexing task against those after its commit.
use maestro_symphony.Prelude.{
  ok-injective, ℕ, ◌^◌, ◌<◌, ◌≤◌, ◌≡◌, refl, sym, ap, ◌∙◌, subst, arith, List, [], ◌∷◌, Option,
  none, some, Bytes, All, lookup, Map, Eq, ◌==◌, list_eq, nat_eq, HasDistinctKeys, Bool-cases, inl,
  inr, ok, err, Result, Result-cases, ==_refl,
}
use maestro_symphony.Codec.{decode_all, DecodingError}
use maestro_symphony.Encdec.Instances.{u128}
use maestro_symphony.Merge.{
  MergeOperation, merge_operation, apply_operation, full_merge, merge_operands,
}
use maestro_symphony.Merge.Partial.{amount_of, decode_all-operation}
use maestro_symphony.Table.{Table, encode_key}
use maestro_symphony.Core.{Error, Point, lift_decoding}
use maestro_symphony.Timestamp.{as_u64}
use maestro_symphony.Store.{
  Db, StorageAction, set_action, delete_action, merge_action, IndexingTask, finalize, get,
  get_action, get_inner, decode_option, base_or_zero, next_timestamp, StorageHandler,
  apply_indexing_task, reader_get,
}
use maestro_symphony.Commit.Batch.{IsDataKey, flushed, apply_batch-commit_batch}

abbrev pub FitsAction : StorageAction → Type 0
FitsAction (set_action v) = Unit
FitsAction delete_action = Unit
FitsAction (merge_action op) = amount_of op < 2 ^ 128

-- Every key stands once in the write buffer, and every amount is a u128.
pub record IsWellFormed (task : IndexingTask) : Type 0 where
  pub keys_distinct : HasDistinctKeys task.write_buffer
  pub amounts_fit : All (λ e. FitsAction e.1) task.write_buffer

pub All-lookup :
    {K V : Type 0} ⦃e : Eq K⦄ (P : V → Type 0) (m : Map K V) (k : K) (v : V)
    → All (λ e. P e.1) m
    → lookup k m ≡ some v
    → P v
All-lookup P [] k v h q = cc
All-lookup P ((j, w) ∷ m) k v h q = elim (Bool-cases (j == k)) [
  | inl e ↦ subst P (cc (rw e at q)) h.0
  | inr e ↦ All-lookup P m k v h.1 (rw e at q)
]

lift_decoding-eq_ok :
    {A : Type 0} (r : Result DecodingError A) (a : A) → lift_decoding r ≡ ok a → r ≡ ok a
lift_decoding-eq_ok (ok x) a e = ap ok (ok-injective e)
lift_decoding-eq_ok (err x) a e = cc

abbrev to_list : {A : Type 0} → Option A → List A
to_list none = []
to_list (some a) = a ∷ []

full_merge-operation :
    (op : MergeOperation) (base : Option Bytes) (n : ℕ)
    → amount_of op < 2 ^ 128
    → base_or_zero base ≡ ok n
    → full_merge base (merge_operation.encode op ∷ []) ≡ some (u128.encode (apply_operation op n))
unfolding full_merge merge_operands
full_merge-operation op none n h e =
    rw (decode_all-operation op h)
      (ap (λ x. some (u128.encode (apply_operation op x))) (ok-injective e))
full_merge-operation op (some b) n h e =
    rw (lift_decoding-eq_ok (decode_all u128 b) n e) (rw (decode_all-operation op h))

abbrev action_result : {K V : Type 0} → Table K V → Option Bytes → Result Error (Option V)
action_result t v = decode_option t v

-- A flushed action leaves what `get` decoded.
flushed-get_action :
    (db : Db) (s : db.Store) {K V : Type 0} (t : Table K V) (task : IndexingTask) (key : Bytes)
    (action : Option StorageAction) (base : Option Bytes) (r : Option V)
    → All FitsAction (to_list action)
    → db.get s task.read_ts key ≡ base
    → get_action db s t task key action ≡ ok r
    → (w : Option Bytes) × (flushed action key base ≡ some w) × (decode_option t w ≡ ok r)
unfolding get_inner
flushed-get_action db s t task key none base r h eb e = (base, refl, rw (← eb) e)
flushed-get_action db s t task key (some (set_action v)) base r h eb e =
    (some v, rw (==_refl key), e)
flushed-get_action db s t task key (some delete_action) base r h eb e = (none, rw (==_refl key), e)
flushed-get_action db s t task key (some (merge_action op)) base r h eb e =
    elim (Result-cases (base_or_zero base)) [
      | inl (n, q) ↦ (
        some (u128.encode (apply_operation op n)),
        rw (==_refl key, full_merge-operation op base n h.0 q),
        rw (eb, q) at e,
      )
      | inr (x, q) ↦ absurd (refused x q)
    ]
  where
    refused : (x : Error) → base_or_zero base ≡ err x → ⊥
    refused x q = cc (rw (eb, q) at e)

-- Let an indexing task read all that was written before it, its pending writes have distinct keys and
-- amounts that are u128s, and the timestamp of its commit not be below any before it, as when the
-- clock does not go back. Then what the task reads of a data key, its own pending writes included, is
-- what a reader of the store that the commit leaves finds, at the commit's timestamp and later.
pub reader_get-apply_indexing_task :
    (db : Db) (now : ℕ) (h : StorageHandler db) (task : IndexingTask) (point : Point)
    (max_rollback : ℕ) (m : Option ℕ) (read_ts : ℕ) {K V : Type 0} (t : Table K V) (key : K)
    (r : Option V)
    → IsWellFormed task
    → IsDataKey (encode_key t key)
    → db.newest h.store ≤ task.read_ts
    → db.newest h.store ≤ as_u64 (next_timestamp now h.previous_timestamp)
    → as_u64 (next_timestamp now h.previous_timestamp) ≤ read_ts
    → get db h.store t task key ≡ ok r
    → reader_get db t
        (apply_indexing_task db now h (finalize task) point max_rollback m).store
        read_ts
        key
      ≡ ok r
unfolding reader_get apply_indexing_task get finalize
reader_get-apply_indexing_task db now h task point max_rollback m read_ts t key r wf dk nt nc cr e =
    let raw : Bytes = encode_key t key in
    let ts : ℕ = as_u64 (next_timestamp now h.previous_timestamp) in
    let settled : db.get h.store task.read_ts raw ≡ db.get h.store read_ts raw =
      db.get-settled h.store task.read_ts raw nt
      ∙ sym (db.get-settled h.store read_ts raw (omega arith)) in
    let (w, f, d) =
      flushed-get_action db h.store t task raw (lookup raw task.write_buffer) _ r
        (fits (lookup raw task.write_buffer) refl) settled e in
    rw
      (db.get-write h.store ts _ read_ts raw w nc cr (
        apply_batch-commit_batch (finalize task) point max_rollback ts m raw _ wf.keys_distinct dk
        ∙ f))
      d
  where
    fits :
        (a : Option StorageAction)
        → lookup (encode_key t key) task.write_buffer ≡ a
        → All FitsAction (to_list a)
    fits none q = tt
    fits (some a) q =
        (All-lookup FitsAction task.write_buffer (encode_key t key) a wf.amounts_fit q, tt)

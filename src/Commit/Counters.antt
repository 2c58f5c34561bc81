-- ===== src/Commit/Counters.antt =====
-- src/storage/kv_store.rs: what an indexing task reads of a counter after an increment.
use maestro_symphony.Prelude.{
  ok-injective, ℕ, ◌+◌, ◌^◌, ◌<◌, ◌≤◌, ◌≡◌, ◌≢◌, refl, sym, ap, ◌∙◌, arith, Option, none, some,
  Bytes, inl, inr, lookup, lookup-insert, Result, ok, Result-cases, list_eq, nat_eq, ==_refl, subst,
}
use maestro_symphony.Codec.{Codec, decode_all, decode_all-encode}
use maestro_symphony.Encdec.VarUInt.{decode_varuint}
use maestro_symphony.Encdec.Instances.{u128, varuint_codec}
use maestro_symphony.Encdec.Laws.{varuint_codec-IsLawful}
use maestro_symphony.Merge.{
  MergeOperation, increment, decrement, apply_operation, combine_merge_operations,
  apply_merge_to_value,
}
use maestro_symphony.Merge.Combine.{FitsOn, apply_operation-combine_merge_operations}
use maestro_symphony.Merge.Partial.{value_or_zero}
use maestro_symphony.Table.{Table, encode_key}
use maestro_symphony.Core.{Error}
use maestro_symphony.Store.{
  Db, IndexingTask, StorageAction, set_action, delete_action, merge_action, get, get_action,
  get_inner, buffer, read, decode_option, base_or_zero, merged_action, maybe_store_original_kv,
  merge_raw, increment_by, delete, delete_raw,
}

-- A table whose values are unsigned integers below `limit`.
abbrev pub counter_table : {K : Type 0} → Bytes → Codec K → ℕ → Table K ℕ
counter_table prefix key limit = record { prefix = prefix; key = key; value = varuint_codec limit }

decode_u128 :
    (limit : ℕ) (b : Bytes) (n : ℕ)
    → limit ≤ 2 ^ 128
    → decode_all (varuint_codec limit) b ≡ ok n
    → (decode_all u128 b ≡ ok n) × (n < limit)
decode_u128 limit b n h e = elim (Result-cases (decode_varuint b)) [
  | inl (p, q) ↦ ground (arith, q)
  | inr (x, q) ↦ ground (arith, q)
]

-- The amount that the task reads of the key, as a u128.
abbrev pub counted :
    {K V : Type 0} → (db : Db) → db.Store → Table K V → IndexingTask → K → Result Error ℕ
counted db s t task key = base_or_zero (db.get s task.read_ts (encode_key t key))

-- What waits for the key, if it is a merge, does not saturate on the stored amount.
abbrev pub PendingFits : Option StorageAction → ℕ → Type 0
PendingFits (some (merge_action op)) n = (n < 2 ^ 128) × FitsOn op n
PendingFits _ n = Unit

amount_read :
    (op : MergeOperation) (n m : ℕ)
    → n < 2 ^ 128
    → FitsOn op n
    → decode_all u128 (u128.encode (apply_operation op n)) ≡ ok m
    → apply_operation op n ≡ m
amount_read op n m h f e = cc (
  decode_all-encode u128 (λ v. v < 2 ^ 128) (apply_operation op n)
      (varuint_codec-IsLawful (2 ^ 128) (omega arith)) (bounded op f),
  e,
)
  where
    bounded : (op : MergeOperation) → FitsOn op n → apply_operation op n < 2 ^ 128
    bounded (increment a) f = omega arith
    bounded (decrement a) f = omega arith

module _ (db : Db) (s : db.Store) {K : Type 0} (prefix : Bytes) (key_codec : Codec K) (limit : ℕ)
    (fits : limit ≤ 2 ^ 128) (task : IndexingTask) (key : K) where
  abbrev t : Table K ℕ
  t = counter_table prefix key_codec limit

  abbrev raw : Bytes
  raw = encode_key t key

  -- `get` after `action` was put into the buffer for the key.
  get-buffer :
      (action : StorageAction) (r : Result Error (Option ℕ))
      → get_action db s t task raw (some action) ≡ r
      → get db s t (buffer db s (maybe_store_original_kv db s task raw) raw action) key ≡ r
  unfolding get maybe_store_original_kv get_inner
  get-buffer (set_action v) r e =
      rw (lookup-insert raw raw (set_action v) task.write_buffer, ==_refl raw) e
  get-buffer delete_action r e =
      rw (lookup-insert raw raw delete_action task.write_buffer, ==_refl raw) e
  get-buffer (merge_action op) r e =
      rw (lookup-insert raw raw (merge_action op) task.write_buffer, ==_refl raw) e

  decode_encoded : (n : ℕ) → n < limit → decode_all (varuint_codec limit) (u128.encode n) ≡ ok n
  decode_encoded n h =
      decode_all-encode (varuint_codec limit) (λ v. v < limit) n
        (varuint_codec-IsLawful limit (omega arith)) h

  -- A decoded amount is the u128 that the bytes hold.
  decode_option-some :
      (b : Bytes) (r : Option ℕ)
      → decode_option t (some b) ≡ ok r
      → (m : ℕ) × (r ≡ some m) × (decode_all u128 b ≡ ok m)
  decode_option-some b r e = elim (Result-cases (decode_all (varuint_codec limit) b)) [
    | inl (m, q) ↦ (m, sym (ok-injective (rw q at e)), (decode_u128 limit b m fits q).0)
    | inr (x, q) ↦ absurd (cc (rw q at e))
  ]

  read_amount :
      (v : Option Bytes) (r : Option ℕ) (n : ℕ)
      → decode_option t v ≡ ok r
      → base_or_zero v ≡ ok n
      → n ≡ value_or_zero r
  read_amount none r n e c = sym (ok-injective c) ∙ ap value_or_zero (ok-injective e)
  read_amount (some b) r n e c =
      let (m, q, d) = decode_option-some b r e in rw q (sym (ok-injective (rw d at c)))

  -- `get` of a buffered amount.
  decode_sum : (m : ℕ) → m < limit → decode_option t (some (u128.encode m)) ≡ ok (some m)
  decode_sum m h = rw (decode_encoded m h)

  saturated :
      (n : ℕ) (r : Option ℕ) (a : ℕ)
      → n ≡ value_or_zero r
      → value_or_zero r + a < limit
      → decode_option t (some (u128.encode (apply_operation (increment a) n)))
        ≡ ok (some (value_or_zero r + a))
  saturated n r a e h =
      subst (λ w. decode_option t (some (u128.encode w)) ≡ ok (some (value_or_zero r + a)))
        (omega (arith, e, h, fits)) (decode_sum (value_or_zero r + a) h)

  -- What `merge_op` buffers, and what `get` makes of it.
  increment_pending :
      (pending : Option StorageAction) (a n : ℕ) (r : Option ℕ)
      → pending ≢ some delete_action
      → get_action db s t task raw pending ≡ ok r
      → counted db s t task key ≡ ok n
      → PendingFits pending n
      → value_or_zero r + a < limit
      → (action : StorageAction) × (merged_action db s pending (increment a) ≡ ok action)
        × (get_action db s t task raw (some action) ≡ ok (some (value_or_zero r + a)))
  unfolding get_inner
  increment_pending none a n r nd e c p h =
      let same : n ≡ value_or_zero r = read_amount (read db s task raw) r n e c in
      (merge_action (increment a), refl, rw c (saturated n r a same h))
  increment_pending (some (set_action v)) a n r nd e c p h =
      let (m, q, d) = decode_option-some v r e in
      (
        set_action (u128.encode (apply_operation (increment a) m)),
        (unfold apply_merge_to_value in rw d refl),
        saturated m r a (rw q refl) h,
      )
  increment_pending (some delete_action) a n r nd e c p h = absurd (nd refl)
  increment_pending (some (merge_action op)) a n r nd e c p h =
      let (m, q, d) = decode_option-some (u128.encode (apply_operation op n)) r (rw c at e) in
      (
        merge_action (combine_merge_operations op (increment a)),
        refl,
        rw (c, apply_operation-combine_merge_operations op (increment a) n p.0 p.1)
            (saturated (apply_operation op n) r a (rw q (amount_read op n m p.0 p.1 d)) h),
      )

  -- An increment adds its amount to what the task reads of the counter, whatever waits for the key
  -- but a deletion, where nothing overflows.
  pub get-increment_by :
      (a n : ℕ) (r : Option ℕ)
      → lookup raw task.write_buffer ≢ some delete_action
      → get db s t task key ≡ ok r
      → counted db s t task key ≡ ok n
      → PendingFits (lookup raw task.write_buffer) n
      → value_or_zero r + a < limit
      → (task' : IndexingTask) × (increment_by db s t task key a ≡ ok task')
        × (get db s t task' key ≡ ok (some (value_or_zero r + a)))
  unfolding get increment_by merge_raw
  get-increment_by a n r nd e c p h =
      let (action, m, g) = increment_pending (lookup raw task.write_buffer) a n r nd e c p h in
      (
        buffer db s (maybe_store_original_kv db s task raw) raw action,
        rw m refl,
        get-buffer action _ g,
      )

-- After a deletion in the same task, an increment adds its amount to the stored value, which the
-- deletion was to remove.
pub get-increment_by_deleted :
    (db : Db) (s : db.Store) {K : Type 0} (prefix : Bytes) (key_codec : Codec K) (limit : ℕ)
    (task : IndexingTask) (key : K) (a n : ℕ)
    → limit ≤ 2 ^ 128
    → counted db s (counter_table prefix key_codec limit) task key ≡ ok n
    → n + a < limit
    → (task' : IndexingTask) × (increment_by db s
          (counter_table prefix key_codec limit)
          (delete db s (counter_table prefix key_codec limit) task key)
          key
          a
        ≡ ok task')
      × (get db s (counter_table prefix key_codec limit) task' key ≡ ok (some (n + a)))
unfolding get increment_by merge_raw delete delete_raw get_inner maybe_store_original_kv
get-increment_by_deleted db s prefix key_codec limit task key a n fits c h =
    let table : Table _ ℕ = counter_table prefix key_codec limit in
    let raw_key : Bytes = encode_key table key in
    let gone : IndexingTask = delete db s table task key in
    (
      buffer db s (maybe_store_original_kv db s gone raw_key) raw_key (merge_action (increment a)),
      rw (lookup-insert raw_key raw_key delete_action task.write_buffer, ==_refl raw_key) refl,
      get-buffer db s prefix key_codec limit fits gone key (merge_action (increment a)) _
          (rw c (saturated db s prefix key_codec limit fits task key n (some n) a refl h)),
    )

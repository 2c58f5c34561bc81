-- ===== src/Store/MultiGet.antt =====
-- src/storage/kv_store.rs: `IndexingTask::multi_get`. RocksDB's batched read of sorted keys answers
-- each of them as its read of one key does.
use maestro_symphony.Prelude.{
  ◌⊎◌, inl, inr, List, [], ◌∷◌, ◌++◌, Option, none, some, Bytes, lookup, list_eq, nat_eq, lex_lt,
  if◌then◌else◌, Result, ok, ◌>>=◌,
}
use maestro_symphony.Table.{Table, encode_key}
use maestro_symphony.Core.{Error}
use maestro_symphony.Store.Interface.{Db}
use maestro_symphony.Store.Task.{IndexingTask, StorageAction, get_action, decode_option, read}

-- `sort_by` on the encoded keys, which keeps the order of equal ones.
abbrev pub insert_sorted : {K : Type 0} → K × Bytes → List (K × Bytes) → List (K × Bytes)
insert_sorted k [] = k ∷ []
insert_sorted k (j ∷ ks) =
    let rest = insert_sorted k ks in if lex_lt j.1 k.1 then j ∷ rest else k ∷ (j ∷ ks)

abbrev pub sort_by_encoded : {K : Type 0} → List (K × Bytes) → List (K × Bytes)
sort_by_encoded [] = []
sort_by_encoded (k ∷ ks) = insert_sorted k (sort_by_encoded ks)

module _ (db : Db) (s : db.Store) {K V : Type 0} (t : Table K V) (task : IndexingTask) where
  -- The answer of the write buffer for a key, or the key to fetch.
  abbrev pub buffered : K → Option StorageAction → Result Error ((K × Option V) ⊎ (K × Bytes))
  buffered key (some action) = do
    value ← get_action db s t task (encode_key t key) (some action)
    ok (inl (key, value))
  buffered key none = ok (inr (key, encode_key t key))

  abbrev pub add_part :
      (K × Option V) ⊎ (K × Bytes)
      → List (K × Option V) × List (K × Bytes)
      → List (K × Option V) × List (K × Bytes)
  add_part (inl answer) (out, to_fetch) = (answer ∷ out, to_fetch)
  add_part (inr key) (out, to_fetch) = (out, key ∷ to_fetch)

  unfoldable pub split_keys : List K → Result Error (List (K × Option V) × List (K × Bytes))
  split_keys [] = ok ([], [])
  split_keys (key ∷ keys) = do
    part ← buffered key (lookup (encode_key t key) task.write_buffer)
    parts ← split_keys keys
    ok (add_part part parts)

  unfoldable pub fetch : List (K × Bytes) → Result Error (List (K × Option V))
  fetch [] = ok []
  fetch ((key, encoded_key) ∷ keys) = do
    value ← decode_option t (read db s task encoded_key)
    rest ← fetch keys
    ok ((key, value) ∷ rest)

  unfoldable pub multi_get : List K → Result Error (List (K × Option V))
  multi_get keys = do
    (out, to_fetch) ← split_keys keys
    fetched ← fetch (sort_by_encoded to_fetch)
    ok (out ++ fetched)

-- ===== src/Indexers/Utxos.antt =====
-- src/sync/stages/index/indexers/custom/utxos_by_address.rs: the unspent outputs of every script.
use maestro_symphony.Prelude.{
  ℕ, suc, ◌%◌, ◌^◌, ◌≡◌, refl, ◌∙◌, sym, ap, subst, List, [], ◌∷◌, ◌++◌, Bytes, list_eq, nat_eq,
  Option, none, some, Option-cases, if◌then◌else◌, Result, ok, ◌>>=◌, bind-ok, ok-injective,
  Bool-cases, inl, inr,
}
use maestro_symphony.Codec.{Codec, ok_or}
use maestro_symphony.Encdec.Instances.{bytes_codec, u64, unit}
use maestro_symphony.Table.{Table, encode_key, indexer_table}
use maestro_symphony.Core.{
  Error, panic, utxos_by_address, unique_id, TxIn, TxOut, Transaction, TransactionWithId, TxoRef,
  Utxo, txo_ref,
}
use maestro_symphony.Store.{Db, IndexingTask, get, set, delete}
use maestro_symphony.Worker.Resolve.{contains}
use maestro_symphony.Worker.Context.{IndexingContext, resolve_input}
use maestro_symphony.Worker.Index.{ProcessTransaction}
use maestro_symphony.Worker.Traces.{WritesOnly, Traced}
use maestro_symphony.Indexers.Marks.{
  Mark, marked, set_all, delete_all, Traced-set_all-delete_all, get-set_all-delete_all,
}

pub record UtxosByAddressKey : Type 0 where
  pub script : Bytes
  pub produced_height : ℕ
  pub txo_ref : TxoRef

abbrev pub utxos_by_address_key : Codec UtxosByAddressKey
utxos_by_address_key = record {
  encode = λ k.
      bytes_codec.encode k.script ++ (u64.encode k.produced_height ++ txo_ref.encode k.txo_ref);
  decode = λ bytes. (do
    (script, rest) ← bytes_codec.decode bytes
    (produced_height, rest') ← u64.decode rest
    (r, rest'') ← txo_ref.decode rest'
    ok (record { script = script; produced_height = produced_height; txo_ref = r }, rest''));
}

abbrev pub utxos_by_address_kv : Table UtxosByAddressKey Mark
utxos_by_address_kv = indexer_table (unique_id utxos_by_address) 0 utxos_by_address_key unit

abbrev pub consumed_key : TxoRef → Utxo → UtxosByAddressKey
consumed_key r utxo = record { script = utxo.script; produced_height = utxo.height; txo_ref = r }

-- `output_index as u32`
abbrev pub produced_key : IndexingContext → Bytes → ℕ → TxOut → UtxosByAddressKey
produced_key ctx tx_id output_index output = record {
  script = output.script_pubkey;
  produced_height = ctx.point.height;
  txo_ref = record { tx_hash = tx_id; txo_index = output_index % (2 ^ 32) };
}

module _ (db : Db) (s : db.Store) where
  unfoldable pub delete_consumed :
      IndexingContext → List TxIn → IndexingTask → Result Error IndexingTask
  delete_consumed ctx [] task = ok task
  delete_consumed ctx (i ∷ is) task = do
    utxo ←
        ok_or (resolve_input ctx i.previous_output)
          (panic "called `Option::unwrap()` on a `None` value")
    delete_consumed ctx is
        (delete db s utxos_by_address_kv task (consumed_key i.previous_output utxo))

  unfoldable pub set_produced :
      IndexingContext → Bytes → ℕ → List TxOut → IndexingTask → IndexingTask
  set_produced ctx tx_id output_index [] task = task
  set_produced ctx tx_id output_index (output ∷ outputs) task =
      set_produced ctx tx_id (suc output_index) outputs
        (set db s utxos_by_address_kv task (produced_key ctx tx_id output_index output) tt)

-- `UtxosByAddressIndexer::process_tx`
unfoldable pub index_utxos : (db : Db) → ProcessTransaction db
index_utxos db s task tx tx_block_index ctx = do
  task' ← (if tx.tx.is_coinbase then ok task else delete_consumed db s ctx tx.tx.input task)
  ok (set_produced db s ctx tx.tx_id 0 tx.tx.output task', ctx)

-- The encoded keys of the outputs that the inputs spend, and of those that the transaction makes.
abbrev pub key_of : TxoRef → Option Utxo → List Bytes
key_of r none = []
key_of r (some utxo) = encode_key utxos_by_address_kv (consumed_key r utxo) ∷ []

abbrev pub consumed_keys : IndexingContext → List TxIn → List Bytes
consumed_keys ctx [] = []
consumed_keys ctx (i ∷ is) =
    key_of i.previous_output (resolve_input ctx i.previous_output) ++ consumed_keys ctx is

abbrev pub produced_keys : IndexingContext → Bytes → ℕ → List TxOut → List Bytes
produced_keys ctx tx_id output_index [] = []
produced_keys ctx tx_id output_index (output ∷ outputs) =
    encode_key utxos_by_address_kv (produced_key ctx tx_id output_index output)
    ∷ produced_keys ctx tx_id (suc output_index) outputs

abbrev pub spent_keys : IndexingContext → Transaction → List Bytes
spent_keys ctx tx = if tx.is_coinbase then [] else consumed_keys ctx tx.input

module _ (db : Db) (s : db.Store) where
  delete_consumed-eq-delete_all :
      (ctx : IndexingContext) (is : List TxIn) (task task' : IndexingTask)
      → delete_consumed db s ctx is task ≡ ok task'
      → delete_all db s (consumed_keys ctx is) task ≡ task'
  unfolding delete_consumed delete
  delete_consumed-eq-delete_all ctx [] task task' e = ok-injective e
  delete_consumed-eq-delete_all ctx (i ∷ is) task task' e =
      elim (Option-cases (resolve_input ctx i.previous_output)) [
        | inl p ↦ absurd (cc (rw p at e))
        | inr (utxo, p) ↦ rw p (delete_consumed-eq-delete_all ctx is _ task' (rw p at e))
      ]

  set_produced-eq-set_all :
      (ctx : IndexingContext) (tx_id : Bytes) (i : ℕ) (os : List TxOut) (task : IndexingTask)
      → set_produced db s ctx tx_id i os task ≡ set_all db s (produced_keys ctx tx_id i os) task
  unfolding set_produced set
  set_produced-eq-set_all ctx tx_id i [] task = refl
  set_produced-eq-set_all ctx tx_id i (o ∷ os) task = set_produced-eq-set_all ctx tx_id (suc i) os _

  -- What a transaction writes: deletions for its inputs, then marks for its outputs.
  index_utxos-writes :
      (task task' : IndexingTask) (tx : TransactionWithId) (i : ℕ) (ctx ctx' : IndexingContext)
      → index_utxos db s task tx i ctx ≡ ok (task', ctx')
      → (set_all db s
            (produced_keys ctx tx.tx_id 0 tx.tx.output)
            (delete_all db s (spent_keys ctx tx.tx) task)
          ≡ task')
        × (ctx' ≡ ctx)
  unfolding index_utxos
  index_utxos-writes task task' tx i ctx ctx' e =
      let (t, a, b) =
        bind-ok (if tx.tx.is_coinbase then ok task else delete_consumed db s ctx tx.tx.input task) _
          (task', ctx') e in
      (
        ap (set_all db s (produced_keys ctx tx.tx_id 0 tx.tx.output)) (deleted t a)
            ∙ sym (set_produced-eq-set_all ctx tx.tx_id 0 tx.tx.output t)
            ∙ ap (λ r. r.0) (ok-injective b),
        ap (λ r. r.1) (sym (ok-injective b)),
      )
    where
      deleted :
          (t : IndexingTask)
          → (if tx.tx.is_coinbase then ok task else delete_consumed db s ctx tx.tx.input task)
            ≡ ok t
          → delete_all db s (spent_keys ctx tx.tx) task ≡ t
      deleted t a = elim (Bool-cases tx.tx.is_coinbase) [
        | inl c ↦ rw c (ok-injective (rw c at a))
        | inr c ↦ rw c (delete_consumed-eq-delete_all ctx tx.tx.input task t (rw c at a))
      ]

-- After a transaction, the key of each of its outputs is present; of the other keys, those of the
-- outputs that it spends (none for a coinbase) are absent, and the rest are as before. The
-- comparison is of encoded keys. The context stays.
pub index_utxos-get :
    (db : Db) (s : db.Store) (task task' : IndexingTask) (tx : TransactionWithId) (i : ℕ)
    (ctx ctx' : IndexingContext)
    → index_utxos db s task tx i ctx ≡ ok (task', ctx')
    → ((j : UtxosByAddressKey)
        → get db s utxos_by_address_kv task' j
          ≡ marked
              (contains
                (encode_key utxos_by_address_kv j)
                (produced_keys ctx tx.tx_id 0 tx.tx.output))
              (contains (encode_key utxos_by_address_kv j) (spent_keys ctx tx.tx))
              (get db s utxos_by_address_kv task j))
      × (ctx' ≡ ctx)
index_utxos-get db s task task' tx i ctx ctx' e =
    let (w, k) = index_utxos-writes db s task task' tx i ctx ctx' e in
    (
      λ j.
          ap (λ t. get db s utxos_by_address_kv t j) (sym w)
          ∙ get-set_all-delete_all db s utxos_by_address_kv.prefix utxos_by_address_key j
              (produced_keys ctx tx.tx_id 0 tx.tx.output) (spent_keys ctx tx.tx) task,
      k,
    )

pub index_utxos-WritesOnly : (db : Db) → WritesOnly db (index_utxos db)
index_utxos-WritesOnly db s task tx i ctx task' ctx' e =
    subst (Traced db s task) (index_utxos-writes db s task task' tx i ctx ctx' e).0 (
      Traced-set_all-delete_all db s (produced_keys ctx tx.tx_id 0 tx.tx.output)
        (spent_keys ctx tx.tx) task)

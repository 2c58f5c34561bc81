-- ===== src/Indexers/Charms/Reads.antt =====
-- src/sync/stages/index/indexers/custom/charms: what is read of the charms tables after a transaction.
use maestro_symphony.Prelude.{
  ℕ, ◌^◌, ◌≤◌, ◌<◌, ◌≡◌, refl, ◌∙◌, sym, ap, arith, subst, List, [], ◌∷◌, false, Bytes, IsBytes,
  All, length, list_eq, nat_eq, some, lookup, lookup-insert, insert, ==_refl, ok, bind-ok,
  ok-injective, Bool-cases, inl, inr, ltb,
}
use maestro_symphony.Codec.{Codec, decode_all, decode_all-encode}
use maestro_symphony.Encdec.Instances.{bytes_codec, pair}
use maestro_symphony.Encdec.Laws.{vec-IsLawful, pair-IsLawful, bytes_codec-IsLawful}
use maestro_symphony.Table.{encode_key}
use maestro_symphony.Core.{
  charms, indexer_eq, ExtendedUtxoData, txo_ref_eq, TxOut, TransactionWithId, TxoRef,
}
use maestro_symphony.Store.{Db, IndexingTask, get}
use maestro_symphony.Worker.Resolve.{contains}
use maestro_symphony.Worker.Cache.{CacheLib}
use maestro_symphony.Worker.Context.{
  IndexingContext, attach_utxo_metadata, produced_utxo, or_default,
}
use maestro_symphony.Worker.Traces.{WritesOnly, Traced, Traced-IsClosed}
use maestro_symphony.Indexers.Marks.{
  mark_table, marked, set_all, delete_all, Traced-set_all-delete_all, get-set_all-delete_all,
}
use maestro_symphony.Indexers.Charms.{
  UtxoCharms, utxo_charms, ExtractSpell, is_empty, clean_utxo, clean_inputs, keep_charms,
  apply_spell, index_charms,
}
use maestro_symphony.Indexers.Charms.Laws.{
  charm_keys, consumed_keys, spell_keys, clean_inputs-eq-delete_all, apply_spell-eq-set_all,
  delete_charms-eq-delete_all, keep_charms-eq-set_all,
}

module _ (extract : ExtractSpell) (start_height : ℕ) (db : Db) (s : db.Store) where
  index_charms-writes :
      (task task' : IndexingTask) (tx : TransactionWithId) (i : ℕ) (ctx ctx' : IndexingContext)
      → ltb ctx.point.height start_height ≡ false
      → index_charms extract start_height db s task tx i ctx ≡ ok (task', ctx')
      → set_all db s
          (spell_keys tx ctx.point.height (extract tx.tx))
          (delete_all db s (consumed_keys ctx tx.tx.input) task)
        ≡ task'
  unfolding index_charms
  index_charms-writes task task' tx i ctx ctx' h e =
      let (t, a, b) =
        bind-ok (clean_inputs db s ctx tx.tx.input task)
          (λ t. ok (apply_spell db s tx (extract tx.tx) (t, ctx))) (task', ctx') (rw h at e) in
      ap (set_all db s (spell_keys tx ctx.point.height (extract tx.tx)))
        (clean_inputs-eq-delete_all db s ctx tx.tx.input task t a)
      ∙ sym (apply_spell-eq-set_all db s tx (extract tx.tx) t ctx)
      ∙ ap (λ r. r.0) (ok-injective b)

-- From the start height on, and for either table of charms (or any other table of marks): after a
-- transaction, the keys of the outputs that its spell gives charms are present, by script and by
-- app, the beamed outputs left out; of the other keys, those of the charms that its inputs held are
-- absent, whether or not there is a spell; and the rest are as before.
pub index_charms-get :
    (extract : ExtractSpell) (start_height : ℕ) (db : Db) (s : db.Store) (task task' : IndexingTask)
    (tx : TransactionWithId) (i : ℕ) (ctx ctx' : IndexingContext) {K : Type 0} (prefix : Bytes)
    (codec : Codec K) (j : K)
    → start_height ≤ ctx.point.height
    → index_charms extract start_height db s task tx i ctx ≡ ok (task', ctx')
    → get db s (mark_table prefix codec) task' j
      ≡ marked
          (contains
            (encode_key (mark_table prefix codec) j)
            (spell_keys tx ctx.point.height (extract tx.tx)))
          (contains (encode_key (mark_table prefix codec) j) (consumed_keys ctx tx.tx.input))
          (get db s (mark_table prefix codec) task j)
index_charms-get extract start_height db s task task' tx i ctx ctx' prefix codec j h e =
    ap (λ t. get db s (mark_table prefix codec) t j)
      (sym
        (index_charms-writes extract start_height db s task task' tx i ctx ctx' (ground arith) e))
    ∙ get-set_all-delete_all db s prefix codec j (spell_keys tx ctx.point.height (extract tx.tx))
        (consumed_keys ctx tx.tx.input) task

pub index_charms-WritesOnly :
    (extract : ExtractSpell) (start_height : ℕ) (db : Db)
    → WritesOnly db (index_charms extract start_height db)
unfolding index_charms
index_charms-WritesOnly extract start_height db s task tx i ctx task' ctx' e =
    elim (Bool-cases (ltb ctx.point.height start_height)) [
      | inl h ↦
          subst (Traced db s task) (ap (λ r. r.0) (ok-injective (rw h at e)))
            ((Traced-IsClosed db).reflexive s task)
      | inr h ↦
          subst (Traced db s task)
            (index_charms-writes extract start_height db s task task' tx i ctx ctx' h e)
            (Traced-set_all-delete_all db s (spell_keys tx ctx.point.height (extract tx.tx))
              (consumed_keys ctx tx.tx.input) task)
    ]

abbrev pub FitsCharms : UtxoCharms → Type 0
FitsCharms cs =
    All (λ c. (IsBytes c.0 × (length c.0 < 2 ^ 64)) × (IsBytes c.1 × (length c.1 < 2 ^ 64))) cs
    × (length cs < 2 ^ 64)

read_charms :
    (cs : UtxoCharms) → FitsCharms cs → decode_all utxo_charms (utxo_charms.encode cs) ≡ ok cs
read_charms cs h =
    decode_all-encode utxo_charms FitsCharms cs
      (vec-IsLawful (pair bytes_codec bytes_codec) _
        (pair-IsLawful bytes_codec bytes_codec _ _ bytes_codec-IsLawful bytes_codec-IsLawful))
      h

lookup-attached :
    (ctx : IndexingContext) (r : TxoRef) (bytes : Bytes)
    → lookup charms (or_default (lookup r (attach_utxo_metadata ctx r charms bytes).utxo_metadata))
      ≡ some bytes
unfolding attach_utxo_metadata
lookup-attached ctx r bytes =
    let old : ExtendedUtxoData = or_default (lookup r ctx.utxo_metadata) in
    rw (lookup-insert r r (insert charms bytes old) ctx.utxo_metadata, ==_refl r)
      (rw (lookup-insert charms charms bytes old) refl)

-- The entries of an output with charms go when it is spent: the keys that its production sets, and
-- no others, are those that the clean-up of its spending deletes, by the data that the output
-- carries in the set of unspent outputs.
pub clean_utxo-keep_charms :
    (lib : CacheLib) (db : Db) (s : db.Store) (task later : IndexingTask) (ctx : IndexingContext)
    (r : TxoRef) (output : TxOut) (cs : UtxoCharms)
    → FitsCharms cs
    → is_empty cs ≡ false
    → let kept : IndexingTask × IndexingContext =
        keep_charms db s ctx.point.height r output cs (task, ctx) in
      let keys : List Bytes = charm_keys output.script_pubkey ctx.point.height r cs in
      (kept.0 ≡ set_all db s keys task)
      × (clean_utxo db s r (some (produced_utxo lib db s r output kept.1)) later
          ≡ ok (delete_all db s keys later))
unfolding attach_utxo_metadata
clean_utxo-keep_charms lib db s task later ctx r output [] f h = absurd (cc h)
clean_utxo-keep_charms lib db s task later ctx r output (c ∷ cs) f h = (
  keep_charms-eq-set_all db s ctx.point.height r output (c ∷ cs) task ctx,
  rw (lookup-attached ctx r (utxo_charms.encode (c ∷ cs)), read_charms (c ∷ cs) f)
      (ap ok (
        delete_charms-eq-delete_all db s r
          (produced_utxo lib db s r output
            (keep_charms db s ctx.point.height r output (c ∷ cs) (task, ctx)).1)
          (c ∷ cs) later)),
)

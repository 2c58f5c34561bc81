-- ===== src/Indexers/Charms/Laws.antt =====
-- src/sync/stages/index/indexers/custom/charms: what a transaction makes of the charms tables.
use maestro_symphony.Prelude.{
  ℕ, suc, ◌%◌, ◌^◌, ◌≡◌, refl, ◌∙◌, sym, ap, List, [], ◌∷◌, ◌++◌, Bytes, list_eq, nat_eq, Option,
  none, some, Map, lookup, if◌then◌else◌, Result, ok, err, bind-ok, ok-injective, Result-cases,
  Bool-cases, inl, inr,
}
use maestro_symphony.Codec.{decode_all}
use maestro_symphony.Table.{encode_key}
use maestro_symphony.Core.{charms, indexer_eq, TxIn, TxOut, TransactionWithId, TxoRef, Utxo}
use maestro_symphony.Store.{Db, IndexingTask, set, delete}
use maestro_symphony.Worker.Context.{IndexingContext, resolve_input}
use maestro_symphony.Indexers.Marks.{set_all, delete_all, set_all-append, delete_all-append}
use maestro_symphony.Indexers.Charms.{
  UtxoCharms, utxo_charms, Spell, is_beamed, is_empty, convert_charms, script_key, app_key, out_ref,
  delete_apps, set_apps, delete_charms, clean_raw, clean_utxo, clean_input, clean_inputs,
  keep_charms, produce_output, produce_outputs, apply_spell, charms_utxos_by_script_kv,
  charms_utxos_by_app_kv,
}

abbrev pub app_keys : ℕ → TxoRef → UtxoCharms → List Bytes
app_keys height r [] = []
app_keys height r ((app, _) ∷ cs) =
    encode_key charms_utxos_by_app_kv (app_key height r app) ∷ app_keys height r cs

-- The encoded keys of an output with charms: one for its script, and one for each app.
abbrev pub charm_keys : Bytes → ℕ → TxoRef → UtxoCharms → List Bytes
charm_keys script height r cs =
    encode_key charms_utxos_by_script_kv (script_key script height r) ∷ app_keys height r cs

-- The keys of an output that is spent, by the charms that its bytes say it holds.
abbrev pub held_keys : TxoRef → Utxo → UtxoCharms → List Bytes
held_keys r utxo [] = []
held_keys r utxo (c ∷ cs) = charm_keys utxo.script utxo.height r (c ∷ cs)

abbrev pub decoded : {E : Type 0} → Result E UtxoCharms → UtxoCharms
decoded (ok cs) = cs
decoded (err e) = []

abbrev pub charms_of : Option Bytes → UtxoCharms
charms_of none = []
charms_of (some raw) = decoded (decode_all utxo_charms raw)

abbrev pub utxo_keys : TxoRef → Option Utxo → List Bytes
utxo_keys r none = []
utxo_keys r (some utxo) = held_keys r utxo (charms_of (lookup charms utxo.extended))

abbrev pub input_keys : IndexingContext → TxIn → List Bytes
input_keys ctx i =
    if i.is_null then [] else utxo_keys i.previous_output (resolve_input ctx i.previous_output)

abbrev pub consumed_keys : IndexingContext → List TxIn → List Bytes
consumed_keys ctx [] = []
consumed_keys ctx (i ∷ is) = input_keys ctx i ++ consumed_keys ctx is

-- The keys of the outputs that the spell gives charms: not the beamed ones.
abbrev pub output_keys : Bytes → ℕ → Spell → ℕ → TxOut → Map ℕ Bytes → List Bytes
output_keys tx_id height spell i output n =
    if is_beamed spell.beamed_outs (i % (2 ^ 32))
    then []
    else if is_empty n
    then []
    else charm_keys output.script_pubkey height (out_ref tx_id i)
        (convert_charms spell.app_public_inputs n)

abbrev pub outputs_keys : Bytes → ℕ → Spell → ℕ → List TxOut → List (Map ℕ Bytes) → List Bytes
outputs_keys tx_id height spell i [] ns = []
outputs_keys tx_id height spell i (o ∷ os) [] = []
outputs_keys tx_id height spell i (o ∷ os) (n ∷ ns) =
    output_keys tx_id height spell i o n ++ outputs_keys tx_id height spell (suc i) os ns

abbrev pub spell_keys : TransactionWithId → ℕ → Option Spell → List Bytes
spell_keys tx height none = []
spell_keys tx height (some spell) = outputs_keys tx.tx_id height spell 0 tx.tx.output spell.outs

module _ (db : Db) (s : db.Store) where
  delete_apps-eq-delete_all :
      (height : ℕ) (r : TxoRef) (cs : UtxoCharms) (task : IndexingTask)
      → delete_apps db s height r cs task ≡ delete_all db s (app_keys height r cs) task
  unfolding delete_apps delete
  delete_apps-eq-delete_all height r [] task = refl
  delete_apps-eq-delete_all height r ((app, _) ∷ cs) task = delete_apps-eq-delete_all height r cs _

  set_apps-eq-set_all :
      (height : ℕ) (r : TxoRef) (cs : UtxoCharms) (task : IndexingTask)
      → set_apps db s height r cs task ≡ set_all db s (app_keys height r cs) task
  unfolding set_apps set
  set_apps-eq-set_all height r [] task = refl
  set_apps-eq-set_all height r ((app, _) ∷ cs) task = set_apps-eq-set_all height r cs _

  pub delete_charms-eq-delete_all :
      (r : TxoRef) (utxo : Utxo) (cs : UtxoCharms) (task : IndexingTask)
      → delete_charms db s r utxo cs task ≡ delete_all db s (held_keys r utxo cs) task
  unfolding delete
  delete_charms-eq-delete_all r utxo [] task = refl
  delete_charms-eq-delete_all r utxo (c ∷ cs) task =
      delete_apps-eq-delete_all utxo.height r (c ∷ cs) _

  clean_utxo-eq-delete_all :
      (r : TxoRef) (u : Option Utxo) (task task' : IndexingTask)
      → clean_utxo db s r u task ≡ ok task'
      → delete_all db s (utxo_keys r u) task ≡ task'
  clean_utxo-eq-delete_all r none task task' e = ok-injective e
  clean_utxo-eq-delete_all r (some utxo) task task' e = by_raw (lookup charms utxo.extended) e
    where
      by_raw :
          (raw : Option Bytes)
          → clean_raw db s r utxo raw task ≡ ok task'
          → delete_all db s (held_keys r utxo (charms_of raw)) task ≡ task'
      by_raw none e = ok-injective e
      by_raw (some raw) e = elim (Result-cases (decode_all utxo_charms raw)) [
        | inl (cs, p) ↦
            rw p (sym (delete_charms-eq-delete_all r utxo cs task) ∙ ok-injective (rw p at e))
        | inr (x, p) ↦ absurd (cc (rw p at e))
      ]

  clean_input-eq-delete_all :
      (ctx : IndexingContext) (i : TxIn) (task task' : IndexingTask)
      → clean_input db s ctx i task ≡ ok task'
      → delete_all db s (input_keys ctx i) task ≡ task'
  unfolding clean_input
  clean_input-eq-delete_all ctx i task task' e = elim (Bool-cases i.is_null) [
    | inl c ↦ rw c (ok-injective (rw c at e))
    | inr c ↦ rw c (
        clean_utxo-eq-delete_all i.previous_output (resolve_input ctx i.previous_output) task task'
          (rw c at e))
  ]

  pub clean_inputs-eq-delete_all :
      (ctx : IndexingContext) (is : List TxIn) (task task' : IndexingTask)
      → clean_inputs db s ctx is task ≡ ok task'
      → delete_all db s (consumed_keys ctx is) task ≡ task'
  unfolding clean_inputs
  clean_inputs-eq-delete_all ctx [] task task' e = ok-injective e
  clean_inputs-eq-delete_all ctx (i ∷ is) task task' e =
      let (t, a, b) = bind-ok (clean_input db s ctx i task) (clean_inputs db s ctx is) task' e in
      delete_all-append db s (input_keys ctx i) (consumed_keys ctx is) task
      ∙ ap (delete_all db s (consumed_keys ctx is)) (clean_input-eq-delete_all ctx i task t a)
      ∙ clean_inputs-eq-delete_all ctx is t task' b

  pub keep_charms-eq-set_all :
      (height : ℕ) (r : TxoRef) (o : TxOut) (cs : UtxoCharms) (task : IndexingTask)
      (ctx : IndexingContext)
      → (keep_charms db s height r o cs (task, ctx)).0
        ≡ set_all db s (charm_keys o.script_pubkey height r cs) task
  unfolding set
  keep_charms-eq-set_all height r o cs task ctx = set_apps-eq-set_all height r cs _

  produce_output-eq-set_all :
      (tx_id : Bytes) (height : ℕ) (spell : Spell) (i : ℕ) (o : TxOut) (n : Map ℕ Bytes)
      (st : IndexingTask × IndexingContext)
      → (produce_output db s tx_id height spell i o n st).0
        ≡ set_all db s (output_keys tx_id height spell i o n) st.0
  produce_output-eq-set_all tx_id height spell i o n st =
      elim (Bool-cases (is_beamed spell.beamed_outs (i % (2 ^ 32)))) [
        | inl b ↦ rw b refl
        | inr b ↦ elim (Bool-cases (is_empty n)) [
          | inl m ↦ rw (b, m) refl
          | inr m ↦ rw (b, m) (keep_charms-eq-set_all height (out_ref tx_id i) o _ st.0 st.1)
        ]
      ]

  produce_outputs-eq-set_all :
      (tx_id : Bytes) (height : ℕ) (spell : Spell) (i : ℕ) (os : List TxOut)
      (ns : List (Map ℕ Bytes)) (st : IndexingTask × IndexingContext)
      → (produce_outputs db s tx_id height spell i os ns st).0
        ≡ set_all db s (outputs_keys tx_id height spell i os ns) st.0
  unfolding produce_outputs
  produce_outputs-eq-set_all tx_id height spell i [] ns st = refl
  produce_outputs-eq-set_all tx_id height spell i (o ∷ os) [] st = refl
  produce_outputs-eq-set_all tx_id height spell i (o ∷ os) (n ∷ ns) st =
      produce_outputs-eq-set_all tx_id height spell (suc i) os ns _
      ∙ ap (set_all db s (outputs_keys tx_id height spell (suc i) os ns))
          (produce_output-eq-set_all tx_id height spell i o n st)
      ∙ sym (set_all-append db s (output_keys tx_id height spell i o n) _ st.0)

  pub apply_spell-eq-set_all :
      (tx : TransactionWithId) (spell : Option Spell) (task : IndexingTask) (ctx : IndexingContext)
      → (apply_spell db s tx spell (task, ctx)).0
        ≡ set_all db s (spell_keys tx ctx.point.height spell) task
  apply_spell-eq-set_all tx none task ctx = refl
  apply_spell-eq-set_all tx (some spell) task ctx =
      produce_outputs-eq-set_all tx.tx_id ctx.point.height spell 0 tx.tx.output spell.outs
        (task, ctx)

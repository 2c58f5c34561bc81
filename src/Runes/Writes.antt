-- ===== src/Runes/Writes.antt =====
-- src/sync/stages/index/indexers/custom/runes/indexer.rs: the writes of the runes indexer to its task.
use maestro_symphony.Prelude.{
  ℕ, ◌+◌, ◌^◌, refl, subst, List, [], ◌∷◌, Option, none, some, Bytes, lookup, ltb, leb, ok,
  ok-injective,
}
use maestro_symphony.Codec.{ok_or}
use maestro_symphony.Core.{runes, panic, indexer_eq, TxIn, TxoRef, Utxo}
use maestro_symphony.Store.{Db, IndexingTask, get, set, delete}
use maestro_symphony.Worker.Context.{IndexingContext, resolve_input}
use maestro_symphony.Worker.Writes.{
  Writes, Writes-ok, Writes-err, Writes-bind, Writes-read, Writes-if, Writes-set,
}
use maestro_symphony.Worker.Traces.{Traced, Traced-IsClosed}
use maestro_symphony.Runes.Tables.{
  RuneId, RuneTerms, UtxoRunes, rune_info_by_id_kv, rune_mints_by_id_kv,
}
use maestro_symphony.Runes.Mint.{mint, mint_under, count_mint, terms_of, is_open, unwrap_or_default}
use maestro_symphony.Runes.Allocate.{Balances}
use maestro_symphony.Runes.Ordinals.{OrdinalsLib, Artifact}
use maestro_symphony.Runes.Etch.{create_rune_entry, info_of}
use maestro_symphony.Runes.Inputs.{decode_runes, take_input, take_inputs, take_runes, delete_entry}
use maestro_symphony.Runes.Index.{RunesIndexerConfig, add_minted, mint_to, create_etched}

module _ (db : Db) (s : db.Store) where
  Traced-delete_entry :
      (r : TxoRef) (utxo : Utxo) (held : UtxoRunes) (task : IndexingTask)
      → Traced db s task (delete_entry db s r utxo held task)
  unfolding delete
  Traced-delete_entry r utxo [] task = (Traced-IsClosed db).reflexive s task
  Traced-delete_entry r utxo (h ∷ held) task = (Traced-IsClosed db).at_delete s task _

  Writes-take_runes :
      (r : TxoRef) (utxo : Utxo) (st : IndexingTask × Balances)
      → Writes db s (λ x. x.0) st.0 (take_runes db s r utxo st)
  Writes-take_runes r utxo (task, m) =
      Writes-read db s (λ x. x.0) task (decode_runes (lookup runes utxo.extended)) _
        λ held b e.
          subst (λ x. Traced db s task x.0) (ok-injective e) (Traced-delete_entry r utxo held task)

  Writes-take_input :
      (ctx : IndexingContext) (i : TxIn) (st : IndexingTask × Balances)
      → Writes db s (λ x. x.0) st.0 (take_input db s ctx i st)
  Writes-take_input ctx i st =
      Writes-if db s (λ x. x.0) st.0 i.is_null _ _ (Writes-ok db s (λ x. x.0) st)
        (Writes-read db s (λ x. x.0) st.0
          (ok_or (resolve_input ctx i.previous_output) (panic "todo")) _
          λ utxo. Writes-take_runes i.previous_output utxo st)

  pub Writes-take_inputs :
      (ctx : IndexingContext) (is : List TxIn) (st : IndexingTask × Balances)
      → Writes db s (λ x. x.0) st.0 (take_inputs db s ctx is st)
  unfolding take_inputs
  Writes-take_inputs ctx [] st = Writes-ok db s (λ x. x.0) st
  Writes-take_inputs ctx (i ∷ is) st =
      Writes-bind db s (λ x. x.0) (λ x. x.0) st.0 (take_input db s ctx i st) _
        (Writes-take_input ctx i st) (Writes-take_inputs ctx is)

  Writes-count_mint :
      (task : IndexingTask) (id : RuneId) (terms : RuneTerms) (n : ℕ)
      → Writes db s (λ x. x.0) task (count_mint db s task id terms n)
  Writes-count_mint task id terms n =
      Writes-if db s (λ x. x.0) task (leb (unwrap_or_default terms.cap) n) _ _
        (Writes-ok db s (λ x. x.0) (task, none))
        (Writes-if db s (λ x. x.0) task (ltb (n + 1) (2 ^ 128)) _ _
          (Writes-set db s (λ x. x.0) rune_mints_by_id_kv task id (n + 1)
            (set db s rune_mints_by_id_kv task id (n + 1), some (unwrap_or_default terms.amount))
            refl)
          (Writes-err db s (λ x. x.0) task (panic "mints overflow")))

  Writes-mint :
      (task : IndexingTask) (id : RuneId) (height : ℕ)
      → Writes db s (λ x. x.0) task (mint db s task id height)
  unfolding mint
  Writes-mint task id height =
      Writes-read db s (λ x. x.0) task (get db s rune_info_by_id_kv task id) _
        λ info. under (terms_of info)
    where
      under :
          (terms : Option RuneTerms)
          → Writes db s (λ x. x.0) task (mint_under db s task id height terms)
      under none = Writes-ok db s (λ x. x.0) (task, none)
      under (some terms) =
          Writes-if db s (λ x. x.0) task (is_open terms height) _ _
            (Writes-read db s (λ x. x.0) task (get db s rune_mints_by_id_kv task id) _
              λ n. Writes-count_mint task id terms (unwrap_or_default n))
            (Writes-ok db s (λ x. x.0) (task, none))

  pub Writes-mint_to :
      (lib : OrdinalsLib) (config : RunesIndexerConfig) (height : ℕ) (o : Option RuneId)
      (st : IndexingTask × Balances)
      → Writes db s (λ x. x.0) st.0 (mint_to lib config db s height o st)
  Writes-mint_to lib config height none st = Writes-ok db s (λ x. x.0) st
  Writes-mint_to lib config height (some id) (task, m) =
      Writes-bind db s (λ x. x.0) (λ x. x.0) task (mint db s task id height) _
        (Writes-mint task id height) added
    where
      added : (r : IndexingTask × Option ℕ) → Writes db s (λ x. x.0) r.0 (ok (add_minted id m r))
      added (t, none) = Writes-ok db s (λ x. x.0) (t, m)
      added (t, some amount) = Writes-ok db s (λ x. x.0) (add_minted id m (t, some amount))

  Writes-create_rune_entry :
      (task : IndexingTask) (artifact : Artifact) (tx_id : Bytes) (id : RuneId) (rune height : ℕ)
      → Writes db s (λ x. x) task (create_rune_entry db s task artifact tx_id id rune height)
  unfolding create_rune_entry set
  Writes-create_rune_entry task artifact tx_id id rune height =
      Writes-read db s (λ x. x) task (info_of tx_id rune height artifact) _
        λ info b e. subst (Traced db s task) (ok-injective e) (
          (Traced-IsClosed db).transitive s _ _ _ ((Traced-IsClosed db).at_set s task _ _)
            ((Traced-IsClosed db).at_set s _ _ _))

  pub Writes-create_etched :
      (lib : OrdinalsLib) (config : RunesIndexerConfig) (artifact : Artifact) (tx_id : Bytes)
      (height : ℕ) (e : Option (RuneId × ℕ)) (task : IndexingTask)
      → Writes db s (λ x. x) task (create_etched lib config db s artifact tx_id height e task)
  Writes-create_etched lib config artifact tx_id height none task = Writes-ok db s (λ x. x) task
  Writes-create_etched lib config artifact tx_id height (some (id, rune)) task =
      Writes-create_rune_entry task artifact tx_id id rune height

-- ===== src/Runes/Etch.antt =====
-- src/sync/stages/index/indexers/custom/runes/indexer.rs: `tx_commits_to_rune`, `etched` and
-- `create_rune_entry`.
use maestro_symphony.Prelude.{
  ℕ, ◌+◌, ◌-◌, ◌^◌, min, max, List, [], ◌∷◌, Option, none, some, Bool, true, false, ◌||◌, Bytes,
  list_beq, nat_eq, String, ltb, leb, if◌then◌else◌, Result, ok, err, ◌>>=◌,
}
use maestro_symphony.Codec.{ok_or}
use maestro_symphony.Core.{Error, panic, Transaction, TxIn, TxoRef, Utxo}
use maestro_symphony.Store.{Db, IndexingTask, get, set}
use maestro_symphony.Worker.Context.{IndexingContext, resolve_input}
use maestro_symphony.Runes.Tables.{
  RuneId, RuneTerms, RuneInfo, rune_info_by_id_kv, rune_id_by_name_kv,
}
use maestro_symphony.Runes.Mint.{unwrap_or_default}
use maestro_symphony.Runes.Ordinals.{Terms, Etching, Artifact, runestone, cenotaph, OrdinalsLib}

-- `try_into().expect(..)` to a u32
abbrev pub checked_u32 : String → ℕ → Result Error ℕ
checked_u32 message n = if ltb n (2 ^ 32) then ok n else err (panic message)

module _ (lib : OrdinalsLib) (ctx : IndexingContext) (rune required_confirmations : ℕ) where
  -- A commitment by an output of a taproot script that is old enough; the search goes on after any
  -- other.
  abbrev pub is_commitment_by : Utxo → Result Error Bool → Result Error Bool
  is_commitment_by utxo rest =
      if lib.is_p2tr utxo.script
      then (if ltb ctx.point.height utxo.height
          then err (panic "rune commit underflow")
          else if leb (2 ^ 64) (ctx.point.height - utxo.height + 1)
          then err (panic "rune commit overflow")
          else if leb required_confirmations (ctx.point.height - utxo.height + 1)
          then ok true
          else rest)
      else rest

  abbrev pub is_commitment : TxoRef → Bytes → Result Error Bool → Result Error Bool
  is_commitment r pushbytes rest =
      if list_beq pushbytes (lib.commitment rune)
      then (do
        utxo ← ok_or (resolve_input ctx r) (panic "missing txo resolver in rune commit")
        is_commitment_by utxo rest)
      else rest

  unfoldable pub instructions_commit : TxoRef → List (Option (Option Bytes)) → Result Error Bool
  instructions_commit r [] = ok false
  instructions_commit r (none ∷ instructions) = ok false
  instructions_commit r (some none ∷ instructions) = instructions_commit r instructions
  instructions_commit r (some (some pushbytes) ∷ instructions) =
      is_commitment r pushbytes (instructions_commit r instructions)

  abbrev pub input_commits :
      TxoRef → Option (List (Option (Option Bytes))) → Result Error Bool → Result Error Bool
  input_commits r none rest = rest
  input_commits r (some instructions) rest = do
    found ← instructions_commit r instructions
    if found then ok true else rest

  unfoldable pub inputs_commit : List TxIn → Result Error Bool
  inputs_commit [] = ok false
  inputs_commit (i ∷ is) =
      input_commits i.previous_output (lib.tapscript i.witness) (inputs_commit is)

-- `confirmations_override.unwrap_or(..)`
abbrev pub or_else : ℕ → Option ℕ → ℕ
or_else default none = default
or_else default (some n) = n

unfoldable pub tx_commits_to_rune :
    OrdinalsLib → Transaction → ℕ → IndexingContext → Option ℕ → Result Error Bool
tx_commits_to_rune lib tx rune ctx confirmations_override =
    inputs_commit lib ctx rune (or_else lib.commit_confirmations confirmations_override) tx.input

-- The rune that an artifact etches, which may have no name of its own.
abbrev pub rune_of_etching : Option Etching → Option (Option ℕ)
rune_of_etching none = none
rune_of_etching (some etching) = some etching.rune

abbrev pub rune_of_cenotaph : Option ℕ → Option (Option ℕ)
rune_of_cenotaph none = none
rune_of_cenotaph (some rune) = some (some rune)

abbrev pub requested_rune : Artifact → Option (Option ℕ)
requested_rune (runestone r) = rune_of_etching r.etching
requested_rune (cenotaph c) = rune_of_cenotaph c.etching

module _ (lib : OrdinalsLib) (db : Db) (s : db.Store) (task : IndexingTask) (tx : Transaction)
    (ctx : IndexingContext) (confirmations_override : Option ℕ) (tx_index : ℕ) where
  abbrev pub rune_id_here : RuneId
  rune_id_here = record { block = ctx.point.height; tx = tx_index }

  abbrev pub etch_unused : ℕ → Option RuneId → Result Error (Option (RuneId × ℕ))
  etch_unused rune (some existing) = ok none
  etch_unused rune none = do
    commits ← tx_commits_to_rune lib tx rune ctx confirmations_override
    ok (if commits then some (rune_id_here, rune) else none)

  abbrev pub etch_rune : ℕ → Option ℕ → Result Error (Option (RuneId × ℕ))
  etch_rune minimum none = ok (some (rune_id_here, lib.reserved ctx.point.height tx_index))
  etch_rune minimum (some rune) =
      if ltb rune minimum || lib.is_reserved rune
      then ok none
      else do existing ← get db s rune_id_by_name_kv task rune; etch_unused rune existing

  abbrev pub etch_requested : Option (Option ℕ) → Result Error (Option (RuneId × ℕ))
  etch_requested none = ok none
  etch_requested (some rune) = do
    height ← checked_u32 "height u32 overflow" ctx.point.height
    etch_rune (lib.minimum_at_height ctx.network height) rune

unfoldable pub etched :
    OrdinalsLib
    → (db : Db) → db.Store
    → IndexingTask
    → ℕ
    → Transaction
    → Artifact
    → IndexingContext
    → Option ℕ
    → Result Error (Option (RuneId × ℕ))
etched lib db s task tx_index tx artifact ctx confirmations_override = do
  tx_index' ← checked_u32 "tx index u32 overflow" tx_index
  etch_requested lib db s task tx ctx confirmations_override tx_index' (requested_rune artifact)

-- `height.saturating_add(offset)` on an optional offset
abbrev pub relative_to : ℕ → Option ℕ → Option ℕ
relative_to height none = none
relative_to height (some offset) = some (min (height + offset) (2 ^ 64 - 1))

-- `relative.zip(absolute).map(..).or(relative).or(absolute)`
abbrev pub combine_heights : (ℕ → ℕ → ℕ) → Option ℕ → Option ℕ → Option ℕ
combine_heights f (some relative) (some absolute) = some (f relative absolute)
combine_heights f (some relative) none = some relative
combine_heights f none absolute = absolute

abbrev pub rune_terms_of : ℕ → Option Terms → Option RuneTerms
rune_terms_of height none = none
rune_terms_of height (some terms) = some (record {
  amount = terms.amount;
  cap = terms.cap;
  start_height = combine_heights max (relative_to height terms.offset_start) terms.height_start;
  end_height = combine_heights min (relative_to height terms.offset_end) terms.height_end;
})

abbrev pub info_of_etching : Bytes → ℕ → ℕ → Option Etching → Result Error RuneInfo
info_of_etching tx_id rune height none = err (panic "called `Option::unwrap()` on a `None` value")
info_of_etching tx_id rune height (some etching) = ok (record {
  name = rune;
  terms = rune_terms_of height etching.terms;
  symbol = etching.symbol;
  divisibility = unwrap_or_default etching.divisibility;
  etching_height = height;
  etching_tx = tx_id;
  premine = unwrap_or_default etching.premine;
  spacers = unwrap_or_default etching.spacers;
})

abbrev pub info_of : Bytes → ℕ → ℕ → Artifact → Result Error RuneInfo
info_of tx_id rune height (cenotaph c) = ok (record {
  name = rune;
  terms = none;
  symbol = none;
  divisibility = 0;
  etching_height = height;
  etching_tx = tx_id;
  premine = 0;
  spacers = 0;
})
info_of tx_id rune height (runestone r) = info_of_etching tx_id rune height r.etching

unfoldable pub create_rune_entry :
    (db : Db)
    → db.Store
    → IndexingTask
    → Artifact
    → Bytes
    → RuneId
    → ℕ
    → ℕ
    → Result Error IndexingTask
create_rune_entry db s task artifact tx_id id rune height = do
  let named = set db s rune_id_by_name_kv task rune id
  info ← info_of tx_id rune height artifact
  ok (set db s rune_info_by_id_kv named id info)

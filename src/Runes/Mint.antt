-- ===== src/Runes/Mint.antt =====
-- src/sync/stages/index/indexers/custom/runes/indexer.rs: `mint`.
use maestro_symphony.Prelude.{
  ℕ, ◌+◌, ◌^◌, Option, none, some, Bool, true, ◌&&◌, ltb, leb, if◌then◌else◌, Result, ok, err,
  ◌>>=◌,
}
use maestro_symphony.Core.{Error, panic}
use maestro_symphony.Store.{Db, IndexingTask, get, set}
use maestro_symphony.Runes.Tables.{
  RuneId, RuneTerms, RuneInfo, rune_info_by_id_kv, rune_mints_by_id_kv,
}

abbrev pub terms_of : Option RuneInfo → Option RuneTerms
terms_of none = none
terms_of (some info) = info.terms

abbrev pub unwrap_or_default : Option ℕ → ℕ
unwrap_or_default none = 0
unwrap_or_default (some n) = n

-- The height is not before the start, where there is one, and is before the end.
abbrev pub has_started : Option ℕ → ℕ → Bool
has_started none height = true
has_started (some start) height = leb start height

abbrev pub has_not_ended : Option ℕ → ℕ → Bool
has_not_ended none height = true
has_not_ended (some end) height = ltb height end

abbrev pub is_open : RuneTerms → ℕ → Bool
is_open terms height =
    has_started terms.start_height height && has_not_ended terms.end_height height

module _ (db : Db) (s : db.Store) (task : IndexingTask) (id : RuneId) where
  -- One more mint, where the cap allows it.
  abbrev pub count_mint : RuneTerms → ℕ → Result Error (IndexingTask × Option ℕ)
  count_mint terms current_mints =
      if leb (unwrap_or_default terms.cap) current_mints
      then ok (task, none)
      else if ltb (current_mints + 1) (2 ^ 128)
      then ok (
        set db s rune_mints_by_id_kv task id (current_mints + 1),
        some (unwrap_or_default terms.amount),
      )
      else err (panic "mints overflow")

  abbrev pub mint_under : ℕ → Option RuneTerms → Result Error (IndexingTask × Option ℕ)
  mint_under height none = ok (task, none)
  mint_under height (some terms) =
      if is_open terms height
      then (do
        current_mints ← get db s rune_mints_by_id_kv task id
        count_mint terms (unwrap_or_default current_mints))
      else ok (task, none)

  -- The task after the mint, and the amount if there is one.
  unfoldable pub mint : ℕ → Result Error (IndexingTask × Option ℕ)
  mint height = do info ← get db s rune_info_by_id_kv task id; mint_under height (terms_of info)

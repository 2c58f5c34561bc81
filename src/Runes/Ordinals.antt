-- ===== src/Runes/Ordinals.antt =====
-- What src/sync/stages/index/indexers/custom/runes/indexer.rs uses of the crates ordinals and bitcoin:
-- the fields that it reads of an artifact, and the functions that it calls.
use maestro_symphony.Prelude.{ℕ, List, Option, Bool, Bytes}
use maestro_symphony.Core.{Transaction}
use maestro_symphony.Worker.Context.{Network}
use maestro_symphony.Runes.Tables.{RuneId}
use maestro_symphony.Runes.Allocate.{Edict}

-- `Terms`, its pairs of an optional start and end written out.
pub record Terms : Type 0 where
  pub amount : Option ℕ
  pub cap : Option ℕ
  pub height_start : Option ℕ
  pub height_end : Option ℕ
  pub offset_start : Option ℕ
  pub offset_end : Option ℕ

-- A `Rune` is the number of its name.
pub record Etching : Type 0 where
  pub divisibility : Option ℕ
  pub premine : Option ℕ
  pub rune : Option ℕ
  pub spacers : Option ℕ
  pub symbol : Option ℕ
  pub terms : Option Terms

pub record Runestone : Type 0 where
  pub edicts : List Edict
  pub etching : Option Etching
  pub mint : Option RuneId
  pub pointer : Option ℕ

pub record Cenotaph : Type 0 where
  pub etching : Option ℕ
  pub mint : Option RuneId

pub data Artifact : Type 0 where
  runestone : Runestone → Artifact
  cenotaph : Cenotaph → Artifact

-- `Artifact::mint`
abbrev pub mint_of : Artifact → Option RuneId
mint_of (runestone r) = r.mint
mint_of (cenotaph c) = c.mint

pub record OrdinalsLib : Type 0 where
  pub decipher : Transaction → Option Artifact
  pub minimum_at_height : Network → ℕ → ℕ
  pub is_reserved : ℕ → Bool
  pub reserved : ℕ → ℕ → ℕ
  pub commitment : ℕ → Bytes
  pub commit_confirmations : ℕ
  -- The instructions of the tapscript in a witness: `none` for an error, and `some none` for one that
  -- pushes no bytes.
  pub tapscript : List Bytes → Option (List (Option (Option Bytes)))
  pub is_p2tr : Bytes → Bool

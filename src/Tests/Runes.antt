-- ===== src/Tests/Runes.antt =====
-- src/sync/stages/index/indexers/custom/runes on concrete inputs.
use maestro_symphony.Core.{TxOut}
use maestro_symphony.Runes.Allocate.{Edict, Balances, rune_id_eq, rune_id_beq, apply_edicts}
use maestro_symphony.Runes.Edicts.{supply, IsConserved, apply_edicts-IsConserved}
use maestro_symphony.Prelude.{
  true, false, ◌∷◌, ◌<◌, ◌^◌, List, Bool-cases, inl, inr, ℕ, ◌≡◌, refl, arith, [], Option, none,
  some, false, ok, ◌⊎◌, replicate,
}
use maestro_symphony.Encdec.VarUInt.{encode_varuint, decode_varuint, encode_digits, to_be_bytes}
use maestro_symphony.Table.{encode_key}
use maestro_symphony.Store.{IndexingTask, get, get_inner, set, set_raw, maybe_store_original_kv}
use maestro_symphony.Runes.Tables.{
  RuneId, RuneTerms, RuneInfo, rune_info_by_id_kv, rune_mints_by_id_kv,
}
use maestro_symphony.Runes.Mint.{mint}
use maestro_symphony.Runes.Cap.{Minted, mint-Minted, MintsIfDue, mint-MintsIfDue}
use maestro_symphony.Tests.Database.{memory}

abbrev rune : RuneId
rune = record { block = 840000; tx = 3 }

abbrev ten_mints : RuneTerms
ten_mints = record { amount = some 100; cap = some 10; start_height = some 5; end_height = some 9 }

abbrev info : RuneInfo
info = record {
  name = 77;
  terms = some ten_mints;
  symbol = none;
  divisibility = 0;
  etching_height = 1;
  etching_tx = replicate 32 1;
  premine = 0;
  spacers = 0;
}

abbrev etched_task : IndexingTask
etched_task =
    set memory [] rune_info_by_id_kv
      (record { read_ts = 5; write_buffer = []; original_kvs = some []; mempool = false }) rune info

info_read : get memory [] rune_info_by_id_kv etched_task rune ≡ ok (some info)
unfolding get get_inner set set_raw maybe_store_original_kv encode_key encode_varuint encode_digits
    to_be_bytes decode_varuint
info_read = refl

mints_read : get memory [] rune_mints_by_id_kv etched_task rune ≡ ok none
unfolding get get_inner set set_raw maybe_store_original_kv encode_key encode_varuint encode_digits
    to_be_bytes decode_varuint
mints_read = refl

mint-MintsIfDue_example :
    MintsIfDue memory [] etched_task rune (some ten_mints) 7 0 (mint memory [] etched_task rune 7)
mint-MintsIfDue_example =
    mint-MintsIfDue memory [] etched_task rune 7 (some info) none info_read mints_read (omega arith)

abbrev minted_task : IndexingTask
minted_task = set memory [] rune_mints_by_id_kv etched_task rune 1

first_mint : mint memory [] etched_task rune 7 ≡ ok (minted_task, some 100)
unfolding mint
first_mint = rw (info_read, mints_read) refl

mint-Minted_example :
    ((minted_task ≡ etched_task) × (◌≡◌ {A = Option ℕ} (some 100) none))
    ⊎ ((amount : ℕ) × (◌≡◌ {A = Option ℕ} (some 100) (some amount))
        × Minted memory [] etched_task rune minted_task 7 amount)
mint-Minted_example = mint-Minted memory [] etched_task rune 7 minted_task (some 100) first_mint

abbrev two_outputs : List TxOut
two_outputs =
    record { value = 0; script_pubkey = []; is_op_return = true }
    ∷ record { value = 546; script_pubkey = 81 ∷ []; is_op_return = false }
    ∷ []

-- Five to the second output, and what is left to all outputs.
abbrev two_edicts : List Edict
two_edicts =
    record { id = rune; amount = 5; output = 1 } ∷ record { id = rune; amount = 0; output = 2 } ∷ []

abbrev hundred : Balances × List Balances
hundred = ((rune, 100) ∷ [], [] ∷ [] ∷ [])

hundred_fits : (j : RuneId) → supply j hundred < 2 ^ 128
hundred_fits j = elim (Bool-cases (rune_id_beq rune j)) [
  | inl e ↦ rw e (omega arith)
  | inr e ↦ rw e (omega arith)
]

apply_edicts-IsConserved_example :
    (st' : Balances × List Balances) × (apply_edicts two_outputs none two_edicts hundred ≡ ok st')
    × IsConserved rune hundred st'
apply_edicts-IsConserved_example =
    apply_edicts-IsConserved two_outputs none two_edicts hundred rune refl
      (omega arith, (omega arith, tt)) hundred_fits

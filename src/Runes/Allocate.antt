-- ===== src/Runes/Allocate.antt =====
-- src/sync/stages/index/indexers/custom/runes/indexer.rs: the edicts of a runestone, which move the
-- unallocated balances of a transaction to its outputs. Sums and differences of u128 wrap around, as in
-- a release build. An edict is a type of the ordinals crate with the fields `id`, `amount` and `output`.
use maestro_symphony.Prelude.{
  ℕ, zero, suc, ◌+◌, ◌-◌, ◌^◌, ◌%◌, ◌/◌, ◌≡◌, ◌↔◌, arith, min, List, [], ◌∷◌, length, Option, none,
  some, Bool, true, ◌&&◌, ltb, leb, eqb, Eq, Map, lookup, insert, if◌then◌else◌, Result, ok, err,
}
use maestro_symphony.Core.{Error, panic, TxOut}
use maestro_symphony.Runes.Tables.{RuneId}
use maestro_symphony.Runes.Mint.{unwrap_or_default}

abbrev pub rune_id_beq : RuneId → RuneId → Bool
rune_id_beq a b = eqb a.block b.block && eqb a.tx b.tx

pub rune_id_beq_iff : (a b : RuneId) → (rune_id_beq a b ≡ true) ↔ (a ≡ b)
rune_id_beq_iff a b = ground arith

instance abbrev pub rune_id_eq : Eq RuneId
rune_id_eq = record { beq = rune_id_beq; beq_iff = rune_id_beq_iff }

pub record Edict : Type 0 where
  pub id : RuneId
  pub amount : ℕ
  pub output : ℕ

abbrev pub Balances : Type 0
Balances = Map RuneId ℕ

abbrev pub wrapping_add : ℕ → ℕ → ℕ
wrapping_add a b = (a + b) % (2 ^ 128)

abbrev pub wrapping_sub : ℕ → ℕ → ℕ
wrapping_sub a b = (a + (2 ^ 128 - b)) % (2 ^ 128)

abbrev pub balance_of : RuneId → Balances → ℕ
balance_of id m = unwrap_or_default (lookup id m)

-- `*allocated[output].entry(id).or_default() += amount`; the output is one of the transaction's.
abbrev pub add_at : ℕ → RuneId → ℕ → List Balances → List Balances
add_at output id amount [] = []
add_at zero id amount (m ∷ ms) = insert id (wrapping_add (balance_of id m) amount) m ∷ ms
add_at (suc output) id amount (m ∷ ms) = m ∷ add_at output id amount ms

-- The balance that an edict takes from, and what the outputs have got.
pub record Allocation : Type 0 where
  pub balance : ℕ
  pub allocated : List Balances

module _ (id : RuneId) where
  unfoldable pub allocate : Allocation → ℕ → ℕ → Allocation
  allocate st amount output =
      if ltb 0 amount
      then record {
        balance = wrapping_sub st.balance amount;
        allocated = add_at output id amount st.allocated;
      }
      else st

  -- One more for each of the first `remainder` outputs.
  abbrev pub share_of : ℕ → ℕ → ℕ → ℕ
  share_of amount remainder i = if ltb i remainder then amount + 1 else amount

  unfoldable pub divide : ℕ → ℕ → ℕ → Allocation → List ℕ → Allocation
  divide amount remainder i st [] = st
  divide amount remainder i st (output ∷ outputs) =
      divide amount remainder (suc i) (allocate st (share_of amount remainder i) output) outputs

  unfoldable pub give_each : ℕ → Allocation → List ℕ → Allocation
  give_each amount st [] = st
  give_each amount st (output ∷ outputs) =
      give_each amount (allocate st (min amount st.balance) output) outputs

  abbrev pub divide_evenly : Allocation → List ℕ → Allocation
  divide_evenly st [] = st
  divide_evenly st (output ∷ outputs) =
      let count = length (output ∷ outputs) in
      divide (st.balance / count) (st.balance % count) 0 st (output ∷ outputs)

  abbrev pub to_all : ℕ → Allocation → List ℕ → Allocation
  to_all amount st destinations =
      if eqb amount 0 then divide_evenly st destinations else give_each amount st destinations

  abbrev pub to_one : ℕ → Allocation → ℕ → Allocation
  to_one amount st output =
      allocate st (if eqb amount 0 then st.balance else min amount st.balance) output

-- The outputs that are no OP_RETURN.
abbrev pub destinations_from : ℕ → List TxOut → List ℕ
destinations_from i [] = []
destinations_from i (o ∷ os) =
    let rest = destinations_from (suc i) os in if o.is_op_return then rest else i ∷ rest

unfoldable pub distribute : List TxOut → RuneId → ℕ → ℕ → Allocation → Allocation
distribute outputs id amount output st =
    if eqb output (length outputs)
    then to_all id amount st (destinations_from 0 outputs)
    else to_one id amount st output

-- `RuneId::default()` stands for the rune that is etched.
abbrev pub resolve_id : Option RuneId → RuneId → Option RuneId
resolve_id etched id = if rune_id_beq id (record { block = 0; tx = 0 }) then etched else some id

abbrev pub move_balance :
    List TxOut → Edict → RuneId → Option ℕ → Balances × List Balances → Balances × List Balances
move_balance outputs edict id none st = st
move_balance outputs edict id (some balance) (unallocated, allocated) =
    let st =
      distribute outputs id edict.amount edict.output
        (record { balance = balance; allocated = allocated }) in
    (insert id st.balance unallocated, st.allocated)

abbrev pub apply_to_id :
    List TxOut → Edict → Option RuneId → Balances × List Balances → Balances × List Balances
apply_to_id outputs edict none st = st
apply_to_id outputs edict (some id) st = move_balance outputs edict id (lookup id st.0) st

unfoldable pub apply_edicts :
    List TxOut
    → Option RuneId
    → List Edict
    → Balances × List Balances
    → Result Error (Balances × List Balances)
apply_edicts outputs etched [] st = ok st
apply_edicts outputs etched (edict ∷ edicts) st =
    if leb edict.output (length outputs)
    then apply_edicts outputs etched edicts
        (apply_to_id outputs edict (resolve_id etched edict.id) st)
    else err (panic "edict output beyond the outputs")

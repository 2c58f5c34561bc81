-- ===== src/Runes/Edicts.antt =====
-- src/sync/stages/index/indexers/custom/runes/indexer.rs: the loop over the edicts of a runestone.
use maestro_symphony.Prelude.{
  ℕ, ◌+◌, ◌^◌, ◌≡◌, ◌≤◌, ◌<◌, refl, sym, ap, subst, ◌∙◌, arith, List, [], ◌∷◌, length, All, Option,
  none, some, Bool, true, false, Bool-cases, inl, inr, leb, lookup, if◌then◌else◌, ok,
}
use maestro_symphony.Core.{TxOut}
use maestro_symphony.Runes.Tables.{RuneId}
use maestro_symphony.Runes.Mint.{unwrap_or_default}
use maestro_symphony.Runes.Allocate.{
  rune_id_eq, rune_id_beq, rune_id_beq_iff, Edict, Balances, balance_of, Allocation, distribute,
  resolve_id, move_balance, apply_to_id, apply_edicts,
}
use maestro_symphony.Runes.Conservation.{sum_of, balance_of-insert, Keeps, distribute-Keeps}

-- All there is of a rune in a transaction, unallocated or at an output.
abbrev pub supply : RuneId → Balances × List Balances → ℕ
supply i st = balance_of i st.0 + sum_of i st.1

-- The same supply and the same outputs.
abbrev pub IsConserved : RuneId → Balances × List Balances → Balances × List Balances → Type 0
IsConserved i before after = (supply i after ≡ supply i before) × (length after.1 ≡ length before.1)

move_balance-IsConserved :
    (outputs : List TxOut) (edict : Edict) (id i : RuneId) (o : Option ℕ)
    (st : Balances × List Balances)
    → lookup id st.0 ≡ o
    → length st.1 ≡ length outputs
    → edict.output ≤ length outputs
    → supply id st < 2 ^ 128
    → IsConserved i st (move_balance outputs edict id o st)
move_balance-IsConserved outputs edict id i none st q l h f = (refl, refl)
move_balance-IsConserved outputs edict id i (some balance) (unallocated, allocated) q l h f =
    let st : Allocation = record { balance = balance; allocated = allocated } in
    let k : Keeps id i st (distribute outputs id edict.amount edict.output st) =
      distribute-Keeps outputs id i edict.amount edict.output st l h
        (subst (λ w. unwrap_or_default w + sum_of id allocated < 2 ^ 128) q f) in
    let held_of : (b : Bool)
        → rune_id_beq id i ≡ b
        → (if b then (distribute outputs id edict.amount edict.output st).balance else 0)
            + sum_of i (distribute outputs id edict.amount edict.output st).allocated
          ≡ (if b then balance else 0) + sum_of i allocated =
      λ b e.
        subst
          (λ x.
            (if x then (distribute outputs id edict.amount edict.output st).balance else 0)
              + sum_of i (distribute outputs id edict.amount edict.output st).allocated
            ≡ (if x then balance else 0) + sum_of i allocated)
          e k.same_held in
    let next : Allocation = distribute outputs id edict.amount edict.output st in
    (
      elim (Bool-cases (rune_id_beq id i)) [
        | inl e ↦
            let own : balance_of i unallocated ≡ balance =
              ap (λ j. balance_of j unallocated) (sym ((rune_id_beq_iff id i).0 e))
              ∙ ap unwrap_or_default q in
            rw (balance_of-insert i id next.balance unallocated, e)
              (omega (arith, own, held_of true e))
        | inr e ↦
            rw (balance_of-insert i id next.balance unallocated, e) (omega (arith, held_of false e))
      ],
      k.same_length,
    )

apply_to_id-IsConserved :
    (outputs : List TxOut) (edict : Edict) (i : RuneId) (o : Option RuneId)
    (st : Balances × List Balances)
    → length st.1 ≡ length outputs
    → edict.output ≤ length outputs
    → ((j : RuneId) → supply j st < 2 ^ 128)
    → IsConserved i st (apply_to_id outputs edict o st)
apply_to_id-IsConserved outputs edict i none st l h f = (refl, refl)
apply_to_id-IsConserved outputs edict i (some id) st l h f =
    move_balance-IsConserved outputs edict id i (lookup id st.0) st refl l h (f id)

-- Where every edict names an output, or the number of outputs for all of them, and the supply of
-- every rune in the transaction is a u128, the edicts succeed, and the supply of each rune,
-- unallocated or at an output, is what it was.
pub apply_edicts-IsConserved :
    (outputs : List TxOut) (etched : Option RuneId) (edicts : List Edict)
    (st : Balances × List Balances) (i : RuneId)
    → length st.1 ≡ length outputs
    → All (λ e. e.output ≤ length outputs) edicts
    → ((j : RuneId) → supply j st < 2 ^ 128)
    → (st' : Balances × List Balances) × (apply_edicts outputs etched edicts st ≡ ok st')
      × IsConserved i st st'
unfolding apply_edicts
apply_edicts-IsConserved outputs etched [] st i l h f = (st, refl, (refl, refl))
apply_edicts-IsConserved outputs etched (edict ∷ edicts) st i l h f =
    let o : Option RuneId = resolve_id etched edict.id in
    let kept : (j : RuneId) → IsConserved j st (apply_to_id outputs edict o st) =
      λ j. apply_to_id-IsConserved outputs edict j o st l h.0 f in
    let (st', e, c) =
      apply_edicts-IsConserved outputs etched edicts (apply_to_id outputs edict o st) i
        ((kept i).1 ∙ l) h.1 (λ j. subst (λ x. x < 2 ^ 128) (sym (kept j).0) (f j)) in
    (st', rw (valid edict.output (length outputs) h.0) e, (c.0 ∙ (kept i).0, c.1 ∙ (kept i).1))
  where
    valid : (a b : ℕ) → a ≤ b → leb a b ≡ true
    valid a b h = ground arith

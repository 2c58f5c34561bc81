-- ===== src/Runes/Held.antt =====
-- src/sync/stages/index/indexers/custom/runes/indexer.rs: the maps of balances that the edicts make: of the
-- runes that were unallocated, each under one key, with amounts that are u128s.
use maestro_symphony.Prelude.{
  ℕ, zero, suc, ◌^◌, ◌≡◌, ◌≤◌, ◌<◌, refl, subst, arith, min, List, [], ◌∷◌, length, All, Option,
  none, some, Option-cases, Bool-cases, inl, inr, ltb, leb, eqb, lookup, insert, remove,
  lookup-remove, lookup-insert, HasDistinctKeys, insert-HasDistinctKeys, ok, ok-injective,
}
use maestro_symphony.Core.{TxOut}
use maestro_symphony.Runes.Tables.{RuneId}
use maestro_symphony.Runes.Allocate.{
  rune_id_eq, rune_id_beq, rune_id_beq_iff, Edict, Balances, balance_of, wrapping_add, add_at,
  Allocation, allocate, share_of, divide, give_each, divide_evenly, destinations_from, distribute,
  resolve_id, move_balance, apply_to_id, apply_edicts,
}
use maestro_symphony.Runes.Outputs.{give_rest}

-- A rune id and an amount of their types.
abbrev pub FitsRune : RuneId × ℕ → Type 0
FitsRune (id, amount) = ((id.block < 2 ^ 64) × (id.tx < 2 ^ 32)) × (amount < 2 ^ 128)

FitsRune-lookup :
    (id : RuneId) (b : ℕ) (m : Balances) → All FitsRune m → lookup id m ≡ some b → FitsRune (id, b)
FitsRune-lookup id b [] f e = absurd (cc e)
FitsRune-lookup id b ((j, w) ∷ m) f e = elim (Bool-cases (rune_id_beq j id)) [
  | inl q ↦ ground (arith, f.0, (rune_id_beq_iff j id).0 q, (rw q at e))
  | inr q ↦ FitsRune-lookup id b m f.1 (rw q at e)
]

pub FitsRune-insert :
    (id : RuneId) (v : ℕ) (m : Balances)
    → All FitsRune m
    → FitsRune (id, v)
    → All FitsRune (insert id v m)
FitsRune-insert id v [] f h = (h, tt)
FitsRune-insert id v ((j, w) ∷ m) f h = elim (Bool-cases (rune_id_beq j id)) [
  | inl q ↦ rw q (h, f.1)
  | inr q ↦ rw q (f.0, FitsRune-insert id v m f.1 h)
]

length-remove : (k : RuneId) (m : Balances) → length (remove k m) ≤ length m
length-remove k [] = omega arith
length-remove k ((j, w) ∷ m) = elim (Bool-cases (rune_id_beq j k)) [
  | inl q ↦ rw q (omega (arith, length-remove k m))
  | inr q ↦ rw q (omega (arith, length-remove k m))
]

length-remove_known :
    (k : RuneId) (b : ℕ) (m : Balances) → lookup k m ≡ some b → length (remove k m) < length m
length-remove_known k b [] e = absurd (cc e)
length-remove_known k b ((j, w) ∷ m) e = elim (Bool-cases (rune_id_beq j k)) [
  | inl q ↦ rw q (omega (arith, length-remove k m))
  | inr q ↦ rw q (omega (arith, length-remove_known k b m (rw q at e)))
]

-- Distinct keys among those of a map are no more than those.
length-within :
    (m all : Balances)
    → HasDistinctKeys m
    → ((j : RuneId) → lookup j all ≡ none → lookup j m ≡ none)
    → length m ≤ length all
length-within [] all d within = omega arith
length-within ((k, v) ∷ m) all d within = elim (Option-cases (lookup k all)) [
  | inl q ↦ absurd (cc (rw ((rune_id_beq_iff k k).1 refl) at (within k q)))
  | inr (b, q) ↦ omega (
    arith,
    length-remove_known k b all q,
    length-within m (remove k all) d.1 (λ j e. elim (Bool-cases (rune_id_beq k j)) [
      | inl s ↦ subst (λ i. lookup i m ≡ none) ((rune_id_beq_iff k j).0 s) d.0
      | inr s ↦ rw s at (within j (rw (lookup-remove j k all, s) at e))
    ]),
  )
]

-- A map of runes among all those of a transaction.
pub record IsHeld (all m : Balances) : Type 0 where
  pub distinct : HasDistinctKeys m
  pub within : (j : RuneId) → lookup j all ≡ none → lookup j m ≡ none
  pub fits : All FitsRune m

module _ (all : Balances) where
  pub IsHeld-length : (m : Balances) → IsHeld all m → length m ≤ length all
  IsHeld-length m h = length-within m all h.distinct h.within

  -- A rune that one of the maps has can be added to another.
  IsHeld-insert :
      (id : RuneId) (b v : ℕ) (known m : Balances)
      → IsHeld all known
      → lookup id known ≡ some b
      → v < 2 ^ 128
      → IsHeld all m
      → IsHeld all (insert id v m)
  IsHeld-insert id b v known m k q l h = record {
    distinct = insert-HasDistinctKeys id v m h.distinct;
    within = λ j e. elim (Bool-cases (rune_id_beq id j)) [
      | inl s ↦ absurd (cc (k.within j e, q, (rune_id_beq_iff id j).0 s))
      | inr s ↦ rw (lookup-insert j id v m, s) (h.within j e)
    ];
    fits = FitsRune-insert id v m h.fits ((FitsRune-lookup id b known k.fits q).0, l);
  }

  module _ (id : RuneId) (b : ℕ) (known : Balances) (k : IsHeld all known)
      (q : lookup id known ≡ some b) where
    add_at-IsHeld :
        (vout a : ℕ) (ms : List Balances)
        → All (IsHeld all) ms
        → All (IsHeld all) (add_at vout id a ms)
    add_at-IsHeld vout a [] h = tt
    add_at-IsHeld zero a (m ∷ ms) h =
        (IsHeld-insert id b (wrapping_add (balance_of id m) a) known m k q (omega arith) h.0, h.1)
    add_at-IsHeld (suc vout) a (m ∷ ms) h = (h.0, add_at-IsHeld vout a ms h.1)

    -- What is left of the rune, and what the outputs have got.
    abbrev AreHeld : Allocation → Type 0
    AreHeld st = (st.balance < 2 ^ 128) × All (IsHeld all) st.allocated

    allocate-AreHeld :
        (st : Allocation) (amount output : ℕ) → AreHeld st → AreHeld (allocate id st amount output)
    unfolding allocate
    allocate-AreHeld st amount output h = elim (Bool-cases (ltb 0 amount)) [
      | inl e ↦ rw e (omega arith, add_at-IsHeld output amount st.allocated h.1)
      | inr e ↦ rw e h
    ]

    divide-AreHeld :
        (amount remainder i : ℕ) (st : Allocation) (outputs : List ℕ)
        → AreHeld st
        → AreHeld (divide id amount remainder i st outputs)
    unfolding divide
    divide-AreHeld amount remainder i st [] h = h
    divide-AreHeld amount remainder i st (o ∷ os) h =
        divide-AreHeld amount remainder (suc i) _ os
          (allocate-AreHeld st (share_of id amount remainder i) o h)

    give_each-AreHeld :
        (amount : ℕ) (st : Allocation) (outputs : List ℕ)
        → AreHeld st
        → AreHeld (give_each id amount st outputs)
    unfolding give_each
    give_each-AreHeld amount st [] h = h
    give_each-AreHeld amount st (o ∷ os) h =
        give_each-AreHeld amount (allocate id st (min amount st.balance) o) os
          (allocate-AreHeld st (min amount st.balance) o h)

    divide_evenly-AreHeld :
        (st : Allocation) (outputs : List ℕ) → AreHeld st → AreHeld (divide_evenly id st outputs)
    divide_evenly-AreHeld st [] h = h
    divide_evenly-AreHeld st (o ∷ os) h = divide-AreHeld _ _ 0 st (o ∷ os) h

    distribute-AreHeld :
        (outputs : List TxOut) (amount output : ℕ) (st : Allocation)
        → AreHeld st
        → AreHeld (distribute outputs id amount output st)
    unfolding distribute
    distribute-AreHeld outputs amount output st h =
        elim (Bool-cases (eqb output (length outputs))) [
          | inr e ↦ rw e (allocate-AreHeld st _ output h)
          | inl e ↦ elim (Bool-cases (eqb amount 0)) [
            | inl z ↦ rw (e, z) (divide_evenly-AreHeld st (destinations_from 0 outputs) h)
            | inr z ↦ rw (e, z) (give_each-AreHeld amount st (destinations_from 0 outputs) h)
          ]
        ]

  -- The unallocated balances and those of the outputs.
  abbrev pub HoldsWithin : Balances × List Balances → Type 0
  HoldsWithin st = IsHeld all st.0 × All (IsHeld all) st.1

  move_balance-HoldsWithin :
      (outputs : List TxOut) (edict : Edict) (id : RuneId) (o : Option ℕ)
      (st : Balances × List Balances)
      → lookup id st.0 ≡ o
      → HoldsWithin st
      → HoldsWithin (move_balance outputs edict id o st)
  move_balance-HoldsWithin outputs edict id none st q h = h
  move_balance-HoldsWithin outputs edict id (some b) (m, ms) q h =
      let (l, g) =
        distribute-AreHeld id b m h.0 q outputs edict.amount edict.output
          (record { balance = b; allocated = ms }) ((FitsRune-lookup id b m h.0.fits q).1, h.1) in
      (IsHeld-insert id b _ m m h.0 q l h.0, g)

  apply_to_id-HoldsWithin :
      (outputs : List TxOut) (edict : Edict) (o : Option RuneId) (st : Balances × List Balances)
      → HoldsWithin st
      → HoldsWithin (apply_to_id outputs edict o st)
  apply_to_id-HoldsWithin outputs edict none st h = h
  apply_to_id-HoldsWithin outputs edict (some id) st h =
      move_balance-HoldsWithin outputs edict id (lookup id st.0) st refl h

  -- The edicts that succeed name outputs, or their number.
  pub apply_edicts-HoldsWithin :
      (outputs : List TxOut) (etched : Option RuneId) (edicts : List Edict)
      (st st' : Balances × List Balances)
      → apply_edicts outputs etched edicts st ≡ ok st'
      → HoldsWithin st
      → HoldsWithin st' × All (λ e. e.output ≤ length outputs) edicts
  unfolding apply_edicts
  apply_edicts-HoldsWithin outputs etched [] st st' e h = (subst HoldsWithin (ok-injective e) h, tt)
  apply_edicts-HoldsWithin outputs etched (edict ∷ edicts) st st' e h =
      elim (Bool-cases (leb edict.output (length outputs))) [
        | inr b ↦ absurd (cc (rw b at e))
        | inl b ↦
            let (k, a) =
              apply_edicts-HoldsWithin outputs etched edicts _ st' (rw b at e)
                (apply_to_id-HoldsWithin outputs edict (resolve_id etched edict.id) st h) in
            (k, (ground arith, a))
      ]

  pub give_rest-IsHeld :
      (vout : ℕ) (m : Balances) (ms : List Balances)
      → IsHeld all m
      → All (IsHeld all) ms
      → All (IsHeld all) (give_rest vout m ms)
  unfolding give_rest
  give_rest-IsHeld vout [] ms k h = h
  give_rest-IsHeld vout ((id, b) ∷ m) ms k h =
      give_rest-IsHeld vout m _
        (record {
          distinct = k.distinct.1;
          within = λ j e. elim (Bool-cases (rune_id_beq id j)) [
            | inl s ↦ subst (λ i. lookup i m ≡ none) ((rune_id_beq_iff id j).0 s) k.distinct.0
            | inr s ↦ rw s at (k.within j e)
          ];
          fits = k.fits.1;
        })
        (elim (Bool-cases (ltb 0 b)) [
          | inl e ↦ rw e (
              add_at-IsHeld id b ((id, b) ∷ m) k (rw ((rune_id_beq_iff id id).1 refl) refl) vout b
                ms h)
          | inr e ↦ rw e h
        ])

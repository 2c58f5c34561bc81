-- ===== src/Runes/Leftovers.antt =====
-- src/sync/stages/index/indexers/custom/runes/indexer.rs: the runes of a transaction from its inputs to
-- its outputs.
use maestro_symphony.Prelude.{
  ℕ, zero, suc, ◌+◌, ◌^◌, ◌≡◌, ◌≤◌, ◌<◌, refl, sym, ap, subst, ◌∙◌, arith, List, [], ◌∷◌, length,
  All, replicate, Option, none, some, Bool, true, false, Bool-cases, inl, inr, ltb, leb, lookup,
  HasDistinctKeys, insert-HasDistinctKeys, if◌then◌else◌, ok, ◌>>=◌, ok-injective,
}
use maestro_symphony.Core.{TxOut}
use maestro_symphony.Runes.Tables.{RuneId}
use maestro_symphony.Runes.Allocate.{
  rune_id_eq, rune_id_beq, rune_id_beq_iff, Edict, Balances, balance_of, add_at, apply_edicts,
  apply_to_id, move_balance, resolve_id, destinations_from,
}
use maestro_symphony.Runes.Conservation.{sum_of, sum_of-add_at}
use maestro_symphony.Runes.Edicts.{supply, apply_edicts-IsConserved}
use maestro_symphony.Runes.Outputs.{give_rest, give_or_burn, first_of, default_output, assign_to}

move_balance-HasDistinctKeys :
    (outputs : List TxOut) (edict : Edict) (id : RuneId) (o : Option ℕ)
    (st : Balances × List Balances)
    → HasDistinctKeys st.0
    → HasDistinctKeys (move_balance outputs edict id o st).0
move_balance-HasDistinctKeys outputs edict id none st h = h
move_balance-HasDistinctKeys outputs edict id (some balance) (m, ms) h =
    insert-HasDistinctKeys id _ m h

apply_to_id-HasDistinctKeys :
    (outputs : List TxOut) (edict : Edict) (o : Option RuneId) (st : Balances × List Balances)
    → HasDistinctKeys st.0
    → HasDistinctKeys (apply_to_id outputs edict o st).0
apply_to_id-HasDistinctKeys outputs edict none st h = h
apply_to_id-HasDistinctKeys outputs edict (some id) st h =
    move_balance-HasDistinctKeys outputs edict id (lookup id st.0) st h

pub apply_edicts-HasDistinctKeys :
    (outputs : List TxOut) (etched : Option RuneId) (edicts : List Edict)
    (st st' : Balances × List Balances)
    → HasDistinctKeys st.0
    → apply_edicts outputs etched edicts st ≡ ok st'
    → HasDistinctKeys st'.0
unfolding apply_edicts
apply_edicts-HasDistinctKeys outputs etched [] st st' h e =
    subst (λ x. HasDistinctKeys x.0) (ok-injective e) h
apply_edicts-HasDistinctKeys outputs etched (edict ∷ edicts) st st' h e =
    elim (Bool-cases (leb edict.output (length outputs))) [
      | inl b ↦
          apply_edicts-HasDistinctKeys outputs etched edicts _ st'
            (apply_to_id-HasDistinctKeys outputs edict (resolve_id etched edict.id) st h)
            (rw b at e)
      | inr b ↦ absurd (cc (rw b at e))
    ]

lookup_other :
    (i id : RuneId) (m : Balances)
    → lookup id m ≡ none
    → rune_id_beq id i ≡ true
    → lookup i m ≡ none
lookup_other i id m h e = subst (λ j. lookup j m ≡ none) ((rune_id_beq_iff id i).0 e) h

abbrev give_one : ℕ → RuneId → ℕ → List Balances → List Balances
give_one vout id b ms = if ltb 0 b then add_at vout id b ms else ms

give_one_lem :
    (i : RuneId) (vout : ℕ) (id : RuneId) (b : ℕ) (ms : List Balances)
    → vout < length ms
    → sum_of id ms + b < 2 ^ 128
    → (sum_of i (give_one vout id b ms) ≡ sum_of i ms + (if rune_id_beq id i then b else 0))
      × (length (give_one vout id b ms) ≡ length ms)
give_one_lem i vout id b ms l f = elim (Bool-cases (ltb 0 b)) [
  | inl e ↦ rw e (sum_of-add_at i id vout b ms l f)
  | inr e ↦ rw e (nothing e (rune_id_beq id i), refl)
]
  where
    nothing : ltb 0 b ≡ false → (c : Bool) → sum_of i ms ≡ sum_of i ms + (if c then b else 0)
    nothing e true = ground arith
    nothing e false = omega arith

-- What is left goes to one output whole.
pub sum_of-give_rest :
    (i : RuneId) (vout : ℕ) (m : Balances) (ms : List Balances)
    → HasDistinctKeys m
    → vout < length ms
    → ((j : RuneId) → supply j (m, ms) < 2 ^ 128)
    → sum_of i (give_rest vout m ms) ≡ supply i (m, ms)
unfolding give_rest
sum_of-give_rest i vout [] ms d l f = omega arith
sum_of-give_rest i vout ((id, b) ∷ m) ms d l f =
    sum_of-give_rest i vout m (give_one vout id b ms) d.1 (omega (arith, l, (given i).1))
      (λ j. subst (λ n. n < 2 ^ 128) (sym (same j)) (f j))
    ∙ same i
  where
    own : balance_of id ((id, b) ∷ m) ≡ b
    own = rw ((rune_id_beq_iff id id).1 refl) refl

    given :
        (j : RuneId)
        → (sum_of j (give_one vout id b ms) ≡ sum_of j ms + (if rune_id_beq id j then b else 0))
          × (length (give_one vout id b ms) ≡ length ms)
    given j = give_one_lem j vout id b ms l (omega (arith, f id, own))

    same : (j : RuneId) → supply j (m, give_one vout id b ms) ≡ supply j ((id, b) ∷ m, ms)
    same j = elim (Bool-cases (rune_id_beq id j)) [
      | inl e ↦ rw ((given j).0, e, lookup_other j id m d.0 e) (omega arith)
      | inr e ↦ rw ((given j).0, e) (omega arith)
    ]

pub sum_of-replicate : (i : RuneId) (n : ℕ) → sum_of i (replicate n []) ≡ 0
sum_of-replicate i zero = refl
sum_of-replicate i (suc n) = omega (arith, sum_of-replicate i n)

pub length-replicate : (n : ℕ) → length (replicate n (let e : Balances = [] in e)) ≡ n
length-replicate zero = refl
length-replicate (suc n) = omega (arith, length-replicate n)

destinations-lt :
    (i : ℕ) (os : List TxOut) (v : ℕ)
    → first_of (destinations_from i os) ≡ some v
    → v < i + length os
destinations-lt i [] v e = absurd (cc e)
destinations-lt i (o ∷ os) v e = elim (Bool-cases o.is_op_return) [
  | inl r ↦ omega (arith, destinations-lt (suc i) os v (rw r at e))
  | inr r ↦ ground (arith, e)
]

default_output-lt :
    (outputs : List TxOut) (pointer : Option ℕ) (v : ℕ)
    → default_output outputs pointer ≡ ok (some v)
    → v < length outputs
default_output-lt outputs none v e = omega (arith, destinations-lt 0 outputs v (ok-injective e))
default_output-lt outputs (some p) v e = ground arith

-- All of the rune arrives at an output, or where there is none to take what is left, no more than all.
abbrev pub Arrives : Option ℕ → ℕ → ℕ → Type 0
Arrives (some vout) all arrived = arrived ≡ all
Arrives none all arrived = arrived ≤ all

abbrev pub start : List TxOut → Balances → Balances × List Balances
start outputs m = (m, replicate (length outputs) [])

give_or_burn-Arrives :
    (outputs : List TxOut) (i : RuneId) (m : Balances) (st : Balances × List Balances)
    (target : Option ℕ) (pointer : Option ℕ)
    → HasDistinctKeys st.0
    → length st.1 ≡ length outputs
    → ((j : RuneId) → supply j st ≡ balance_of j m)
    → ((j : RuneId) → balance_of j m < 2 ^ 128)
    → default_output outputs pointer ≡ ok target
    → Arrives target (balance_of i m) (sum_of i (give_or_burn target st.0 st.1))
give_or_burn-Arrives outputs i m st none pointer d l k f t = omega (arith, k i)
give_or_burn-Arrives outputs i m st (some v) pointer d l k f t =
    sum_of-give_rest i v st.0 st.1 d (omega (arith, default_output-lt outputs pointer v t, l))
      (λ j. subst (λ n. n < 2 ^ 128) (sym (k j)) (f j))
    ∙ k i

-- The edicts and what is left after them.
pub assign_to-Arrives :
    (outputs : List TxOut) (etched : Option RuneId) (edicts : List Edict)
    (pointer target : Option ℕ) (m : Balances) (i : RuneId)
    → HasDistinctKeys m
    → ((j : RuneId) → balance_of j m < 2 ^ 128)
    → All (λ e. e.output ≤ length outputs) edicts
    → default_output outputs pointer ≡ ok target
    → (allocated : List Balances) × ((apply_edicts outputs etched edicts (start outputs m) >>= λ st.
          assign_to st outputs pointer)
        ≡ ok allocated)
      × Arrives target (balance_of i m) (sum_of i allocated)
assign_to-Arrives outputs etched edicts pointer target m i d f h t =
    let whole : (j : RuneId) → supply j (start outputs m) ≡ balance_of j m =
      λ j. omega (arith, sum_of-replicate j (length outputs)) in
    let moved = λ (j : RuneId).
      apply_edicts-IsConserved outputs etched edicts (start outputs m) j
        (length-replicate (length outputs)) h
        (λ k. subst (λ n. n < 2 ^ 128) (sym (whole k)) (f k)) in
    let (st, e, c) = moved i in
    (
      give_or_burn target st.0 st.1,
      rw (e, t) refl,
      give_or_burn-Arrives outputs i m st target pointer
          (apply_edicts-HasDistinctKeys outputs etched edicts (start outputs m) st d e)
          (c.1 ∙ length-replicate (length outputs))
          (λ j.
            let (st', e', c') = moved j in
            ap (supply j) (ok-injective (sym e ∙ e')) ∙ (c'.0 ∙ whole j))
          f t,
    )

-- ===== src/Runes/Shares.antt =====
-- src/sync/stages/index/indexers/custom/runes/indexer.rs: the edicts and what is left after them, as the
-- shares of the outputs.
use maestro_symphony.Prelude.{
  ℕ, zero, suc, ◌^◌, ◌≡◌, ◌≤◌, ◌<◌, refl, sym, ap, subst, ◌∙◌, arith, List, [], ◌∷◌, length, All,
  replicate, Option, none, some, Bool-cases, inl, inr, ltb, HasDistinctKeys, Result-cases, ok,
  ok-injective,
}
use maestro_symphony.Core.{TxOut}
use maestro_symphony.Runes.Tables.{RuneId}
use maestro_symphony.Runes.Allocate.{rune_id_eq, Balances, balance_of, add_at, Edict, apply_edicts}
use maestro_symphony.Runes.Outputs.{give_rest, give_or_burn, default_output, assign_to}
use maestro_symphony.Runes.Conservation.{sum_of}
use maestro_symphony.Runes.Edicts.{apply_edicts-IsConserved}
use maestro_symphony.Runes.Held.{
  FitsRune, IsHeld, HoldsWithin, apply_edicts-HoldsWithin, give_rest-IsHeld,
}
use maestro_symphony.Runes.Leftovers.{
  Arrives, start, assign_to-Arrives, sum_of-replicate, length-replicate,
}

length-add_at :
    (vout : ℕ) (id : RuneId) (a : ℕ) (ms : List Balances) → length (add_at vout id a ms) ≡ length ms
length-add_at vout id a [] = refl
length-add_at zero id a (m ∷ ms) = refl
length-add_at (suc vout) id a (m ∷ ms) = omega (arith, length-add_at vout id a ms)

length-give_rest :
    (vout : ℕ) (m : Balances) (ms : List Balances) → length (give_rest vout m ms) ≡ length ms
unfolding give_rest
length-give_rest vout [] ms = refl
length-give_rest vout ((id, b) ∷ m) ms = elim (Bool-cases (ltb 0 b)) [
  | inl e ↦ rw e (length-give_rest vout m (add_at vout id b ms) ∙ length-add_at vout id b ms)
  | inr e ↦ rw e (length-give_rest vout m ms)
]

module _ (m : Balances) (outputs : List TxOut) where
  pub nothing-IsHeld : (n : ℕ) → All (IsHeld m) (replicate n [])
  nothing-IsHeld zero = tt
  nothing-IsHeld (suc n) =
      (record { distinct = tt; within = λ j e. refl; fits = tt }, nothing-IsHeld n)

  module _ (d : HasDistinctKeys m) (f : All FitsRune m)
      (b : (j : RuneId) → balance_of j m < 2 ^ 128) where
    start-HoldsWithin : HoldsWithin m (start outputs m)
    start-HoldsWithin =
        (record { distinct = d; within = λ j e. e; fits = f }, nothing-IsHeld (length outputs))

    -- The edicts and what is left after them, by the target of the latter.
    pub record IsShared (pointer : Option ℕ) (allocated : List Balances) : Type 0 where
      pub target : Option ℕ
      pub targets : default_output outputs pointer ≡ ok target
      pub are_held : All (IsHeld m) allocated
      pub one_each : length allocated ≡ length outputs
      pub arrives : (i : RuneId) → Arrives target (balance_of i m) (sum_of i allocated)

    give_or_burn-IsHeld :
        (target : Option ℕ) (st : Balances × List Balances)
        → HoldsWithin m st
        → All (IsHeld m) (give_or_burn target st.0 st.1)
          × (length (give_or_burn target st.0 st.1) ≡ length st.1)
    give_or_burn-IsHeld none st h = (h.1, refl)
    give_or_burn-IsHeld (some v) st h =
        (give_rest-IsHeld m v st.0 st.1 h.0 h.1, length-give_rest v st.0 st.1)

    pub edicts-IsShared :
        (etched : Option RuneId) (edicts : List Edict) (pointer : Option ℕ)
        (st : Balances × List Balances) (allocated : List Balances)
        → apply_edicts outputs etched edicts (start outputs m) ≡ ok st
        → assign_to st outputs pointer ≡ ok allocated
        → IsShared pointer allocated
    edicts-IsShared etched edicts pointer st allocated e a =
        elim (Result-cases (default_output outputs pointer)) [
          | inr (x, q) ↦ absurd (cc (rw q at a))
          | inl (target, q) ↦
              let given : give_or_burn target st.0 st.1 ≡ allocated = ok-injective (rw q at a) in
              let (h, named) =
                apply_edicts-HoldsWithin m outputs etched edicts (start outputs m) st e
                  start-HoldsWithin in
              let (g, n) = give_or_burn-IsHeld target st h in
              record {
                target = target;
                targets = q;
                are_held = subst (All (IsHeld m)) given g;
                one_each = ap length (sym given) ∙ (n ∙ one_each_of named);
                arrives = λ i.
                    let (ms, w, c) =
                      assign_to-Arrives outputs etched edicts pointer target m i d b named q in
                    subst (λ x. Arrives target (balance_of i m) (sum_of i x))
                      (ok-injective (sym w ∙ (rw e a))) c;
              }
        ]
      where
        one_each_of : All (λ x. x.output ≤ length outputs) edicts → length st.1 ≡ length outputs
        one_each_of named =
            let (st', e', c) =
              apply_edicts-IsConserved outputs etched edicts (start outputs m)
                (record { block = 0; tx = 0 }) (length-replicate (length outputs)) named
                (λ j. omega (arith, b j, sum_of-replicate j (length outputs))) in
            ap (λ x. length x.1) (ok-injective (sym e ∙ e'))
            ∙ (c.1 ∙ length-replicate (length outputs))

-- ===== src/Runes/Conservation.antt =====
-- src/sync/stages/index/indexers/custom/runes/indexer.rs: the balances before and after an
-- edict.
use maestro_symphony.Prelude.{
  ℕ, zero, suc, ◌+◌, ◌-◌, ◌*◌, ◌^◌, ◌%◌, ◌/◌, ◌≡◌, ◌≤◌, ◌<◌, refl, sym, ap, subst, ◌∙◌, arith, min,
  List, [], ◌∷◌, length, All, Bool, true, false, Bool-cases, inl, inr, ltb, eqb, insert,
  lookup-insert, if◌then◌else◌,
}
use native.Mathlib.Nat.{div-add-mod}
use maestro_symphony.Core.{TxOut}
use maestro_symphony.Runes.Tables.{RuneId}
use maestro_symphony.Runes.Allocate.{
  rune_id_eq, rune_id_beq, rune_id_beq_iff, Balances, balance_of, add_at, Allocation, allocate,
  share_of, divide, give_each, divide_evenly, to_all, to_one, destinations_from, distribute,
  wrapping_add, wrapping_sub,
}

-- What all outputs have of a rune.
abbrev pub sum_of : RuneId → List Balances → ℕ
sum_of i [] = 0
sum_of i (m ∷ ms) = balance_of i m + sum_of i ms

pub balance_of-insert :
    (i id : RuneId) (v : ℕ) (m : Balances)
    → balance_of i (insert id v m) ≡ (if rune_id_beq id i then v else balance_of i m)
balance_of-insert i id v m = elim (Bool-cases (rune_id_beq id i)) [
  | inl e ↦ rw (lookup-insert i id v m, e) refl
  | inr e ↦ rw (lookup-insert i id v m, e) refl
]

-- An amount that is added to one output is added to the sum of its rune, and to no other.
pub sum_of-add_at :
    (i id : RuneId) (o a : ℕ) (ms : List Balances)
    → o < length ms
    → sum_of id ms + a < 2 ^ 128
    → (sum_of i (add_at o id a ms) ≡ sum_of i ms + (if rune_id_beq id i then a else 0))
      × (length (add_at o id a ms) ≡ length ms)
sum_of-add_at i id o a [] h f = absurd (omega (arith, h))
sum_of-add_at i id zero a (m ∷ ms) h f = elim (Bool-cases (rune_id_beq id i)) [
  | inl e ↦ (
    rw (balance_of-insert i id (wrapping_add (balance_of id m) a) m, e)
        (subst
          (λ j. wrapping_add (balance_of id m) a + sum_of j ms ≡ balance_of j m + sum_of j ms + a)
          ((rune_id_beq_iff id i).0 e) (omega (arith, f))),
    refl,
  )
  | inr e ↦
      (rw (balance_of-insert i id (wrapping_add (balance_of id m) a) m, e) (omega arith), refl)
]
sum_of-add_at i id (suc o) a (m ∷ ms) h f =
    let (s, l) = sum_of-add_at i id o a ms (omega (arith, h)) (omega (arith, f)) in
    (omega (arith, s), omega (arith, l))

-- What an allocation holds of a rune, with the balance of the edict's own.
abbrev pub held : RuneId → RuneId → Allocation → ℕ
held id i st = (if rune_id_beq id i then st.balance else 0) + sum_of i st.allocated

-- Nothing is made or burned, and no output comes or goes.
pub record Keeps (id i : RuneId) (before after : Allocation) : Type 0 where
  pub same_held : held id i after ≡ held id i before
  pub same_length : length after.allocated ≡ length before.allocated

-- No sum of the edict's rune overflows.
abbrev pub Fits : RuneId → Allocation → Type 0
Fits id st = st.balance + sum_of id st.allocated < 2 ^ 128

unshifted : (a b c : ℕ) → a ≤ b + (c - 0) → a ≤ b + c
unshifted a b c h = omega arith

module _ (id : RuneId) where
  Keeps-trans : (i : RuneId) (a b c : Allocation) → Keeps id i a b → Keeps id i b c → Keeps id i a c
  Keeps-trans i a b c h k = record {
    same_held = k.same_held ∙ h.same_held;
    same_length = k.same_length ∙ h.same_length;
  }

  Keeps-Fits : (a b : Allocation) → Keeps id id a b → Fits id a → Fits id b
  Keeps-Fits a b h f =
      subst (λ n. n < 2 ^ 128) (sym (held_own a) ∙ (sym h.same_held ∙ held_own b)) f
    where
      held_own : (st : Allocation) → held id id st ≡ st.balance + sum_of id st.allocated
      held_own st =
          ap (λ x. (if x then st.balance else 0) + sum_of id st.allocated)
            ((rune_id_beq_iff id id).1 refl)

  allocate-Keeps :
      (i : RuneId) (st : Allocation) (amount output : ℕ)
      → Fits id st
      → amount ≤ st.balance
      → output < length st.allocated
      → Keeps id i st (allocate id st amount output)
  unfolding allocate
  allocate-Keeps i st amount output f h o = elim (Bool-cases (ltb 0 amount)) [
    | inr e ↦ rw e (record { same_held = refl; same_length = refl })
    | inl e ↦
        let (s, l) = sum_of-add_at i id output amount st.allocated o (omega (arith, f, h)) in
        rw e (record {
          same_held =
              moved (rune_id_beq id i) (sum_of i st.allocated)
                (sum_of i (add_at output id amount st.allocated)) s;
          same_length = l;
        })
  ]
    where
      moved :
          (b : Bool) (before after : ℕ)
          → after ≡ before + (if b then amount else 0)
          → (if b then wrapping_sub st.balance amount else 0) + after
            ≡ (if b then st.balance else 0) + before
      moved true before after e = omega (arith, e, f, h)
      moved false before after e = omega (arith, e)

  give_each-Keeps :
      (i : RuneId) (amount : ℕ) (st : Allocation) (outputs : List ℕ)
      → Fits id st
      → All (λ o. o < length st.allocated) outputs
      → Keeps id i st (give_each id amount st outputs)
  unfolding give_each
  give_each-Keeps i amount st [] f b = record { same_held = refl; same_length = refl }
  give_each-Keeps i amount st (o ∷ os) f b =
      let next : Allocation = allocate id st (min amount st.balance) o in
      let own : Keeps id id st next =
        allocate-Keeps id st (min amount st.balance) o f (omega arith) b.0 in
      Keeps-trans i st next _ (allocate-Keeps i st (min amount st.balance) o f (omega arith) b.0) (
        give_each-Keeps i amount next os (Keeps-Fits st next own f)
          (subst (λ n. All (λ o. o < n) os) (sym own.same_length) b.1))

  -- What the outputs from the i-th on are to get.
  abbrev shares : ℕ → ℕ → ℕ → List ℕ → ℕ
  shares amount remainder k [] = 0
  shares amount remainder k (o ∷ os) =
      share_of id amount remainder k + shares amount remainder (suc k) os

  allocate-balance :
      (st : Allocation) (amount output : ℕ)
      → Fits id st
      → amount ≤ st.balance
      → (allocate id st amount output).balance + amount ≡ st.balance
  unfolding allocate
  allocate-balance st amount output f h = elim (Bool-cases (ltb 0 amount)) [
    | inl e ↦ rw e (omega (arith, f, h))
    | inr e ↦ rw e (zero_amount amount e)
  ]
    where
      zero_amount : (a : ℕ) → ltb 0 a ≡ false → st.balance + a ≡ st.balance
      zero_amount a e = ground arith

  divide-Keeps :
      (i : RuneId) (amount remainder k : ℕ) (st : Allocation) (outputs : List ℕ)
      → Fits id st
      → shares amount remainder k outputs ≤ st.balance
      → All (λ o. o < length st.allocated) outputs
      → Keeps id i st (divide id amount remainder k st outputs)
  unfolding divide
  divide-Keeps i amount remainder k st [] f h b = record { same_held = refl; same_length = refl }
  divide-Keeps i amount remainder k st (o ∷ os) f h b =
      let share : ℕ = share_of id amount remainder k in
      let next : Allocation = allocate id st share o in
      let own : Keeps id id st next = allocate-Keeps id st share o f (omega (arith, h)) b.0 in
      Keeps-trans i st next _ (allocate-Keeps i st share o f (omega (arith, h)) b.0) (
        divide-Keeps i amount remainder (suc k) next os (Keeps-Fits st next own f)
          (omega (arith, h, allocate-balance st share o f (omega (arith, h))))
          (subst (λ n. All (λ o. o < n) os) (sym own.same_length) b.1))

  shares-le :
      (amount remainder k : ℕ) (outputs : List ℕ)
      → shares amount remainder k outputs ≤ length outputs * amount + (remainder - k)
  shares-le amount remainder k [] = omega arith
  shares-le amount remainder k (o ∷ os) = ground (arith, shares-le amount remainder (suc k) os)

  to_all-Keeps :
      (i : RuneId) (amount : ℕ) (st : Allocation) (outputs : List ℕ)
      → Fits id st
      → All (λ o. o < length st.allocated) outputs
      → Keeps id i st (to_all id amount st outputs)
  to_all-Keeps i amount st outputs f b = elim (Bool-cases (eqb amount 0)) [
    | inl e ↦ rw e (evenly outputs b)
    | inr e ↦ rw e (give_each-Keeps i amount st outputs f b)
  ]
    where
      evenly :
          (outputs : List ℕ)
          → All (λ o. o < length st.allocated) outputs
          → Keeps id i st (divide_evenly id st outputs)
      evenly [] b = record { same_held = refl; same_length = refl }
      evenly (o ∷ os) b =
          let count : ℕ = length (o ∷ os) in
          divide-Keeps i (st.balance / count) (st.balance % count) 0 st (o ∷ os) f
            (subst (λ n. shares (st.balance / count) (st.balance % count) 0 (o ∷ os) ≤ n)
              (div-add-mod st.balance count)
              (unshifted _ _ _ (shares-le (st.balance / count) (st.balance % count) 0 (o ∷ os))))
            b

  to_one-Keeps :
      (i : RuneId) (amount : ℕ) (st : Allocation) (output : ℕ)
      → Fits id st
      → output < length st.allocated
      → Keeps id i st (to_one id amount st output)
  to_one-Keeps i amount st output f b = elim (Bool-cases (eqb amount 0)) [
    | inl e ↦ rw e (allocate-Keeps i st st.balance output f (omega arith) b)
    | inr e ↦ rw e (allocate-Keeps i st (min amount st.balance) output f (omega arith) b)
  ]

destinations_from-All :
    (k n : ℕ) (os : List TxOut) → k + length os ≤ n → All (λ o. o < n) (destinations_from k os)
destinations_from-All k n [] h = tt
destinations_from-All k n (o ∷ os) h = elim (Bool-cases o.is_op_return) [
  | inl e ↦ rw e (destinations_from-All (suc k) n os (omega (arith, h)))
  | inr e ↦ rw e (omega (arith, h), destinations_from-All (suc k) n os (omega (arith, h)))
]

pub distribute-Keeps :
    (outputs : List TxOut) (id i : RuneId) (amount output : ℕ) (st : Allocation)
    → length st.allocated ≡ length outputs
    → output ≤ length outputs
    → Fits id st
    → Keeps id i st (distribute outputs id amount output st)
unfolding distribute
distribute-Keeps outputs id i amount output st l h f =
    elim (Bool-cases (eqb output (length outputs))) [
      | inl e ↦ rw e (
          to_all-Keeps id i amount st _ f
            (destinations_from-All 0 (length st.allocated) outputs (omega (arith, l))))
      | inr e ↦ rw e (
          to_one-Keeps id i amount st output f
            (below output (length outputs) (length st.allocated) l h e))
    ]
  where
    below : (o n m : ℕ) → m ≡ n → o ≤ n → eqb o n ≡ false → o < m
    below o n m l h e = ground arith

-- ===== src/Runes/Etching.antt =====
-- src/sync/stages/index/indexers/custom/runes/indexer.rs: which runes a transaction can etch.
use maestro_symphony.Prelude.{
  ℕ, ◌+◌, ◌-◌, ◌^◌, ◌≡◌, ◌≤◌, refl, ap, ◌∙◌, arith, List, [], ◌∷◌, Option, none, some, Option-cases,
  Bool, true, false, Bool-cases, Bytes, list_beq, list_beq_iff, nat_eq, ◌⊎◌, inl, inr, ltb, leb,
  if◌then◌else◌, Result, ok, bind-ok,
}
use maestro_symphony.Core.{Error, TxIn, Transaction, TxoRef, Utxo}
use maestro_symphony.Store.{Db, IndexingTask, get}
use maestro_symphony.Worker.Context.{IndexingContext, resolve_input}
use maestro_symphony.Runes.Tables.{RuneId, rune_id_by_name_kv}
use maestro_symphony.Runes.Ordinals.{Artifact, OrdinalsLib}
use maestro_symphony.Runes.Etch.{
  is_commitment_by, is_commitment, instructions_commit, input_commits, inputs_commit, or_else,
  tx_commits_to_rune, requested_rune, rune_id_here, etch_unused, etch_rune, etch_requested, etched,
}

-- The script pushes the bytes before its first error.
abbrev pub Pushes : Bytes → List (Option (Option Bytes)) → Type 0
Pushes bytes [] = ⊥
Pushes bytes (none ∷ instructions) = ⊥
Pushes bytes (some none ∷ instructions) = Pushes bytes instructions
Pushes bytes (some (some pushed) ∷ instructions) = (pushed ≡ bytes) ⊎ Pushes bytes instructions

-- The output is taproot's and old enough.
abbrev pub IsOldTaproot : OrdinalsLib → IndexingContext → ℕ → Utxo → Type 0
IsOldTaproot lib ctx required utxo =
    (lib.is_p2tr utxo.script ≡ true)
    × (utxo.height ≤ ctx.point.height)
    × (required + utxo.height ≤ ctx.point.height + 1)

abbrev pub SpendsOldTaproot : OrdinalsLib → IndexingContext → ℕ → TxoRef → Type 0
SpendsOldTaproot lib ctx required r =
    (utxo : Utxo) × (resolve_input ctx r ≡ some utxo) × IsOldTaproot lib ctx required utxo

abbrev pub PushesOf : Bytes → Option (List (Option (Option Bytes))) → Type 0
PushesOf bytes none = ⊥
PushesOf bytes (some instructions) = Pushes bytes instructions

-- Some input's tapscript pushes the commitment of the rune, and it spends an old taproot output.
abbrev pub IsCommittedBy : OrdinalsLib → IndexingContext → ℕ → ℕ → List TxIn → Type 0
IsCommittedBy lib ctx rune required [] = ⊥
IsCommittedBy lib ctx rune required (i ∷ is) =
    (PushesOf (lib.commitment rune) (lib.tapscript i.witness)
      × SpendsOldTaproot lib ctx required i.previous_output)
    ⊎ IsCommittedBy lib ctx rune required is

module _ (lib : OrdinalsLib) (ctx : IndexingContext) (rune required : ℕ) where
  by_utxo :
      (utxo : Utxo) (rest : Result Error Bool)
      → is_commitment_by lib ctx rune required utxo rest ≡ ok true
      → IsOldTaproot lib ctx required utxo ⊎ (rest ≡ ok true)
  by_utxo utxo rest e = elim (Bool-cases (lib.is_p2tr utxo.script)) [
    | inr p ↦ inr (rw p at e)
    | inl p ↦ elim (Bool-cases (ltb ctx.point.height utxo.height)) [
      | inl a ↦ absurd (cc (rw (p, a) at e))
      | inr a ↦ elim (Bool-cases (leb (2 ^ 64) (ctx.point.height - utxo.height + 1))) [
        | inl b ↦ absurd (cc (rw (p, a, b) at e))
        | inr b ↦ elim (Bool-cases (leb required (ctx.point.height - utxo.height + 1))) [
          | inl c ↦ inl (p, ground arith, ground arith)
          | inr c ↦ inr (rw (p, a, b, c) at e)
        ]
      ]
    ]
  ]

  by_push :
      (r : TxoRef) (pushed : Bytes) (rest : Result Error Bool)
      → is_commitment lib ctx rune required r pushed rest ≡ ok true
      → ((pushed ≡ lib.commitment rune) × SpendsOldTaproot lib ctx required r) ⊎ (rest ≡ ok true)
  by_push r pushed rest e = elim (Bool-cases (list_beq pushed (lib.commitment rune))) [
    | inr p ↦ inr (rw p at e)
    | inl p ↦ elim (Option-cases (resolve_input ctx r)) [
      | inl q ↦ absurd (cc (rw (p, q) at e))
      | inr (utxo, q) ↦ elim (by_utxo utxo rest (rw (p, q) at e)) [
        | inl o ↦ inl ((list_beq_iff pushed (lib.commitment rune)).0 p, (utxo, q, o))
        | inr o ↦ inr o
      ]
    ]
  ]

  by_instructions :
      (r : TxoRef) (instructions : List (Option (Option Bytes)))
      → instructions_commit lib ctx rune required r instructions ≡ ok true
      → Pushes (lib.commitment rune) instructions × SpendsOldTaproot lib ctx required r
  unfolding instructions_commit
  by_instructions r [] e = absurd (cc e)
  by_instructions r (none ∷ instructions) e = absurd (cc e)
  by_instructions r (some none ∷ instructions) e = by_instructions r instructions e
  by_instructions r (some (some pushed) ∷ instructions) e =
      elim (by_push r pushed (instructions_commit lib ctx rune required r instructions) e) [
        | inl (a, b) ↦ (inl a, b)
        | inr o ↦ let (a, b) = by_instructions r instructions o in (inr a, b)
      ]

  by_input :
      (r : TxoRef) (script : Option (List (Option (Option Bytes)))) (rest : Result Error Bool)
      → input_commits lib ctx rune required r script rest ≡ ok true
      → (PushesOf (lib.commitment rune) script × SpendsOldTaproot lib ctx required r)
        ⊎ (rest ≡ ok true)
  by_input r none rest e = inr e
  by_input r (some instructions) rest e =
      let (found, a, b) =
        bind-ok (instructions_commit lib ctx rune required r instructions)
          (λ x. if x then ok true else rest) true e in
      elim (Bool-cases found) [
        | inl f ↦ inl (by_instructions r instructions (a ∙ ap ok f))
        | inr f ↦ inr (rw f at b)
      ]

  inputs_commit-IsCommittedBy :
      (is : List TxIn)
      → inputs_commit lib ctx rune required is ≡ ok true
      → IsCommittedBy lib ctx rune required is
  unfolding inputs_commit
  inputs_commit-IsCommittedBy [] e = absurd (cc e)
  inputs_commit-IsCommittedBy (i ∷ is) e =
      elim (by_input i.previous_output (lib.tapscript i.witness) _ e) [
        | inl h ↦ inl h
        | inr h ↦ inr (inputs_commit-IsCommittedBy is h)
      ]

-- Why a rune may be etched: it has no name of its own and gets the reserved one, or its name is not
-- below the minimum of the height, not reserved, in use by no rune, and committed to.
abbrev pub MayEtch :
    OrdinalsLib
    → (db : Db) → db.Store
    → IndexingTask
    → Transaction
    → IndexingContext
    → Option ℕ
    → ℕ
    → ℕ
    → Option (Option ℕ)
    → Type 0
MayEtch lib db s task tx ctx override tx_index rune none = ⊥
MayEtch lib db s task tx ctx override tx_index rune (some none) =
    rune ≡ lib.reserved ctx.point.height tx_index
MayEtch lib db s task tx ctx override tx_index rune (some (some name)) =
    (rune ≡ name)
    × (lib.minimum_at_height ctx.network ctx.point.height ≤ name)
    × (lib.is_reserved name ≡ false)
    × (get db s rune_id_by_name_kv task name ≡ ok none)
    × IsCommittedBy lib ctx name (or_else lib.commit_confirmations override) tx.input

module _ (lib : OrdinalsLib) (db : Db) (s : db.Store) (task : IndexingTask) (tx : Transaction)
    (ctx : IndexingContext) (override : Option ℕ) (tx_index : ℕ) (id : RuneId) (rune : ℕ) where
  by_unused :
      (name : ℕ) (existing : Option RuneId)
      → etch_unused lib db s task tx ctx override tx_index name existing ≡ ok (some (id, rune))
      → (existing ≡ none)
        × (id ≡ rune_id_here lib db s task tx ctx override tx_index)
        × (rune ≡ name)
        × IsCommittedBy lib ctx name (or_else lib.commit_confirmations override) tx.input
  unfolding tx_commits_to_rune
  by_unused name (some existing) e = absurd (cc e)
  by_unused name none e =
      let (commits, a, b) =
        bind-ok (tx_commits_to_rune lib tx name ctx override)
          (λ x.
            ok (
              if x then some (rune_id_here lib db s task tx ctx override tx_index, name) else none))
          (some (id, rune)) e in
      elim (Bool-cases commits) [
        | inl f ↦ (
          refl,
          cc (rw f at b),
          cc (rw f at b),
          inputs_commit-IsCommittedBy lib ctx name _ tx.input (a ∙ ap ok f),
        )
        | inr f ↦ absurd (cc (rw f at b))
      ]

  by_rune :
      (r : Option ℕ)
      → etch_rune lib db s task tx ctx override tx_index
          (lib.minimum_at_height ctx.network ctx.point.height)
          r
        ≡ ok (some (id, rune))
      → (id ≡ rune_id_here lib db s task tx ctx override tx_index)
        × MayEtch lib db s task tx ctx override tx_index rune (some r)
  by_rune none e = (cc e, cc e)
  by_rune (some name) e =
      let least : ℕ = lib.minimum_at_height ctx.network ctx.point.height in
      elim (Bool-cases (ltb name least)) [
        | inl a ↦ absurd (cc (rw a at e))
        | inr a ↦ elim (Bool-cases (lib.is_reserved name)) [
          | inl b ↦ absurd (cc (rw (a, b) at e))
          | inr b ↦
              let (existing, g, k) =
                bind-ok (get db s rune_id_by_name_kv task name)
                  (etch_unused lib db s task tx ctx override tx_index name) (some (id, rune))
                  (rw (a, b) at e) in
              let (n, i, q, h) = by_unused name existing k in
              (i, (q, ground arith, b, g ∙ ap ok n, h))
        ]
      ]

-- A transaction etches a rune only under the id of its place in the chain, and only if its artifact asks
-- for one that it may etch: with no name of its own, it gets the reserved name of that place; a name of
-- its own is not below the minimum of the height, not reserved, not that of another rune, and some
-- input's tapscript pushes its commitment and spends a taproot output with enough confirmations.
pub etched-MayEtch :
    (lib : OrdinalsLib) (db : Db) (s : db.Store) (task : IndexingTask) (tx_index : ℕ)
    (tx : Transaction) (artifact : Artifact) (ctx : IndexingContext) (override : Option ℕ)
    (id : RuneId) (rune : ℕ)
    → etched lib db s task tx_index tx artifact ctx override ≡ ok (some (id, rune))
    → (id ≡ record { block = ctx.point.height; tx = tx_index })
      × MayEtch lib db s task tx ctx override tx_index rune (requested_rune artifact)
unfolding etched
etched-MayEtch lib db s task tx_index tx artifact ctx override id rune e =
    elim (Bool-cases (ltb tx_index (2 ^ 32))) [
      | inr h ↦ absurd (cc (rw h at e))
      | inl h ↦ requested (requested_rune artifact) (rw h at e)
    ]
  where
    requested :
        (r : Option (Option ℕ))
        → etch_requested lib db s task tx ctx override tx_index r ≡ ok (some (id, rune))
        → (id ≡ record { block = ctx.point.height; tx = tx_index })
          × MayEtch lib db s task tx ctx override tx_index rune r
    requested none e = absurd (cc e)
    requested (some r) e = elim (Bool-cases (ltb ctx.point.height (2 ^ 32))) [
      | inl h ↦ by_rune lib db s task tx ctx override tx_index id rune r (rw h at e)
      | inr h ↦ absurd (cc (rw h at e))
    ]

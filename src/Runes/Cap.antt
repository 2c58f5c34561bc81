-- ===== src/Runes/Cap.antt =====
-- src/sync/stages/index/indexers/custom/runes/indexer.rs: mints and the terms of their rune.
use maestro_symphony.Prelude.{
  ℕ, ◌+◌, ◌^◌, ◌≤◌, ◌<◌, ◌≡◌, refl, sym, ap, subst, ◌↔◌, Bool, ◌&&◌, ◌∙◌, arith, Option, none, some,
  true, false, ltb, ltb→lt, leb, Bool-cases, inl, inr, ◌⊎◌, if◌then◌else◌, Result, ok, bind-ok,
  ok-injective, ==_refl, list_eq, nat_eq,
}
use maestro_symphony.Encdec.Laws.{varuint_codec-IsLawful}
use maestro_symphony.Core.{Error}
use maestro_symphony.Table.{encode_key}
use maestro_symphony.Store.{Db, IndexingTask, get, set}
use maestro_symphony.Commit.Writes.{get-set-delete}
use maestro_symphony.Runes.Tables.{
  RuneId, RuneTerms, RuneInfo, rune_info_by_id_kv, rune_mints_by_id_kv,
}
use maestro_symphony.Runes.Mint.{
  terms_of, unwrap_or_default, has_started, has_not_ended, is_open, count_mint, mint_under, mint,
}

-- The heights of the terms: from their start on, and before their end.
abbrev pub StartsBy : Option ℕ → ℕ → Type 0
StartsBy none height = Unit
StartsBy (some start) height = start ≤ height

abbrev pub EndsAfter : Option ℕ → ℕ → Type 0
EndsAfter none height = Unit
EndsAfter (some end) height = height < end

abbrev pub InHeights : RuneTerms → ℕ → Type 0
InHeights terms height = StartsBy terms.start_height height × EndsAfter terms.end_height height

has_started_lem : (o : Option ℕ) (height : ℕ) → (has_started o height ≡ true) ↔ StartsBy o height
has_started_lem none height = (λ e. tt, λ h. refl)
has_started_lem (some start) height = ground arith

has_not_ended_lem :
    (o : Option ℕ) (height : ℕ) → (has_not_ended o height ≡ true) ↔ EndsAfter o height
has_not_ended_lem none height = (λ e. tt, λ h. refl)
has_not_ended_lem (some end) height = ground arith

and_split : (a b : Bool) → ((a && b) ≡ true) ↔ ((a ≡ true) × (b ≡ true))
and_split a b = ground arith

is_open_lem :
    (terms : RuneTerms) (height : ℕ) → (is_open terms height ≡ true) ↔ InHeights terms height
is_open_lem terms height =
    let both =
      and_split (has_started terms.start_height height) (has_not_ended terms.end_height height) in
    (
      λ e. (
        (has_started_lem terms.start_height height).0 (both.0 e).0,
        (has_not_ended_lem terms.end_height height).0 (both.0 e).1,
      ),
      λ h. both.1 (
        (has_started_lem terms.start_height height).1 h.0,
        (has_not_ended_lem terms.end_height height).1 h.1,
      ),
    )

-- A mint is due: there are terms, the height is one of theirs, and the mints are below their cap.
abbrev pub MayMint : Option RuneTerms → ℕ → ℕ → Type 0
MayMint none height mints = ⊥
MayMint (some terms) height mints = InHeights terms height × (mints < unwrap_or_default terms.cap)

abbrev pub CapFits : Option RuneTerms → Type 0
CapFits none = Unit
CapFits (some terms) = unwrap_or_default terms.cap < 2 ^ 128

abbrev pub amount_under : Option RuneTerms → ℕ
amount_under none = 0
amount_under (some terms) = unwrap_or_default terms.amount

module _ (db : Db) (s : db.Store) (task : IndexingTask) (id : RuneId) where
  -- The mints of a rune that a task has counted are `n`.
  abbrev pub HasMints : IndexingTask → ℕ → Type 0
  HasMints t n =
      (m : Option ℕ) × (get db s rune_mints_by_id_kv t id ≡ ok m) × (unwrap_or_default m ≡ n)

  -- A mint under some terms: one more, in their heights and under the cap.
  abbrev pub Minted : IndexingTask → ℕ → ℕ → Type 0
  Minted task' height amount =
      (info : RuneInfo) × (terms : RuneTerms) × (n : ℕ) × (get db s rune_info_by_id_kv task id
        ≡ ok (some info))
      × (info.terms ≡ some terms)
      × InHeights terms height
      × (amount ≡ unwrap_or_default terms.amount)
      × HasMints task n
      × HasMints task' (n + 1)
      × (n + 1 ≤ unwrap_or_default terms.cap)

  abbrev Unchanged : IndexingTask → Option ℕ → Type 0
  Unchanged task' result = (task' ≡ task) × (result ≡ none)

  unchanged :
      (task' : IndexingTask) (result : Option ℕ)
      → ◌≡◌ {A = Result Error (IndexingTask × Option ℕ)} (ok (task, none)) (ok (task', result))
      → Unchanged task' result
  unchanged task' result e =
      (ap (λ x. x.0) (sym (ok-injective e)), ap (λ x. x.1) (sym (ok-injective e)))

  counted_mint : (n : ℕ) → n < 2 ^ 128 → HasMints (set db s rune_mints_by_id_kv task id n) n
  counted_mint n h = (
    some n,
    (get-set-delete db s rune_mints_by_id_kv (λ v. v < 2 ^ 128) task id id n
          (varuint_codec-IsLawful (2 ^ 128) (omega arith)) h).0
        ∙ ap (λ b. if b then ok (some n) else get db s rune_mints_by_id_kv task id)
            (==_refl (encode_key rune_mints_by_id_kv id)),
    refl,
  )

  count_mint-cases :
      (terms : RuneTerms) (n : ℕ) (task' : IndexingTask) (result : Option ℕ)
      → count_mint db s task id terms n ≡ ok (task', result)
      → Unchanged task' result
        ⊎ ((result ≡ some (unwrap_or_default terms.amount))
            × HasMints task' (n + 1)
            × (n + 1 ≤ unwrap_or_default terms.cap))
  count_mint-cases terms n task' result e =
      elim (Bool-cases (leb (unwrap_or_default terms.cap) n)) [
        | inl a ↦ inl (unchanged task' result (rw a at e))
        | inr a ↦ elim (Bool-cases (ltb (n + 1) (2 ^ 128))) [
          | inl b ↦
              let q = ok-injective (rw (a, b) at e) in
              inr (
                ap (λ x. x.1) (sym q),
                subst (λ x. HasMints x.0 (n + 1)) q
                    (counted_mint (n + 1) (ltb→lt (n + 1) (2 ^ 128) b)),
                below (unwrap_or_default terms.cap) a,
              )
          | inr b ↦ absurd (cc (rw (a, b) at e))
        ]
      ]
    where
      below : (cap : ℕ) → leb cap n ≡ false → n + 1 ≤ cap
      below cap a = ground arith

  mint_under-cases :
      (height : ℕ) (info : RuneInfo) (o : Option RuneTerms) (task' : IndexingTask)
      (result : Option ℕ)
      → get db s rune_info_by_id_kv task id ≡ ok (some info)
      → info.terms ≡ o
      → mint_under db s task id height o ≡ ok (task', result)
      → Unchanged task' result
        ⊎ ((amount : ℕ) × (result ≡ some amount) × Minted task' height amount)
  mint_under-cases height info none task' result g q e = inl (unchanged task' result e)
  mint_under-cases height info (some terms) task' result g q e =
      elim (Bool-cases (is_open terms height)) [
        | inr b ↦ inl (unchanged task' result (rw b at e))
        | inl b ↦
            let (m, a, r) =
              bind-ok (get db s rune_mints_by_id_kv task id)
                (λ current. count_mint db s task id terms (unwrap_or_default current))
                (task', result) (rw b at e) in
            elim (count_mint-cases terms (unwrap_or_default m) task' result r) [
              | inl u ↦ inl u
              | inr (w, k, c) ↦ inr (
                unwrap_or_default terms.amount,
                w,
                (
                  info,
                  terms,
                  unwrap_or_default m,
                  g,
                  q,
                  (is_open_lem terms height).0 b,
                  refl,
                  (m, a, refl),
                  k,
                  c,
                ),
              )
            ]
      ]

  -- Where a mint succeeds it changes nothing, or its height is not before the start of the terms and is before
  -- their end, its amount is theirs, and it counts one more mint, of which there are at most as many as the cap.
  pub mint-Minted :
      (height : ℕ) (task' : IndexingTask) (result : Option ℕ)
      → mint db s task id height ≡ ok (task', result)
      → ((task' ≡ task) × (result ≡ none))
        ⊎ ((amount : ℕ) × (result ≡ some amount) × Minted task' height amount)
  unfolding mint
  mint-Minted height task' result e =
      let (info, a, r) =
        bind-ok (get db s rune_info_by_id_kv task id)
          (λ info. mint_under db s task id height (terms_of info)) (task', result) e in
      by_info info a r
    where
      by_info :
          (info : Option RuneInfo)
          → get db s rune_info_by_id_kv task id ≡ ok info
          → mint_under db s task id height (terms_of info) ≡ ok (task', result)
          → Unchanged task' result
            ⊎ ((amount : ℕ) × (result ≡ some amount) × Minted task' height amount)
      by_info none a r = inl (unchanged task' result r)
      by_info (some info) a r = mint_under-cases height info info.terms task' result a refl r

  -- One more mint with the amount of the terms where it is due, and else nothing.
  abbrev pub MintsIfDue : Option RuneTerms → ℕ → ℕ → Result Error (IndexingTask × Option ℕ) → Type 0
  MintsIfDue terms height mints result =
      (MayMint terms height mints
        × (result
            ≡ ok (set db s rune_mints_by_id_kv task id (mints + 1), some (amount_under terms))))
      ⊎ ((MayMint terms height mints → ⊥) × (result ≡ ok (task, none)))

  mint_under-MintsIfDue :
      (height : ℕ) (terms : Option RuneTerms) (m : Option ℕ)
      → get db s rune_mints_by_id_kv task id ≡ ok m
      → CapFits terms
      → MintsIfDue terms height (unwrap_or_default m) (mint_under db s task id height terms)
  mint_under-MintsIfDue height none m a f = inr (λ h. h, refl)
  mint_under-MintsIfDue height (some terms) m a f = elim (Bool-cases (is_open terms height)) [
    | inr b ↦ inr (λ h. absurd (cc (b, (is_open_lem terms height).1 h.0)), rw b refl)
    | inl b ↦ elim (Bool-cases (leb (unwrap_or_default terms.cap) (unwrap_or_default m))) [
      | inl c ↦
          inr
            (λ h. full (unwrap_or_default terms.cap) (unwrap_or_default m) c h.1, rw (b, a, c) refl)
      | inr c ↦
          let under : unwrap_or_default m < unwrap_or_default terms.cap =
            below (unwrap_or_default terms.cap) (unwrap_or_default m) c in
          inl (
            ((is_open_lem terms height).0 b, under),
            rw (b, a, c, fits (unwrap_or_default terms.cap) (unwrap_or_default m) under f) refl,
          )
    ]
  ]
    where
      full : (cap n : ℕ) → leb cap n ≡ true → n < cap → ⊥
      full cap n h l = ground arith

      below : (cap n : ℕ) → leb cap n ≡ false → n < cap
      below cap n h = ground arith

      fits : (cap n : ℕ) → n < cap → cap < 2 ^ 128 → ltb (n + 1) (2 ^ 128) ≡ true
      fits cap n h f = ground (arith, f)

  -- Let the rune's entry and its count of mints be read, the cap of its terms being a u128. A mint counts
  -- one more and answers the amount of the terms if the rune has terms, the height is not before their
  -- start and is before their end, as far as they have them, and the count is below their cap; if not,
  -- it changes and answers nothing.
  pub mint-MintsIfDue :
      (height : ℕ) (info : Option RuneInfo) (m : Option ℕ)
      → get db s rune_info_by_id_kv task id ≡ ok info
      → get db s rune_mints_by_id_kv task id ≡ ok m
      → CapFits (terms_of info)
      → MintsIfDue (terms_of info) height (unwrap_or_default m) (mint db s task id height)
  unfolding mint
  mint-MintsIfDue height info m g a f = rw g (mint_under-MintsIfDue height (terms_of info) m a f)

-- ===== src/Serve/Totals.antt =====
-- src/serve/routes/addresses: the balance of one rune against the balances of all.
use maestro_symphony.Prelude.{
  ℕ, ◌≡◌, refl, ap, subst, ◌∙◌, List, [], ◌∷◌, All, none, Bool-cases, inl, inr, lookup,
  HasDistinctKeys, if◌then◌else◌, ok, ◌>>=◌, Result-cases, Bytes,
}
use maestro_symphony.Encdec.Range.{KeyRange}
use maestro_symphony.Store.{Db}
use maestro_symphony.Runes.Tables.{RuneId, UtxoRunes}
use maestro_symphony.Runes.Allocate.{
  rune_id_eq, rune_id_beq, rune_id_beq_iff, Balances, balance_of, wrapping_add,
}
use maestro_symphony.Runes.Conservation.{balance_of-insert}
use maestro_symphony.Runes.Inputs.{add_balance, add_all}
use maestro_symphony.Serve.Utxos.{script_entries}
use maestro_symphony.Serve.Balances.{
  add_specific, held_of, sum_balances, sum_specific, all_rune_balances, specific_rune_balance,
}

balance_of-add_balance :
    (i id : RuneId) (amount : ℕ) (m : Balances)
    → balance_of i (add_balance id amount m)
      ≡ (if rune_id_beq id i then wrapping_add (balance_of i m) amount else balance_of i m)
balance_of-add_balance i id amount m = elim (Bool-cases (rune_id_beq id i)) [
  | inl e ↦
      rw (balance_of-insert i id (wrapping_add (balance_of id m) amount) m, e)
        (ap (λ j. wrapping_add (balance_of j m) amount) ((rune_id_beq_iff id i).0 e))
  | inr e ↦ rw (balance_of-insert i id (wrapping_add (balance_of id m) amount) m, e) refl
]

balance_of-add_all_absent :
    (i : RuneId) (held : UtxoRunes) (m : Balances)
    → lookup i held ≡ none
    → balance_of i (add_all held m) ≡ balance_of i m
unfolding add_all
balance_of-add_all_absent i [] m h = refl
balance_of-add_all_absent i ((id, amount) ∷ held) m h = elim (Bool-cases (rune_id_beq id i)) [
  | inl e ↦ absurd (cc (rw e at h))
  | inr e ↦
      balance_of-add_all_absent i held (add_balance id amount m) (rw e at h)
      ∙ (balance_of-add_balance i id amount m ∙ rw e refl)
]

balance_of-add_all :
    (i : RuneId) (held : UtxoRunes) (m : Balances)
    → HasDistinctKeys held
    → balance_of i (add_all held m) ≡ add_specific i held (balance_of i m)
unfolding add_all
balance_of-add_all i [] m d = refl
balance_of-add_all i ((id, amount) ∷ held) m d = elim (Bool-cases (rune_id_beq id i)) [
  | inl e ↦ rw e (
      balance_of-add_all_absent i held (add_balance id amount m)
        (subst (λ j. lookup j held ≡ none) ((rune_id_beq_iff id i).0 e) d.0)
      ∙ (balance_of-add_balance i id amount m ∙ rw e refl))
  | inr e ↦ rw e (
      balance_of-add_all i held (add_balance id amount m) d.1
      ∙ ap (add_specific i held) (balance_of-add_balance i id amount m ∙ rw e refl))
]

-- An entry whose output lists each rune once.
abbrev pub ListsOnce : (db : Db) → db.Store → ℕ → Bytes × Bytes → Type 0
ListsOnce db s read_ts entry =
    (held : UtxoRunes) → held_of db s read_ts entry ≡ ok held → HasDistinctKeys held

module _ (db : Db) (s : db.Store) (i : RuneId) (read_ts : ℕ) where
  sum_specific-sum_balances :
      (entries : List (Bytes × Bytes)) (m : Balances)
      → All (ListsOnce db s read_ts) entries
      → sum_specific db s i read_ts entries (balance_of i m)
        ≡ (do found ← sum_balances db s read_ts entries m; ok (balance_of i found))
  unfolding sum_specific sum_balances
  sum_specific-sum_balances [] m h = refl
  sum_specific-sum_balances (entry ∷ entries) m h =
      elim (Result-cases (held_of db s read_ts entry)) [
        | inl (held, e) ↦ rw e (
            rw (← balance_of-add_all i held m (h.0 held e))
              (sum_specific-sum_balances entries (add_all held m) h.1))
        | inr (x, e) ↦ rw e refl
      ]

  -- The specific balance of a rune is what the list of all balances shows of it, whatever the
  -- script and the time, and both routes fail alike, if each output lists a rune once.
  pub specific_rune_balance-balance_of :
      (iter_kvs : ℕ → KeyRange → List (Bytes × Bytes)) (script_pk : Bytes)
      → All (ListsOnce db s read_ts) (script_entries iter_kvs read_ts script_pk)
      → specific_rune_balance db s iter_kvs i read_ts script_pk
        ≡ (do found ← all_rune_balances db s iter_kvs read_ts script_pk; ok (balance_of i found))
  unfolding specific_rune_balance all_rune_balances
  specific_rune_balance-balance_of iter_kvs script_pk h =
      sum_specific-sum_balances (script_entries iter_kvs read_ts script_pk) [] h

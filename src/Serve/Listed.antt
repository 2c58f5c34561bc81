-- ===== src/Serve/Listed.antt =====
-- src/serve/routes: the routes on one rune against the list of all outputs with runes.
use maestro_symphony.Prelude.{
  Result, err, ℕ, subst, ◌≡◌, refl, List, [], ◌∷◌, Bytes, contains_key, lookup, none, some, ok,
  ◌>>=◌, map_err, All, ok-injective, Result-cases, inl, inr, Option-cases,
}
use maestro_symphony.Codec.{decode_all}
use maestro_symphony.Core.{lift_decoding, utxo_by_txo_ref_kv, runes, indexer_eq}
use maestro_symphony.Table.{decode_entry}
use maestro_symphony.Store.{Db}
use maestro_symphony.Runes.Tables.{RuneId, rune_utxos_by_script_kv, utxo_runes}
use maestro_symphony.Runes.Allocate.{rune_id_eq, balance_of}
use maestro_symphony.Serve.Reader.{symphony, ServeError, get_expected, get_maybe, decoding}
use maestro_symphony.Serve.Utxos.{
  RuneUtxo, keep_if, rune_utxo, all_rune_utxos, specific_rune_utxos, balance_at_utxo,
}

-- The outputs that hold a rune.
abbrev pub holding : RuneId → List RuneUtxo → List RuneUtxo
holding rune [] = []
holding rune (u ∷ us) = keep_if (contains_key rune u.runes) u (holding rune us)

-- The outputs of an answer, none if it is an error.
abbrev pub shown : Result ServeError (List RuneUtxo) → List RuneUtxo
shown (ok us) = us
shown (err x) = []

-- Every listed balance is what `balance_at_utxo` answers.
abbrev pub AgreesAt : (db : Db) → db.Store → RuneId → ℕ → List RuneUtxo → Type 0
AgreesAt db s rune read_ts us =
    All (λ u. balance_at_utxo db s rune read_ts u.txo_ref ≡ ok (balance_of rune u.runes)) us

module _ (db : Db) (s : db.Store) (rune : RuneId) (read_ts : ℕ) where
  rune_utxo-balance :
      (entry : Bytes × Bytes) (u : RuneUtxo)
      → rune_utxo db s read_ts entry ≡ ok u
      → balance_at_utxo db s rune read_ts u.txo_ref ≡ ok (balance_of rune u.runes)
  unfolding rune_utxo balance_at_utxo get_expected
  rune_utxo-balance entry u e =
      elim (Result-cases
        (map_err symphony (lift_decoding (decode_entry rune_utxos_by_script_kv entry)))) [
          | inr (x, q) ↦ absurd (cc (rw q at e))
          | inl (kv, q) ↦
              elim (Result-cases (get_maybe db s utxo_by_txo_ref_kv read_ts kv.0.txo_ref)) [
                | inr (x, g) ↦ absurd (cc (rw (q, g) at e))
                | inl (none, g) ↦ absurd (cc (rw (q, g) at e))
                | inl (some utxo, g) ↦ elim (Option-cases (lookup runes utxo.extended)) [
                  | inl l ↦ absurd (cc (rw (q, g, l) at e))
                  | inr (raw, l) ↦
                      elim (Result-cases (map_err decoding (decode_all utxo_runes raw))) [
                        | inr (x, d) ↦ absurd (cc (rw (q, g, l, d) at e))
                        | inl (held, d) ↦
                            subst
                              (λ v.
                                balance_at_utxo db s rune read_ts v.txo_ref
                                ≡ ok (balance_of rune v.runes))
                              (ok-injective (rw (q, g, l, d) at e)) (rw (g, l, d) refl)
                      ]
                ]
              ]
        ]

  specific_rune_utxos-filter :
      (entries : List (Bytes × Bytes))
      → specific_rune_utxos db s rune read_ts entries
        ≡ (do us ← all_rune_utxos db s read_ts entries; ok (holding rune us))
  unfolding specific_rune_utxos all_rune_utxos
  specific_rune_utxos-filter [] = refl
  specific_rune_utxos-filter (entry ∷ entries) =
      elim (Result-cases (rune_utxo db s read_ts entry)) [
        | inl (u, e) ↦ elim (Result-cases (all_rune_utxos db s read_ts entries)) [
          | inl (us, q) ↦ rw (e, specific_rune_utxos-filter entries, q) refl
          | inr (x, q) ↦ rw (e, specific_rune_utxos-filter entries, q) refl
        ]
        | inr (x, e) ↦ rw e refl
      ]

  all_rune_utxos-AgreesAt :
      (entries : List (Bytes × Bytes)) (us : List RuneUtxo)
      → all_rune_utxos db s read_ts entries ≡ ok us
      → AgreesAt db s rune read_ts us
  unfolding all_rune_utxos
  all_rune_utxos-AgreesAt [] us e = subst (AgreesAt db s rune read_ts) (ok-injective e) tt
  all_rune_utxos-AgreesAt (entry ∷ entries) us e =
      elim (Result-cases (rune_utxo db s read_ts entry)) [
        | inr (x, q) ↦ absurd (cc (rw q at e))
        | inl (v, q) ↦ elim (Result-cases (all_rune_utxos db s read_ts entries)) [
          | inr (x, p) ↦ absurd (cc (rw (q, p) at e))
          | inl (vs, p) ↦
              subst (AgreesAt db s rune read_ts) (ok-injective (rw (q, p) at e))
                (rune_utxo-balance entry v q, all_rune_utxos-AgreesAt entries vs p)
        ]
      ]

  -- The outputs that are listed for one rune are those of the whole list that hold it, both lists
  -- fail alike, and each listed amount is the balance that is answered for its output alone.
  pub specific_rune_utxos-holding :
      (entries : List (Bytes × Bytes))
      → (specific_rune_utxos db s rune read_ts entries
          ≡ (do us ← all_rune_utxos db s read_ts entries; ok (holding rune us)))
        × AgreesAt db s rune read_ts (shown (all_rune_utxos db s read_ts entries))
  specific_rune_utxos-holding entries = (
    specific_rune_utxos-filter entries,
    elim (Result-cases (all_rune_utxos db s read_ts entries)) [
      | inl (us, e) ↦ rw e (all_rune_utxos-AgreesAt entries us e)
      | inr (x, e) ↦ rw e tt
    ],
  )

-- ===== src/Runes/Kept.antt =====
-- src/sync/stages/index/indexers/custom/runes/indexer.rs: what the data that are attached to the outputs of
-- a transaction hold.
use maestro_symphony.Prelude.{
  ℕ, suc, ◌+◌, ◌^◌, ◌≡◌, ◌≤◌, ◌<◌, refl, sym, ap, subst, ◌∙◌, arith, List, [], ◌∷◌, ◌++◌, length,
  All, Option, none, some, false, Bool-cases, inl, inr, ltb, eqb, append_assoc, Bytes, ==_refl,
  list_beq_iff, nat_eq, insert, lookup, lookup-insert, HasDistinctKeys, Result-cases, ok,
  ok-injective,
}
use maestro_symphony.Codec.{IsLawful, decode_all-encode}
use maestro_symphony.Encdec.Laws.{varuint_codec-IsLawful, vec-IsLawful, pair-IsLawful}
use maestro_symphony.CoreLaws.{u64-IsLawful}
use maestro_symphony.Core.{runes, TransactionIndexer, indexer_eq, txo_ref_eq, TxOut, TxoRef}
use maestro_symphony.Store.{Db, IndexingTask}
use maestro_symphony.Worker.Context.{
  IndexingContext, or_default, attach_utxo_metadata, produced_utxo,
}
use maestro_symphony.Worker.Cache.{CacheLib}
use maestro_symphony.Encdec.Instances.{u32, u128, pair}
use maestro_symphony.Runes.Tables.{RuneId, utxo_runes, rune_id}
use maestro_symphony.Runes.Allocate.{rune_id_eq, rune_id_beq, rune_id_beq_iff, Balances, balance_of}
use maestro_symphony.Runes.Inputs.{decode_runes}
use maestro_symphony.Runes.Outputs.{keep_output, keep_outputs, Received}
use maestro_symphony.Runes.Conservation.{sum_of}
use maestro_symphony.Runes.Transfers.{amount_in, amount_of}
use maestro_symphony.Runes.Held.{FitsRune, IsHeld, IsHeld-length}

rune_id-IsLawful : IsLawful rune_id (λ i. (i.block < 2 ^ 64) × (i.tx < 2 ^ 32))
rune_id-IsLawful i rest h =
    rw (append_assoc, u64-IsLawful i.block (u32.encode i.tx ++ rest) h.0)
      (rw (varuint_codec-IsLawful (2 ^ 32) (omega arith) i.tx rest h.1))

utxo_runes-IsLawful : IsLawful utxo_runes (λ m. All FitsRune m × (length m < 2 ^ 64))
utxo_runes-IsLawful = vec-IsLawful (pair rune_id u128) FitsRune (
    pair-IsLawful rune_id u128 (λ i. (i.block < 2 ^ 64) × (i.tx < 2 ^ 32)) (λ a. a < 2 ^ 128)
      rune_id-IsLawful (varuint_codec-IsLawful (2 ^ 128) (omega arith)))

amount_in-none : (i : RuneId) (m : Balances) → lookup i m ≡ none → amount_in i m ≡ 0
amount_in-none i [] e = refl
amount_in-none i ((id, b) ∷ m) e = elim (Bool-cases (rune_id_beq id i)) [
  | inl q ↦ absurd (cc (rw q at e))
  | inr q ↦ rw q (omega (arith, amount_in-none i m (rw q at e)))
]

amount_in-eq-balance_of :
    (i : RuneId) (m : Balances) → HasDistinctKeys m → amount_in i m ≡ balance_of i m
amount_in-eq-balance_of i [] d = refl
amount_in-eq-balance_of i ((id, b) ∷ m) d = elim (Bool-cases (rune_id_beq id i)) [
  | inl q ↦ rw q (
      omega (
        arith,
        amount_in-none i m (subst (λ j. lookup j m ≡ none) ((rune_id_beq_iff id i).0 q) d.0),
      ))
  | inr q ↦ rw q (omega (arith, amount_in-eq-balance_of i m d.1))
]

decode_runes-encode :
    (all m : Balances)
    → IsHeld all m
    → length all < 2 ^ 64
    → decode_runes (some (utxo_runes.encode m)) ≡ ok m
decode_runes-encode all m h l =
    rw
      (decode_all-encode utxo_runes (λ x. All FitsRune x × (length x < 2 ^ 64)) m
        utxo_runes-IsLawful (h.fits, omega (arith, IsHeld-length all m h, l)))
      refl

-- The bytes of an indexer that are attached to an output.
abbrev pub attached : TransactionIndexer → IndexingContext → TxoRef → Option Bytes
attached indexer ctx r = lookup indexer (or_default (lookup r ctx.utxo_metadata))

module _ (lib : CacheLib) (db : Db) (s : db.Store) (tx_id : Bytes) where
  abbrev ref : ℕ → TxoRef
  ref k = record { tx_hash = tx_id; txo_index = k }

  same_ref : (k j : ℕ) → txo_ref_eq.beq (ref k) (ref j) ≡ eqb k j
  same_ref k j = rw ((list_beq_iff tx_id tx_id).1 refl) refl

  -- What the outputs from the k-th on hold of a rune as they enter the set of unspent outputs.
  abbrev pub kept_from : RuneId → IndexingContext → ℕ → List TxOut → ℕ
  kept_from i ctx k [] = 0
  kept_from i ctx k (o ∷ os) =
      amount_of i (some (produced_utxo lib db s (ref k) o ctx)) + kept_from i ctx (suc k) os

  -- No runes are attached to the outputs yet.
  abbrev pub IsFresh : ℕ → IndexingContext → Type 0
  IsFresh k ctx = (j : ℕ) → k ≤ j → attached runes ctx (ref j) ≡ none

  module _ (height : ℕ) where
    keep_output-other :
        (j k : ℕ) (o : TxOut) (m : Balances) (st : IndexingTask × IndexingContext)
        → eqb k j ≡ false
        → lookup (ref j) (keep_output db s tx_id height k o m st).1.utxo_metadata
          ≡ lookup (ref j) st.1.utxo_metadata
    unfolding attach_utxo_metadata
    keep_output-other j k o [] st e = refl
    keep_output-other j k o (h ∷ m) (task, ctx) e =
        rw
          (
            lookup-insert (ref j) (ref k)
                (insert runes (utxo_runes.encode (h ∷ m))
                  (or_default (lookup (ref k) ctx.utxo_metadata)))
                ctx.utxo_metadata,
            same_ref k j,
            e,
          )
          refl

    keep_output-own :
        (all m : Balances) (i : RuneId) (k : ℕ) (o : TxOut) (st : IndexingTask × IndexingContext)
        → IsHeld all m
        → length all < 2 ^ 64
        → IsFresh k st.1
        → amount_of i
            (some (produced_utxo lib db s (ref k) o (keep_output db s tx_id height k o m st).1))
          ≡ balance_of i m
    unfolding attach_utxo_metadata
    keep_output-own all [] i k o st h l f = rw (f k (omega arith)) refl
    keep_output-own all (e ∷ m) i k o (task, ctx) h l f =
        rw
          (
            lookup-insert (ref k) (ref k)
                (insert runes (utxo_runes.encode (e ∷ m))
                  (or_default (lookup (ref k) ctx.utxo_metadata)))
                ctx.utxo_metadata,
            same_ref k k,
            ==_refl k,
            lookup-insert runes runes (utxo_runes.encode (e ∷ m))
                (or_default (lookup (ref k) ctx.utxo_metadata)),
            decode_runes-encode all (e ∷ m) h l,
          )
          (amount_in-eq-balance_of i (e ∷ m) h.distinct)

    -- The outputs before the loop's own keep what is attached.
    keep_outputs-before :
        (j k : ℕ) (os : List TxOut) (ms : List Balances) (st : IndexingTask × IndexingContext)
        (r : (IndexingTask × IndexingContext) × List Received)
        → j < k
        → keep_outputs db s tx_id height k os ms st ≡ ok r
        → lookup (ref j) r.0.1.utxo_metadata ≡ lookup (ref j) st.1.utxo_metadata
    unfolding keep_outputs
    keep_outputs-before j k [] ms st r l e =
        ap (λ x. lookup (ref j) x.0.1.utxo_metadata) (sym (ok-injective e))
    keep_outputs-before j k (o ∷ os) [] st r l e =
        ap (λ x. lookup (ref j) x.0.1.utxo_metadata) (sym (ok-injective e))
    keep_outputs-before j k (o ∷ os) (m ∷ ms) st r l e = elim (Bool-cases (ltb k (2 ^ 32))) [
      | inr b ↦ absurd (cc (rw b at e))
      | inl b ↦
          elim (Result-cases (
            keep_outputs db s tx_id height (suc k) os ms
              (keep_output db s tx_id height k o m st))) [
                | inr (x, q) ↦ absurd (cc (rw (b, q) at e))
                | inl (r', q) ↦
                    ap (λ x. lookup (ref j) x.0.1.utxo_metadata)
                      (sym (ok-injective (rw (b, q) at e)))
                    ∙ (keep_outputs-before j (suc k) os ms (keep_output db s tx_id height k o m st)
                          r' (omega (arith, l)) q
                        ∙ keep_output-other j k o m st (ground arith))
              ]
    ]

    -- What the outputs keep is what they were allocated.
    pub kept_from-keep_outputs :
        (all : Balances) (i : RuneId) (k : ℕ) (os : List TxOut) (ms : List Balances)
        (st : IndexingTask × IndexingContext) (r : (IndexingTask × IndexingContext) × List Received)
        → length ms ≡ length os
        → All (IsHeld all) ms
        → length all < 2 ^ 64
        → IsFresh k st.1
        → keep_outputs db s tx_id height k os ms st ≡ ok r
        → kept_from i r.0.1 k os ≡ sum_of i ms
    unfolding keep_outputs
    kept_from-keep_outputs all i k [] [] st r n h l f e = refl
    kept_from-keep_outputs all i k [] (m ∷ ms) st r n h l f e = absurd (omega arith)
    kept_from-keep_outputs all i k (o ∷ os) [] st r n h l f e = absurd (omega arith)
    kept_from-keep_outputs all i k (o ∷ os) (m ∷ ms) st r n h l f e =
        elim (Bool-cases (ltb k (2 ^ 32))) [
          | inr b ↦ absurd (cc (rw b at e))
          | inl b ↦
              elim (Result-cases (
                keep_outputs db s tx_id height (suc k) os ms
                  (keep_output db s tx_id height k o m st))) [
                    | inr (x, q) ↦ absurd (cc (rw (b, q) at e))
                    | inl (r', q) ↦
                        let next : IndexingTask × IndexingContext =
                          keep_output db s tx_id height k o m st in
                        let same : r.0.1 ≡ r'.0.1 =
                          ap (λ x. x.0.1) (sym (ok-injective (rw (b, q) at e))) in
                        let own : amount_of i (some (produced_utxo lib db s (ref k) o r'.0.1))
                            ≡ balance_of i m =
                          rw (keep_outputs-before k (suc k) os ms next r' (omega arith) q)
                            (keep_output-own all m i k o st h.0 l f) in
                        ap (λ c. kept_from i c k (o ∷ os)) same
                        ∙ omega (
                          arith,
                          own,
                          kept_from-keep_outputs all i (suc k) os ms next r' (omega (arith, n)) h.1
                              l
                              (λ j g.
                                rw (keep_output-other j k o m st (ground (arith, g)))
                                  (f j (omega (arith, g))))
                              q,
                        )
                  ]
        ]

-- ===== src/Runes/Transfers.antt =====
-- src/sync/stages/index/indexers/custom/runes/indexer.rs: the runes that a transaction spends, and where
-- they arrive.
use maestro_symphony.Prelude.{
  ℕ, ◌+◌, ◌^◌, ◌%◌, ◌≡◌, ◌≤◌, ◌<◌, refl, ap, subst, ◌∙◌, arith, List, [], ◌∷◌, length, All,
  replicate, Option, none, some, Option-cases, Bool-cases, inl, inr, lookup, HasDistinctKeys,
  insert-HasDistinctKeys, if◌then◌else◌, Result, ok, err, ◌>>=◌, bind-ok, ok-injective,
  Result-cases,
}
use maestro_symphony.Core.{Error, runes, indexer_eq, TxOut, TxIn, Transaction, Utxo}
use maestro_symphony.Store.{Db, IndexingTask}
use maestro_symphony.Worker.Context.{IndexingContext, resolve_input}
use maestro_symphony.Runes.Tables.{RuneId, UtxoRunes}
use maestro_symphony.Runes.Allocate.{
  rune_id_eq, rune_id_beq, rune_id_beq_iff, Balances, balance_of, wrapping_add, apply_edicts,
  destinations_from,
}
use maestro_symphony.Runes.Ordinals.{OrdinalsLib, Runestone, Cenotaph, runestone, cenotaph}
use maestro_symphony.Runes.Conservation.{sum_of, balance_of-insert}
use maestro_symphony.Runes.Inputs.{
  add_balance, add_all, decode_runes, take_input, take_inputs, unallocated,
}
use maestro_symphony.Runes.Outputs.{assign_rest, default_output, first_of}
use maestro_symphony.Runes.Index.{RunesIndexerConfig, allocate_artifact, add_premine, id_of}
use maestro_symphony.Runes.Leftovers.{Arrives, start, assign_to-Arrives, sum_of-replicate}

-- The amount of a rune in what an output holds.
abbrev pub amount_in : RuneId → UtxoRunes → ℕ
amount_in i [] = 0
amount_in i ((id, amount) ∷ held) = (if rune_id_beq id i then amount else 0) + amount_in i held

abbrev pub decoded : Result Error UtxoRunes → UtxoRunes
decoded (ok held) = held
decoded (err e) = []

abbrev pub amount_of : RuneId → Option Utxo → ℕ
amount_of i none = 0
amount_of i (some utxo) = amount_in i (decoded (decode_runes (lookup runes utxo.extended)))

-- What the inputs of a transaction hold of a rune, by the data of the outputs that they spend.
abbrev pub spent_of : RuneId → IndexingContext → List TxIn → ℕ
spent_of i ctx [] = 0
spent_of i ctx (t ∷ ts) =
    (if t.is_null then 0 else amount_of i (resolve_input ctx t.previous_output)) + spent_of i ctx ts

-- The balances before and after something was added to them, modulo the range of a u128.
pub record IsSum (m m' : Balances) (added : RuneId → ℕ) : Type 0 where
  pub distinct : HasDistinctKeys m → HasDistinctKeys m'
  pub sums :
      (i : RuneId)
      → balance_of i m < 2 ^ 128
      → balance_of i m' ≡ (balance_of i m + added i) % (2 ^ 128)

sum_trans :
    (a b c x y : ℕ)
    → b ≡ (a + x) % (2 ^ 128)
    → c ≡ (b + y) % (2 ^ 128)
    → c ≡ (a + (x + y)) % (2 ^ 128)
sum_trans a b c x y e f = omega (arith, e, f)

pub IsSum-trans :
    (m m' m'' : Balances) (f g : RuneId → ℕ)
    → IsSum m m' f
    → IsSum m' m'' g
    → IsSum m m'' (λ i. f i + g i)
IsSum-trans m m' m'' f g p q = record {
  distinct = λ d. q.distinct (p.distinct d);
  sums = λ i h.
      sum_trans (balance_of i m) (balance_of i m') (balance_of i m'') (f i) (g i) (p.sums i h)
        (q.sums i (omega (arith, p.sums i h)));
}

pub IsSum-refl : (m : Balances) → IsSum m m (λ i. 0)
IsSum-refl m = record { distinct = λ d. d; sums = λ i h. omega arith }

pub add_balance-IsSum :
    (id : RuneId) (amount : ℕ) (m : Balances)
    → IsSum m (add_balance id amount m) (λ i. if rune_id_beq id i then amount else 0)
add_balance-IsSum id amount m = record {
  distinct = insert-HasDistinctKeys id (wrapping_add (balance_of id m) amount) m;
  sums = λ i h. elim (Bool-cases (rune_id_beq id i)) [
    | inl e ↦
        rw (balance_of-insert i id (wrapping_add (balance_of id m) amount) m, e)
          (ap (λ j. (balance_of j m + amount) % (2 ^ 128)) ((rune_id_beq_iff id i).0 e))
    | inr e ↦ rw (balance_of-insert i id (wrapping_add (balance_of id m) amount) m, e) (omega arith)
  ];
}

add_all-IsSum : (held : UtxoRunes) (m : Balances) → IsSum m (add_all held m) (λ i. amount_in i held)
unfolding add_all
add_all-IsSum [] m = IsSum-refl m
add_all-IsSum ((id, amount) ∷ held) m =
    IsSum-trans m (add_balance id amount m) _ _ (λ i. amount_in i held)
      (add_balance-IsSum id amount m) (add_all-IsSum held (add_balance id amount m))

module _ (db : Db) (s : db.Store) (ctx : IndexingContext) where
  take_input-IsSum :
      (t : TxIn) (st st' : IndexingTask × Balances)
      → take_input db s ctx t st ≡ ok st'
      → IsSum st.1 st'.1
          (λ i. if t.is_null then 0 else amount_of i (resolve_input ctx t.previous_output))
  take_input-IsSum t st st' e = elim (Bool-cases t.is_null) [
    | inl b ↦
        rw b (subst (λ x. IsSum st.1 x.1 (λ i. 0)) (ok-injective (rw b at e)) (IsSum-refl st.1))
    | inr b ↦ elim (Option-cases (resolve_input ctx t.previous_output)) [
      | inl p ↦ absurd (cc (rw (b, p) at e))
      | inr (utxo, p) ↦ elim (Result-cases (decode_runes (lookup runes utxo.extended))) [
        | inl (held, q) ↦
            rw (b, p, q)
              (subst (λ x. IsSum st.1 x.1 (λ i. amount_in i held))
                (ok-injective (rw (b, p, q) at e)) (add_all-IsSum held st.1))
        | inr (x, q) ↦ absurd (cc (rw (b, p, q) at e))
      ]
    ]
  ]

  take_inputs-IsSum :
      (ts : List TxIn) (st st' : IndexingTask × Balances)
      → take_inputs db s ctx ts st ≡ ok st'
      → IsSum st.1 st'.1 (λ i. spent_of i ctx ts)
  unfolding take_inputs
  take_inputs-IsSum [] st st' e =
      subst (λ x. IsSum st.1 x.1 (λ i. 0)) (ok-injective e) (IsSum-refl st.1)
  take_inputs-IsSum (t ∷ ts) st st' e =
      let (u, a, b) = bind-ok (take_input db s ctx t st) (take_inputs db s ctx ts) st' e in
      IsSum-trans st.1 u.1 st'.1 _ (λ i. spent_of i ctx ts) (take_input-IsSum t st u a)
        (take_inputs-IsSum ts u st' b)

-- The unallocated runes of a transaction are those of the outputs that it spends: of each rune, the
-- sum of what they hold, modulo 2 ^ 128, under a key of its own.
pub unallocated-eq-spent :
    (db : Db) (s : db.Store) (task task' : IndexingTask) (tx : Transaction) (ctx : IndexingContext)
    (m : Balances)
    → unallocated db s task tx ctx ≡ ok (task', m)
    → HasDistinctKeys m × ((i : RuneId) → balance_of i m ≡ spent_of i ctx tx.input % (2 ^ 128))
unfolding unallocated
unallocated-eq-spent db s task task' tx ctx m e =
    let h : IsSum [] m (λ i. spent_of i ctx tx.input) =
      take_inputs-IsSum db s ctx tx.input (task, []) (task', m) e in
    (h.distinct tt, λ i. h.sums i (omega arith) ∙ ap (λ n. n % (2 ^ 128)) (omega arith))

-- Let the edicts of a runestone name outputs of the transaction, or their number, the balances after
-- its premine be u128s under distinct keys, and its pointer, if any, be in range. Then the allocation
-- succeeds, and with an output to take what is left (the pointer's, or else the first that is no
-- OP_RETURN), the outputs get exactly the unallocated balance of every rune; with none, no more than
-- that. A transaction without an artifact does the same with no edicts, and under a cenotaph the
-- outputs get nothing.
pub assign_rest-Arrives :
    (lib : OrdinalsLib) (config : RunesIndexerConfig) (db : Db) (s : db.Store)
    (outputs : List TxOut) (r : Runestone) (etched : Option (RuneId × ℕ)) (unspent m : Balances)
    (target : Option ℕ) (c : Cenotaph) (i : RuneId)
    → add_premine r etched unspent ≡ ok m
    → HasDistinctKeys m
    → ((j : RuneId) → balance_of j m < 2 ^ 128)
    → All (λ e. e.output ≤ length outputs) r.edicts
    → default_output outputs r.pointer ≡ ok target
    → ((allocated : List Balances) × ((allocate_artifact lib config db s outputs
              (runestone r)
              etched
              unspent
            >>= assign_rest outputs (some (runestone r)))
          ≡ ok allocated)
        × Arrives target (balance_of i m) (sum_of i allocated))
      × ((allocated : List Balances) × (assign_rest outputs none (start outputs m) ≡ ok allocated)
          × Arrives (first_of (destinations_from 0 outputs)) (balance_of i m) (sum_of i allocated))
      × ((allocated : List Balances) × ((allocate_artifact lib config db s outputs
                (cenotaph c)
                etched
                unspent
              >>= assign_rest outputs (some (cenotaph c)))
            ≡ ok allocated)
          × (sum_of i allocated ≡ 0))
unfolding assign_rest apply_edicts
assign_rest-Arrives lib config db s outputs r etched unspent m target c i p d f h t =
    let (moved, e, a) =
      assign_to-Arrives outputs (id_of etched) r.edicts r.pointer target m i d f h t in
    (
      (moved, rw p e, a),
      assign_to-Arrives outputs none [] none (first_of (destinations_from 0 outputs)) m i d f tt
          refl,
      (replicate (length outputs) [], refl, sum_of-replicate i (length outputs)),
    )

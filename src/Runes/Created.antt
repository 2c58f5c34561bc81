-- ===== src/Runes/Created.antt =====
-- src/sync/stages/index/indexers/custom/runes/indexer.rs: what a mint and a premine add to the unallocated
-- balances.
use maestro_symphony.Prelude.{
  ℕ, suc, ◌^◌, ◌≡◌, ◌≤◌, ◌<◌, refl, sym, subst, arith, [], ◌∷◌, length, All, Option, none, some,
  Bool-cases, inl, inr, ltb, insert, if◌then◌else◌, Result, Result-cases, ok, ok-injective, ◌>>=◌,
}
use maestro_symphony.Core.{Error, Transaction}
use maestro_symphony.Store.{Db, IndexingTask}
use maestro_symphony.Worker.Context.{IndexingContext}
use maestro_symphony.Runes.Tables.{RuneId}
use maestro_symphony.Runes.Mint.{mint, unwrap_or_default}
use maestro_symphony.Runes.Allocate.{rune_id_eq, rune_id_beq, Balances, balance_of, wrapping_add}
use maestro_symphony.Runes.Ordinals.{OrdinalsLib, Artifact, Etching, Runestone}
use maestro_symphony.Runes.Inputs.{add_balance}
use maestro_symphony.Runes.Etch.{etched}
use maestro_symphony.Runes.Etching.{etched-MayEtch}
use maestro_symphony.Runes.Index.{RunesIndexerConfig, mint_to, premine_of, add_premine}
use maestro_symphony.Runes.Transfers.{IsSum, IsSum-refl, add_balance-IsSum}
use maestro_symphony.Runes.Held.{FitsRune, FitsRune-insert}

-- What a mint adds of a rune.
abbrev pub minted_of : RuneId → Option RuneId → Option ℕ → ℕ
minted_of i none o = 0
minted_of i (some id) none = 0
minted_of i (some id) (some amount) = if rune_id_beq id i then amount else 0

-- What the premine of the rune that is etched adds.
abbrev pub premined_of : RuneId → Option Etching → Option (RuneId × ℕ) → ℕ
premined_of i etching none = 0
premined_of i none (some e) = 0
premined_of i (some etching) (some (id, rune)) =
    if rune_id_beq id i then unwrap_or_default etching.premine else 0

abbrev pub FitsId : RuneId → Type 0
FitsId id = (id.block < 2 ^ 64) × (id.tx < 2 ^ 32)

-- Something of at most one rune was added.
pub record IsGrown (m m' : Balances) (added : RuneId → ℕ) : Type 0 where
  pub sums : IsSum m m' added
  pub fits : All FitsRune m → All FitsRune m'
  pub few : length m' ≤ suc (length m)

IsGrown-refl : (m : Balances) → IsGrown m m (λ i. 0)
IsGrown-refl m = record { sums = IsSum-refl m; fits = λ f. f; few = omega arith }

length-insert : (id : RuneId) (v : ℕ) (m : Balances) → length (insert id v m) ≤ suc (length m)
length-insert id v [] = omega arith
length-insert id v ((j, w) ∷ m) = elim (Bool-cases (rune_id_beq j id)) [
  | inl e ↦ rw e (omega arith)
  | inr e ↦ rw e (omega (arith, length-insert id v m))
]

add_balance-IsGrown :
    (id : RuneId) (amount : ℕ) (m : Balances)
    → FitsId id
    → IsGrown m (add_balance id amount m) (λ i. if rune_id_beq id i then amount else 0)
add_balance-IsGrown id amount m h = record {
  sums = add_balance-IsSum id amount m;
  fits = λ f. FitsRune-insert id (wrapping_add (balance_of id m) amount) m f (h, omega arith);
  few = length-insert id (wrapping_add (balance_of id m) amount) m;
}

module _ (lib : OrdinalsLib) (config : RunesIndexerConfig) (db : Db) (s : db.Store) where
  -- What `mint` answers where there is a mint.
  abbrev pub mint_answer : ℕ → Option RuneId → IndexingTask → Result Error (IndexingTask × Option ℕ)
  mint_answer height none task = ok (task, none)
  mint_answer height (some id) task = mint db s task id height

  -- The balances after the mint, if any.
  abbrev pub HasMinted :
      ℕ → Option RuneId → IndexingTask → Balances → IndexingTask × Balances → Type 0
  HasMinted height o task m st =
      (minted : Option ℕ) × (mint_answer height o task ≡ ok (st.0, minted))
      × IsGrown m st.1 (λ i. minted_of i o minted)

  pub mint_to-HasMinted :
      (height : ℕ) (o : Option RuneId) (task : IndexingTask) (m : Balances)
      (st : IndexingTask × Balances)
      → ((id : RuneId) → o ≡ some id → FitsId id)
      → mint_to lib config db s height o (task, m) ≡ ok st
      → HasMinted height o task m st
  mint_to-HasMinted height none task m st h e =
      subst (HasMinted height none task m) (ok-injective e) (none, refl, IsGrown-refl m)
  mint_to-HasMinted height (some id) task m st h e =
      elim (Result-cases (mint db s task id height)) [
        | inr (x, q) ↦ absurd (cc (rw q at e))
        | inl ((t, none), q) ↦
            subst (HasMinted height (some id) task m) (ok-injective (rw q at e))
              (none, q, IsGrown-refl m)
        | inl ((t, some amount), q) ↦
            subst (HasMinted height (some id) task m) (ok-injective (rw q at e))
              (some amount, q, add_balance-IsGrown id amount m (h id refl))
      ]

  pub add_premine-IsGrown :
      (r : Runestone) (made : Option (RuneId × ℕ)) (m m' : Balances)
      → ((id : RuneId) (rune : ℕ) → made ≡ some (id, rune) → FitsId id)
      → add_premine r made m ≡ ok m'
      → IsGrown m m' (λ i. premined_of i r.etching made)
  add_premine-IsGrown r none m m' h e =
      subst (λ x. IsGrown m x (λ i. 0)) (ok-injective e) (IsGrown-refl m)
  add_premine-IsGrown r (some (id, rune)) m m' h e = premined r.etching e
    where
      premined :
          (o : Option Etching)
          → (premine_of o >>= λ premine. ok (add_balance id premine m)) ≡ ok m'
          → IsGrown m m' (λ i. premined_of i o (some (id, rune)))
      premined none e = absurd (cc e)
      premined (some etching) e =
          subst (λ x. IsGrown m x (λ i. premined_of i (some etching) (some (id, rune))))
            (ok-injective e)
            (add_balance-IsGrown id (unwrap_or_default etching.premine) m (h id rune refl))

  -- The id of a rune that is etched has the types of its height and its place.
  pub etched-FitsId :
      (task : IndexingTask) (k : ℕ) (tx : Transaction) (artifact : Artifact) (ctx : IndexingContext)
      (confirmations : Option ℕ) (id : RuneId) (rune : ℕ)
      → ctx.point.height < 2 ^ 64
      → etched lib db s task k tx artifact ctx confirmations ≡ ok (some (id, rune))
      → FitsId id
  unfolding etched
  etched-FitsId task k tx artifact ctx confirmations id rune l e =
      elim (Bool-cases (ltb k (2 ^ 32))) [
        | inr b ↦ absurd (cc (rw b at e))
        | inl b ↦
            subst FitsId
              (sym (etched-MayEtch lib db s task k tx artifact ctx confirmations id rune e).0)
              (l, ground arith)
      ]

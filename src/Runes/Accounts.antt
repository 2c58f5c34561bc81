-- ===== src/Runes/Accounts.antt =====
-- src/sync/stages/index/indexers/custom/runes/indexer.rs: what a transaction's artifact leaves to its outputs,
-- of the runes that it spends, mints and etches.
use maestro_symphony.Prelude.{
  ℕ, ◌^◌, ◌%◌, ◌≡◌, ◌<◌, refl, sym, ap, subst, ◌∙◌, arith, List, [], length, All, replicate, Option,
  none, some, HasDistinctKeys, ok, ok-injective, bind-ok, ◌+◌,
}
use maestro_symphony.Core.{TransactionWithId}
use maestro_symphony.Store.{Db, IndexingTask}
use maestro_symphony.Worker.Context.{IndexingContext}
use maestro_symphony.Runes.Tables.{RuneId}
use maestro_symphony.Runes.Allocate.{
  rune_id_eq, Balances, balance_of, apply_edicts, destinations_from,
}
use maestro_symphony.Runes.Ordinals.{
  OrdinalsLib, Artifact, mint_of, Runestone, Cenotaph, runestone, cenotaph,
}
use maestro_symphony.Runes.Etch.{etched}
use maestro_symphony.Runes.Outputs.{first_of, default_output, assign_rest}
use maestro_symphony.Runes.Index.{
  RunesIndexerConfig, apply_artifact, mint_to, add_premine, id_of, allocate_artifact, create_etched,
}
use maestro_symphony.Runes.Conservation.{sum_of}
use maestro_symphony.Runes.Held.{FitsRune, IsHeld}
use maestro_symphony.Runes.Leftovers.{Arrives, start, sum_of-replicate, length-replicate}
use maestro_symphony.Runes.Transfers.{IsSum-trans}
use maestro_symphony.Runes.Shares.{nothing-IsHeld, edicts-IsShared}
use maestro_symphony.Runes.Created.{
  FitsId, minted_of, premined_of, mint_answer, mint_to-HasMinted, add_premine-IsGrown,
  etched-FitsId,
}

module _ (lib : OrdinalsLib) (config : RunesIndexerConfig) (db : Db) (s : db.Store) where
  module _ (tx : TransactionWithId) (k : ℕ) (ctx : IndexingContext) (task : IndexingTask) where
    -- A runestone's mint, etching and target, and what the outputs keep of all there is.
    pub record Accounted (r : Runestone) (i : RuneId) (spent kept : ℕ) : Type 0 where
      pub minting : IndexingTask
      pub minted : Option ℕ
      pub mints : mint_answer lib config db s ctx.point.height r.mint task ≡ ok (minting, minted)
      pub made : Option (RuneId × ℕ)
      pub etches :
          etched lib db s minting k tx.tx (runestone r) ctx config.commitment_confirmations
          ≡ ok made
      pub target : Option ℕ
      pub targets : default_output tx.tx.output r.pointer ≡ ok target
      pub arrives :
          Arrives target
            ((spent + (minted_of i r.mint minted + premined_of i r.etching made)) % (2 ^ 128))
            kept

    -- What the outputs keep of a rune, by the artifact and what was spent of it.
    abbrev pub Accounts : Option Artifact → RuneId → ℕ → ℕ → Type 0
    Accounts none i spent kept =
        Arrives (first_of (destinations_from 0 tx.tx.output)) (spent % (2 ^ 128)) kept
    Accounts (some (runestone r)) i spent kept = Accounted r i spent kept
    Accounts (some (cenotaph c)) i spent kept = kept ≡ 0

    -- The balances that the edicts begin with, the steps to them, and the edicts.
    record HasRun (r : Runestone) (m : Balances) (allocation : Balances × List Balances)
        : Type 0 where
      minting : IndexingTask
      minted_balances : Balances
      mints :
          mint_to lib config db s ctx.point.height r.mint (task, m) ≡ ok (minting, minted_balances)
      made : Option (RuneId × ℕ)
      etches :
          etched lib db s minting k tx.tx (runestone r) ctx config.commitment_confirmations
          ≡ ok made
      all : Balances
      premines : add_premine r made minted_balances ≡ ok all
      moves :
          apply_edicts tx.tx.output (id_of made) r.edicts (start tx.tx.output all) ≡ ok allocation

    apply_artifact-HasRun :
        (r : Runestone) (m : Balances) (res : IndexingTask × (Balances × List Balances))
        → apply_artifact lib config db s tx k ctx (some (runestone r)) (task, m) ≡ ok res
        → HasRun r m res.1
    unfolding apply_artifact
    apply_artifact-HasRun r m res e =
        let ((t, m'), p, e1) =
          bind-ok (mint_to lib config db s ctx.point.height r.mint (task, m)) _ res e in
        let (made, q, e2) =
          bind-ok (etched lib db s t k tx.tx (runestone r) ctx config.commitment_confirmations) _
            res e1 in
        let (allocation, w, e3) =
          bind-ok (allocate_artifact lib config db s tx.tx.output (runestone r) made m') _ res e2 in
        let (task', v, e4) =
          bind-ok (create_etched lib config db s (runestone r) tx.tx_id ctx.point.height made t) _
            res e3 in
        let (all, g, e5) = bind-ok (add_premine r made m') _ allocation w in
        record {
          minting = t;
          minted_balances = m';
          mints = p;
          made = made;
          etches = q;
          all = all;
          premines = g;
          moves = e5 ∙ ap (λ x. ok x.1) (ok-injective e4);
        }

    apply_artifact-cenotaph :
        (c : Cenotaph) (m : Balances) (res : IndexingTask × (Balances × List Balances))
        → apply_artifact lib config db s tx k ctx (some (cenotaph c)) (task, m) ≡ ok res
        → res.1.1 ≡ replicate (length tx.tx.output) []
    unfolding apply_artifact
    apply_artifact-cenotaph c m res e =
        let ((t, m'), p, e1) =
          bind-ok (mint_to lib config db s ctx.point.height c.mint (task, m)) _ res e in
        let (made, q, e2) =
          bind-ok (etched lib db s t k tx.tx (cenotaph c) ctx config.commitment_confirmations) _ res
            e1 in
        let (task', v, e3) =
          bind-ok (create_etched lib config db s (cenotaph c) tx.tx_id ctx.point.height made t) _
            res e2 in
        ap (λ x. x.1.1) (sym (ok-injective e3))

    -- Maps of the runes that there are, one for each output, with all that is to arrive.
    pub record IsAllocation (artifact : Option Artifact) (spent : RuneId → ℕ)
        (allocated : List Balances) : Type 0 where
      pub all : Balances
      pub few : length all < 2 ^ 64
      pub are_held : All (IsHeld all) allocated
      pub one_each : length allocated ≡ length tx.tx.output
      pub accounts : (i : RuneId) → Accounts artifact i (spent i) (sum_of i allocated)

    -- The balances of the runes that were spent.
    pub record IsSpent (spent : RuneId → ℕ) (m : Balances) : Type 0 where
      pub distinct : HasDistinctKeys m
      pub fits : All FitsRune m
      pub sums : (i : RuneId) → balance_of i m ≡ spent i % (2 ^ 128)
      pub few : length m + 2 < 2 ^ 64
      pub height_fits : ctx.point.height < 2 ^ 64

    runestone-IsAllocation :
        (r : Runestone) (spent : RuneId → ℕ) (m : Balances) (allocation : Balances × List Balances)
        (allocated : List Balances)
        → IsSpent spent m
        → ((id : RuneId) → r.mint ≡ some id → FitsId id)
        → HasRun r m allocation
        → assign_rest tx.tx.output (some (runestone r)) allocation ≡ ok allocated
        → IsAllocation (some (runestone r)) spent allocated
    unfolding assign_rest
    runestone-IsAllocation r spent m allocation allocated h fits_mint run a =
        let (minted, answer, g) =
          mint_to-HasMinted lib config db s ctx.point.height r.mint task m
            (run.minting, run.minted_balances) fits_mint run.mints in
        let p =
          add_premine-IsGrown lib config db s r run.made run.minted_balances run.all
            (λ id rune q.
              etched-FitsId lib config db s run.minting k tx.tx (runestone r) ctx
                config.commitment_confirmations id rune h.height_fits (run.etches ∙ ap ok q))
            run.premines in
        let whole =
          IsSum-trans m run.minted_balances run.all (λ i. minted_of i r.mint minted)
            (λ i. premined_of i r.etching run.made) g.sums p.sums in
        let all_of : (i : RuneId)
            → balance_of i run.all
              ≡ (spent i + (minted_of i r.mint minted + premined_of i r.etching run.made))
                % (2 ^ 128) =
          λ i. omega (arith, h.sums i, whole.sums i (omega (arith, h.sums i))) in
        let shared =
          edicts-IsShared run.all tx.tx.output (whole.distinct h.distinct) (p.fits (g.fits h.fits))
            (λ j. omega (arith, all_of j)) (id_of run.made) r.edicts r.pointer allocation allocated
            run.moves a in
        record {
          all = run.all;
          few = omega (arith, h.few, g.few, p.few);
          are_held = shared.are_held;
          one_each = shared.one_each;
          accounts = λ i. record {
            minting = run.minting;
            minted = minted;
            mints = answer;
            made = run.made;
            etches = run.etches;
            target = shared.target;
            targets = shared.targets;
            arrives =
                subst (λ n. Arrives shared.target n (sum_of i allocated)) (all_of i)
                  (shared.arrives i);
          };
        }

    none-IsAllocation :
        (spent : RuneId → ℕ) (m : Balances) (allocated : List Balances)
        → IsSpent spent m
        → assign_rest tx.tx.output none (start tx.tx.output m) ≡ ok allocated
        → IsAllocation none spent allocated
    unfolding assign_rest apply_edicts
    none-IsAllocation spent m allocated h a =
        let shared =
          edicts-IsShared m tx.tx.output h.distinct h.fits (λ j. omega (arith, h.sums j)) none []
            none (start tx.tx.output m) allocated refl a in
        record {
          all = m;
          few = omega (arith, h.few);
          are_held = shared.are_held;
          one_each = shared.one_each;
          accounts = λ i.
              subst
                (λ n. Arrives (first_of (destinations_from 0 tx.tx.output)) n (sum_of i allocated))
                (h.sums i)
                (subst (λ t. Arrives t (balance_of i m) (sum_of i allocated))
                  (sym (ok-injective shared.targets)) (shared.arrives i));
        }

    pub allocated-IsAllocation :
        (artifact : Option Artifact) (spent : RuneId → ℕ) (m : Balances)
        (res : IndexingTask × (Balances × List Balances)) (allocated : List Balances)
        → IsSpent spent m
        → ((a : Artifact) (id : RuneId) → artifact ≡ some a → mint_of a ≡ some id → FitsId id)
        → apply_artifact lib config db s tx k ctx artifact (task, m) ≡ ok res
        → assign_rest tx.tx.output artifact res.1 ≡ ok allocated
        → IsAllocation artifact spent allocated
    unfolding assign_rest apply_artifact
    allocated-IsAllocation none spent m res allocated h fits_mint e a =
        none-IsAllocation spent m allocated h
          (subst (λ x. assign_rest tx.tx.output none x.1 ≡ ok allocated) (sym (ok-injective e)) a)
    allocated-IsAllocation (some (runestone r)) spent m res allocated h fits_mint e a =
        runestone-IsAllocation r spent m res.1 allocated h
          (λ id q. fits_mint (runestone r) id refl q) (apply_artifact-HasRun r m res e) a
    allocated-IsAllocation (some (cenotaph c)) spent m res allocated h fits_mint e a =
        let none_of : replicate (length tx.tx.output) [] ≡ allocated =
          sym (apply_artifact-cenotaph c m res e) ∙ ok-injective a in
        subst (IsAllocation (some (cenotaph c)) spent) none_of (record {
          all = m;
          few = omega (arith, h.few);
          are_held = nothing-IsHeld m tx.tx.output (length tx.tx.output);
          one_each = length-replicate (length tx.tx.output);
          accounts = λ i. sum_of-replicate i (length tx.tx.output);
        })

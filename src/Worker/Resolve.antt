-- ===== src/Worker/Resolve.antt =====
-- src/sync/stages/index/indexers/core/utxo_by_txo_ref.rs: `resolve_inputs`, which finds the outputs
-- that a block spends, in the cache or in the store. A hash set is a list in the order of insertion.
use maestro_symphony.Prelude.{
  ℕ, suc, List, [], ◌∷◌, ◌++◌, map, Option, none, some, Bool, true, false, Bytes, Eq, ◌==◌, list_eq,
  nat_eq, Map, insert, if◌then◌else◌, Result, ok, err, ◌>>=◌,
}
use maestro_symphony.Core.{
  TxoRef, txo_ref_eq, Utxo, utxo_by_txo_ref_kv, Error, panic, TxIn, BlockTxs,
}
use maestro_symphony.Store.{Db, IndexingTask, multi_get}
use maestro_symphony.Worker.Cache.{CacheLib, remove}

module _ {A : Type 0} ⦃e : Eq A⦄ where
  abbrev pub contains : A → List A → Bool
  contains a [] = false
  contains a (x ∷ xs) = let rest = contains a xs in if x == a then true else rest

  -- `HashSet::insert`
  abbrev pub insert_set : A → List A → List A
  insert_set a [] = a ∷ []
  insert_set a (x ∷ xs) = let rest = insert_set a xs in if x == a then x ∷ xs else x ∷ rest

  abbrev pub collect_set : List A → List A → List A
  collect_set set [] = set
  collect_set set (x ∷ xs) = collect_set (insert_set x set) xs

pub record ResolvedUtxos : Type 0 where
  pub resolver : Map TxoRef Utxo
  pub chained_txos : List TxoRef
  pub cache_hits : ℕ

abbrev pub skip_coinbase : BlockTxs → BlockTxs
skip_coinbase [] = []
skip_coinbase (tx ∷ txs) = if tx.tx.is_coinbase then txs else tx ∷ txs

abbrev pub spent_by : List TxIn → List TxoRef
spent_by inputs = map (λ i. i.previous_output) inputs

abbrev pub all_spent : BlockTxs → List TxoRef
all_spent [] = []
all_spent (tx ∷ txs) = spent_by tx.tx.input ++ all_spent txs

unfoldable pub input_refs_of : BlockTxs → List TxoRef
input_refs_of txs = collect_set [] (all_spent (skip_coinbase txs))

-- The fetched outputs join the resolver; one that is missing is a panic.
unfoldable pub insert_fetched :
    List (TxoRef × Option Utxo) → Map TxoRef Utxo → Result Error (Map TxoRef Utxo)
insert_fetched [] resolver = ok resolver
insert_fetched ((r, some u) ∷ fetched) resolver = insert_fetched fetched (insert r u resolver)
insert_fetched ((r, none) ∷ fetched) resolver = err (panic "missing non chained utxo")

-- The variables of the loop over the inputs.
pub record Scan (C : Type 0) : Type 0 where
  pub resolved : ResolvedUtxos
  pub fetch_from_db : List TxoRef
  pub cache : Option C

module _ (lib : CacheLib) where
  abbrev pub scan_cached : TxoRef → Scan lib.Cache → Option Utxo × Option lib.Cache → Scan lib.Cache
  scan_cached r st (some u, cache) = record {
    resolved = record st.resolved {
      resolver = insert r u st.resolved.resolver;
      cache_hits = suc st.resolved.cache_hits;
    };
    fetch_from_db = st.fetch_from_db;
    cache = cache;
  }
  scan_cached r st (none, cache) = record {
    resolved = st.resolved;
    fetch_from_db = st.fetch_from_db ++ (r ∷ []);
    cache = cache;
  }

  abbrev pub scan_input : List Bytes → TxoRef → Scan lib.Cache → Scan lib.Cache
  scan_input tx_ids r st =
      if contains r.tx_hash tx_ids
      then record st {
        resolved = record st.resolved { chained_txos = insert_set r st.resolved.chained_txos };
      }
      else scan_cached r st (remove lib st.cache r)

  unfoldable pub scan_inputs : List Bytes → List TxoRef → Scan lib.Cache → Scan lib.Cache
  scan_inputs tx_ids [] st = st
  scan_inputs tx_ids (r ∷ rs) st = scan_inputs tx_ids rs (scan_input tx_ids r st)

  unfoldable pub start_scan : Option lib.Cache → Scan lib.Cache
  start_scan cache = record {
    resolved = record { resolver = []; chained_txos = []; cache_hits = 0 };
    fetch_from_db = [];
    cache = cache;
  }

  unfoldable pub scan_block : BlockTxs → Option lib.Cache → Scan lib.Cache
  scan_block txs cache =
      scan_inputs (map (λ tx. tx.tx_id) txs) (input_refs_of txs) (start_scan cache)

  -- What is not cached comes from the store.
  unfoldable pub fetch_missing :
      (db : Db) → db.Store → IndexingTask → Scan lib.Cache → Result Error ResolvedUtxos
  fetch_missing db s task st = elim st.fetch_from_db [
    | [] ↦ ok st.resolved
    | _ ∷ _ ↦ (do
      fetched ← multi_get db s utxo_by_txo_ref_kv task st.fetch_from_db
      resolver ← insert_fetched fetched st.resolved.resolver
      ok (record st.resolved { resolver = resolver }))
  ]

  -- The resolver, and the cache as it is left even where the resolution fails.
  unfoldable pub resolve_inputs :
      (db : Db)
      → db.Store
      → IndexingTask
      → BlockTxs
      → Option lib.Cache
      → Result Error ResolvedUtxos × Option lib.Cache
  resolve_inputs db s task txs cache =
      let st = scan_block txs cache in (fetch_missing db s task st, st.cache)

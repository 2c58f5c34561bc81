-- ===== src/Worker/Cache.antt =====
-- src/sync/stages/index/indexers/core/utxo_by_txo_ref.rs: `UtxoCache` around mini_moka's cache, which
-- is third-party code: it may forget an entry at any time and never makes one up. Its wipe depends
-- on the machine's memory and on the clock, so it is an operation of the interface.
use maestro_symphony.Prelude.{◌≡◌, Option, none, some, Bool, false, ◌⊎◌, if◌then◌else◌}
use maestro_symphony.Core.{TxoRef, txo_ref_beq, Utxo}

pub record CacheLib : Type 1 where
  pub Cache : Type 0
  pub get : Cache → TxoRef → Option Utxo
  pub insert : Cache → TxoRef → Utxo → Cache
  pub invalidate : Cache → TxoRef → Cache
  pub wipe_if_mem_usage_high : Cache → Cache
  pub get-insert :
      (c : Cache) (r q : TxoRef) (u v : Utxo)
      → get (insert c r u) q ≡ some v
      → ((r ≡ q) × (u ≡ v)) ⊎ (get c q ≡ some v)
  pub get-invalidate :
      (c : Cache) (r q : TxoRef) (v : Utxo)
      → get (invalidate c r) q ≡ some v
      → (txo_ref_beq r q ≡ false) × (get c q ≡ some v)
  pub get-wipe :
      (c : Cache) (q : TxoRef) (v : Utxo)
      → get (wipe_if_mem_usage_high c) q ≡ some v
      → get c q ≡ some v

module _ (lib : CacheLib) where
  -- `cache.as_mut().and_then(|c| c.remove(&r))`: what was cached, and the cache without it.
  unfoldable pub remove : Option lib.Cache → TxoRef → Option Utxo × Option lib.Cache
  remove none r = (none, none)
  remove (some c) r = (lib.get c r, some (lib.invalidate c r))

  -- Outputs of mempool blocks are not cached.
  unfoldable pub cache_output : Bool → TxoRef → Utxo → Option lib.Cache → Option lib.Cache
  cache_output mempool r utxo none = none
  cache_output mempool r utxo (some c) = some (if mempool then c else lib.insert c r utxo)

  unfoldable pub wipe : Option lib.Cache → Option lib.Cache
  wipe none = none
  wipe (some c) = some (lib.wipe_if_mem_usage_high c)

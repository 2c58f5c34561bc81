-- ===== src/Worker/Context.antt =====
-- src/sync/stages/index/worker/context.rs: what the indexers of one block share, and the changes of
-- the set of unspent outputs by one transaction.
use maestro_symphony.Prelude.{
  ℕ, suc, ◌^◌, ◌%◌, List, [], ◌∷◌, Option, none, some, Bytes, Map, lookup, insert, remove,
  if◌then◌else◌, Result, ok, err,
}
use maestro_symphony.Core.{
  Point, TxoRef, txo_ref_eq, Utxo, ExtendedUtxoData, TransactionIndexer, indexer_eq,
  utxo_by_txo_ref_kv, Error, TxIn, TxOut, TransactionWithId, BlockTxs,
}
use maestro_symphony.Store.{Db, IndexingTask, set, delete}
use maestro_symphony.Worker.Cache.{CacheLib, cache_output, wipe}
use maestro_symphony.Worker.Resolve.{contains, ResolvedUtxos, resolve_inputs}

-- `sync::Network`, and the networks of the `bitcoin` crate by the same names.
pub data Network : Type 0 where
  mainnet testnet4 regtest : Network

pub record IndexingContext : Type 0 where
  pub point : Point
  pub resolver : Map TxoRef Utxo
  pub utxo_metadata : Map TxoRef ExtendedUtxoData
  pub chained_txos : List TxoRef
  pub network : Network

abbrev pub resolve_input : IndexingContext → TxoRef → Option Utxo
resolve_input ctx r = lookup r ctx.resolver

abbrev pub or_default : Option ExtendedUtxoData → ExtendedUtxoData
or_default none = []
or_default (some data') = data'

-- An indexer's bytes for an output.
unfoldable pub attach_utxo_metadata :
    IndexingContext → TxoRef → TransactionIndexer → Bytes → IndexingContext
attach_utxo_metadata ctx r indexer bytes = record ctx {
  utxo_metadata =
      insert r (insert indexer bytes (or_default (lookup r ctx.utxo_metadata))) ctx.utxo_metadata;
}

abbrev pub update_point : IndexingContext → Point → IndexingContext
update_point ctx point = record ctx { point = point }

abbrev pub context_of : Point → Network → ResolvedUtxos → IndexingContext
context_of point network resolved = record {
  point = point;
  resolver = resolved.resolver;
  utxo_metadata = [];
  chained_txos = resolved.chained_txos;
  network = network;
}

-- What one transaction changes.
pub record Progress (C : Type 0) : Type 0 where
  pub task : IndexingTask
  pub ctx : IndexingContext
  pub cache : Option C
  pub outs_written : ℕ

module _ (lib : CacheLib) (db : Db) (s : db.Store) where
  abbrev pub on_resolved :
      Point
      → Network
      → Result Error ResolvedUtxos × Option lib.Cache
      → Result Error IndexingContext × Option lib.Cache
  on_resolved point network (ok resolved, cache) = (ok (context_of point network resolved), cache)
  on_resolved point network (err e, cache) = (err e, cache)

  -- `IndexingContext::new`
  unfoldable pub new :
      IndexingTask
      → BlockTxs
      → Point
      → Network
      → Option lib.Cache
      → Result Error IndexingContext × Option lib.Cache
  new task txs point network cache =
      on_resolved point network (resolve_inputs lib db s task txs cache)

  -- A spent output leaves the store, and the resolver too unless the block is of the mempool.
  abbrev pub spend_input : TxIn → Progress lib.Cache → Progress lib.Cache
  spend_input i p = record p {
    task = delete db s utxo_by_txo_ref_kv p.task i.previous_output;
    ctx = record p.ctx {
      resolver = if p.task.mempool then p.ctx.resolver else remove i.previous_output p.ctx.resolver;
    };
  }

  unfoldable pub spend_inputs : List TxIn → Progress lib.Cache → Progress lib.Cache
  spend_inputs [] p = p
  spend_inputs (i ∷ is) p = spend_inputs is (spend_input i p)

  -- An output that is spent later in the block goes to the resolver, any other to the store.
  abbrev pub keep_output : TxoRef → Utxo → Progress lib.Cache → Progress lib.Cache
  keep_output r utxo p =
      if contains r p.ctx.chained_txos
      then record p { ctx = record p.ctx { resolver = insert r utxo p.ctx.resolver } }
      else record {
        task = set db s utxo_by_txo_ref_kv p.task r utxo;
        ctx = p.ctx;
        cache = cache_output lib p.task.mempool r utxo p.cache;
        outs_written = suc p.outs_written;
      }

  abbrev pub produced_utxo : TxoRef → TxOut → IndexingContext → Utxo
  produced_utxo r output ctx = record {
    satoshis = output.value;
    script = output.script_pubkey;
    height = ctx.point.height;
    extended = or_default (lookup r ctx.utxo_metadata);
  }

  abbrev pub take_metadata : TxoRef → Progress lib.Cache → Progress lib.Cache
  take_metadata r p = record p {
    ctx = record p.ctx { utxo_metadata = remove r p.ctx.utxo_metadata };
  }

  -- `output_index as u32`
  abbrev pub output_ref : Bytes → ℕ → TxoRef
  output_ref tx_id output_index = record { tx_hash = tx_id; txo_index = output_index % (2 ^ 32) }

  abbrev pub produce_output : Bytes → ℕ → TxOut → Progress lib.Cache → Progress lib.Cache
  produce_output tx_id output_index output p =
      let r = output_ref tx_id output_index in
      if output.is_op_return
      then p
      else keep_output r (produced_utxo r output p.ctx) (take_metadata r p)

  unfoldable pub produce_outputs : Bytes → ℕ → List TxOut → Progress lib.Cache → Progress lib.Cache
  produce_outputs tx_id output_index [] p = p
  produce_outputs tx_id output_index (output ∷ outputs) p =
      produce_outputs tx_id (suc output_index) outputs (produce_output tx_id output_index output p)

  -- Its caller adds up the outputs that each transaction writes, as `outs_written` does here.
  unfoldable pub update_utxo_set : TransactionWithId → Progress lib.Cache → Progress lib.Cache
  update_utxo_set tx p =
      let p' = produce_outputs tx.tx_id 0 tx.tx.output (spend_inputs tx.tx.input p) in
      record p' { cache = wipe lib p'.cache }

-- ===== src/Serve/Reader.antt =====
-- src/serve/mod.rs (`start_reader`), src/serve/reader_wrapper.rs, src/serve/error.rs, and what two
-- routes of src/serve/routes/addresses compute before they format it.
use maestro_symphony.Prelude.{
  ℕ, zero, suc, ◌+◌, ◌-◌, List, [], ◌∷◌, Option, none, some, Bool, true, false, Bytes, list_beq,
  list_eq, nat_eq, String, if◌then◌else◌, Result, ok, ◌>>=◌, map_err,
}
use maestro_symphony.Codec.{DecodingError, ok_or}
use maestro_symphony.Timestamp.{as_u64, from_u64}
use maestro_symphony.Table.{Table}
use maestro_symphony.Core.{
  Error, indexer_eq, TimestampEntry, timestamps_kv, confirmed, mempool_kind,
}
use maestro_symphony.Store.{Db, u64_max, reader_get}
use maestro_symphony.Indexers.TxCount.{tx_count_by_address_kv}

-- Of `ServeError`, what a read can meet.
pub data ServeError : Type 0 where
  internal : String → ServeError
  decoding : DecodingError → ServeError
  not_found : ServeError
  symphony : Error → ServeError
  unexpected_missing_data : ServeError

pub record IndexerInfo : Type 0 where
  pub tip_height : ℕ
  pub tip_hash : Bytes
  pub mempool_timestamp : Option ℕ
  pub estimated_blocks : List ℕ

-- A reader reads at its time.
pub record Started : Type 0 where
  pub read_ts : ℕ
  pub indexer_info : IndexerInfo

-- `storage.reader(Timestamp::from_u64(n))`
abbrev pub reader_at : ℕ → ℕ
reader_at n = as_u64 (from_u64 n)

abbrev pub info_at : TimestampEntry → Option ℕ → List ℕ → IndexerInfo
info_at confirmed_point mempool_timestamp estimated_blocks = record {
  tip_height = confirmed_point.tip_height;
  tip_hash = confirmed_point.tip_hash;
  mempool_timestamp = mempool_timestamp;
  estimated_blocks = estimated_blocks;
}

-- The heights from `height` on.
abbrev pub estimate : ℕ → ℕ → List ℕ
estimate height zero = []
estimate height (suc n) = (height + 1) ∷ estimate (height + 1) n

abbrev pub on_confirmed : TimestampEntry → Started
on_confirmed confirmed_point = record {
  read_ts = reader_at confirmed_point.rocks_timestamp;
  indexer_info = info_at confirmed_point none [];
}

-- The mempool's time counts if its blocks are chained on the confirmed tip.
abbrev pub on_mempool : TimestampEntry → Option TimestampEntry → Started
on_mempool confirmed_point none = on_confirmed confirmed_point
on_mempool confirmed_point (some mempool_point) =
    if list_beq mempool_point.tip_hash confirmed_point.tip_hash
    then record {
      read_ts = reader_at mempool_point.rocks_timestamp;
      indexer_info = info_at confirmed_point mempool_point.mempool_timestamp (
          estimate confirmed_point.tip_height
            (mempool_point.tip_height - confirmed_point.tip_height));
    }
    else on_confirmed confirmed_point

module _ (db : Db) (s : db.Store) where
  unfoldable pub get_maybe : {K V : Type 0} → Table K V → ℕ → K → Result ServeError (Option V)
  get_maybe t read_ts key = map_err symphony (reader_get db t s read_ts key)

  unfoldable pub get_expected : {K V : Type 0} → Table K V → ℕ → K → Result ServeError V
  unfolding get_maybe
  get_expected t read_ts key = do
    found ← get_maybe t read_ts key
    ok_or found unexpected_missing_data

  abbrev pub start_on : Bool → TimestampEntry → Result ServeError Started
  start_on false confirmed_point = ok (on_confirmed confirmed_point)
  start_on true confirmed_point = do
    mempool_point ← get_maybe timestamps_kv (reader_at u64_max) mempool_kind
    ok (on_mempool confirmed_point mempool_point)

  -- `AppState::start_reader`
  unfoldable pub start_reader : Bool → Result ServeError Started
  start_reader mempool = do
    confirmed_point ← get_expected timestamps_kv (reader_at u64_max) confirmed
    start_on mempool confirmed_point

  -- `addresses_tx_count_by_address`
  unfoldable pub tx_count : ℕ → Bytes → Result ServeError ℕ
  tx_count read_ts script_pk = do
    count ← get_maybe tx_count_by_address_kv read_ts script_pk
    ok (elim count [ none ↦ 0 | some n ↦ n ])

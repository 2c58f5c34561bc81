-- ===== src/Lib.antt =====
-- Maestro Symphony, a Bitcoin indexer: verification of its storage layer, its rollbacks, its indexers,
-- its choice of chain events and its session with the node.
--
-- The pull stage (src/sync/stages/pull) fetches blocks from a node and sends chain events to the
-- index stage (src/sync/stages/index), which runs its indexers on each block inside an indexing
-- task and commits the task to RocksDB with the store's own timestamps; the API
-- (src/serve) reads at those timestamps. A rollback writes the original values of every key back.
--
-- Prelude: shared names, byte strings with their order, results, and hash maps as association
--   lists. A hash map's order of iteration is unspecified in the source; the lists take the order
--   of insertion.
-- Codec, Encdec: src/storage/encdec. `VarUInt` and each instance of `Encode` and `Decode`, and
--   `prefix_key_range`. A byte string is a list of numbers below 256; usize has 64 bits.
-- Timestamp: src/storage/timestamp.rs, the clock an argument.
-- Merge: src/storage/merge_operation.rs.
-- Table, Core, CoreLaws: src/storage/table.rs, the core tables of
--   src/sync/stages/index/indexers/core, and the codecs that macros/src/lib.rs derives for them.
-- Store, Commit: src/storage/kv_store.rs. `Db` is an interface of RocksDB with its documented
--   behaviour; `IndexingTask` is the write buffer with the recorded originals, and
--   `apply_indexing_task` the commit.
-- Rollback: src/sync/stages/index/rollback/buffer.rs, and the undo batch of
--   src/sync/stages/index/worker/stage.rs; Storage is its reading from the store.
-- Worker: src/sync/stages/index/worker, from `Stage::new` (Start) on, and `resolve_inputs` of
--   src/sync/stages/index/indexers/core/utxo_by_txo_ref.rs. A step answers with the stage as it
--   leaves it and with its result, since a stage lives on after an error. The cache of mini_moka is
--   the interface `CacheLib`, an indexer is any function of the type `ProcessTransaction`.
-- Runes: src/sync/stages/index/indexers/custom/runes, the whole of `process_tx` (Index) by its parts:
--   Inputs, Mint, Etch, Allocate (the edicts), Outputs and Activity. What the source reads of the
--   crates ordinals and bitcoin is the record `OrdinalsLib`. u128 sums wrap around, as in a release
--   build.
-- Indexers: the other indexers of src/sync/stages/index/indexers/custom (TxCount, Utxos and Charms,
--   the spell of charms_lib a parameter), and Factory, the indexers of a configuration.
-- Pull: src/sync/stages/pull/stage.rs, `schedule` (Schedule) and `fetch_chain_actions` (Fetch), the
--   node's answers a parameter, and `intersect_options` of
--   src/sync/stages/index/indexers/core/hash_by_height.rs. Peer: src/sync/stages/pull/peer.rs. System
--   steps the tasks of a session with the node (ingress, egress, handler, client) in any order; what
--   they send to each other is in channels of bounded capacity. Wire decodes the socket's stream,
--   Client is what the stage calls.
-- Serve: src/serve. `start_reader` and the reads of src/serve/reader_wrapper.rs (Reader), and what the
--   routes of src/serve/routes on addresses and on one rune read and sum (Utxos, Balances). The
--   iteration over a range of keys is a parameter, `KvIter`; the parsing of addresses and of
--   identifiers comes before, and the formatting of the answers after what is modelled.
-- Tests: a database in memory, runs, and the theorems at concrete inputs.
--
-- The interface of RocksDB merges the operands of a key one by one. RocksDB may first combine them
-- by the program's partial merge, which differs where an operation saturates at zero or overflows; no
-- indexer decrements. Heights are below 2 ^ 64 - 1, so that the next height is a u64.
--
-- Panics of the code are errors of the model. The errors of RocksDB itself, its tuning, its
-- statistics, its garbage collection of old versions, and the logging are not modelled, nor
-- are the opening of the node's socket and its timers, the routing and the JSON of the HTTP API, its
-- routes on charms, and the program's configuration and threads. Every loop is a recursion on a list
-- or on a count, but for two: the search of `intersect_options`, whose fuel is one more than the
-- height that it starts at, and the reading of a socket's stream, whose fuel is more than the frames
-- that it holds.
pub mod Prelude
pub mod Codec
pub mod Encdec
pub mod Timestamp
pub mod Merge
pub mod Table
pub mod Core
pub mod CoreLaws
pub mod Store
pub mod Commit
pub mod Rollback
pub mod Worker
pub mod Runes
pub mod Indexers
pub mod Pull
pub mod Serve
pub mod Tests

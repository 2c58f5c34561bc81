-- ===== src/Commit.antt =====
-- src/storage/kv_store.rs: what the commit of an indexing task does to the store. The children
-- hold its laws.
pub mod Batch
pub mod Reads
pub mod Gc
pub mod Writes
pub mod Counters
pub mod Fetch

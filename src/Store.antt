-- ===== src/Store.antt =====
-- src/storage/kv_store.rs: the indexing tasks, their commit and the readers, over an interface of
-- RocksDB.
mod Interface
mod Task
mod Handler
mod MultiGet
unfoldable pub use Interface.*
unfoldable pub use Task.*
unfoldable pub use Handler.*
unfoldable pub use MultiGet.*

-- ===== src/Core.antt =====
-- src/sync/stages/mod.rs, src/error.rs and src/sync/stages/index/indexers (types.rs, core/*.rs,
-- custom/mod.rs): the data that the components share, and the core tables.
mod Types
mod Tables
mod Transactions
unfoldable pub use Types.*
unfoldable pub use Tables.*
unfoldable pub use Transactions.*

-- ===== src/Indexers.antt =====
-- src/sync/stages/index/indexers/custom: the indexers of transactions. The runes indexer has a module
-- of its own.
pub mod Loop
pub mod Marks
pub mod TxCount
pub mod Charms
pub mod Utxos
pub mod Factory

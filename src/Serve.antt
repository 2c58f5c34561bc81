-- ===== src/Serve.antt =====
-- src/serve: the reader of a request, and the sums of its answers. Routing, addresses, JSON and the
-- formatting of times and names are third-party code.
pub mod Balances
pub mod Entries
pub mod Listed
pub mod Reader
pub mod Snapshot
pub mod Totals
pub mod Utxos

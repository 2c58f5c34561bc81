-- ===== src/Runes.antt =====
-- src/sync/stages/index/indexers/custom/runes: the tables of the runes indexer, its
-- mints and its edicts.
pub mod Tables
pub mod Mint
pub mod Cap
pub mod Allocate
pub mod Conservation
pub mod Edicts
pub mod Ordinals
pub mod Etch
pub mod Inputs
pub mod Outputs
pub mod Activity
pub mod Index
pub mod Writes
pub mod OutputWrites
pub mod Held
pub mod Leftovers
pub mod Kept
pub mod Etching
pub mod Transfers
pub mod Shares
pub mod Created
pub mod Accounts
pub mod Moves

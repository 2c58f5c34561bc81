-- ===== src/Tests.antt =====
-- Runs of the modelled code on concrete inputs, and the theorems at inputs that meet their
-- hypotheses.
mod Database
mod Storage
mod Worker
mod Commit
mod Runes
mod Indexers
mod Transfers
mod Pull
mod Serve
mod Restart
mod Peer

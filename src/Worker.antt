-- ===== src/Worker.antt =====
-- src/sync/stages/index/worker: the index stage, which runs its indexers on every chain event.
pub mod Cache
pub mod Resolve
pub mod Context
pub mod Index
pub mod Stage
pub mod Start
pub mod Restart
pub mod Execute
pub mod Steps
pub mod Kept
pub mod Consistency
pub mod RollForward
pub mod Invariant
pub mod Chain
pub mod Traces
pub mod Writes
pub mod Undoes

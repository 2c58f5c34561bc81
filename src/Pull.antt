-- ===== src/Pull.antt =====
-- src/sync/stages/pull/stage.rs: the pull stage, which asks a node for new blocks and sends them to the
-- index stage, and the points by which it finds its place in the node's chain.
pub mod Intersect
pub mod Fetch
pub mod Forwards
pub mod Chain
pub mod Schedule
pub mod Sends
pub mod Peer

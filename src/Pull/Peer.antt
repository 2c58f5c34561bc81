-- ===== src/Pull/Peer.antt =====
-- src/sync/stages/pull/peer.rs: the peer-to-peer session with the node. Of the messages of the
-- `bitcoin` crate, what the source reads or builds.
use maestro_symphony.Prelude.{
  ℕ, List, [], ◌∷◌, map, Bool, true, false, Bytes, String, if◌then◌else◌,
}
use maestro_symphony.Pull.Fetch.{Header}
pub mod System
pub mod Order
pub mod Progress
pub mod Client
pub mod Answers
pub mod Wire
pub mod Frames

pub data Inventory : Type 0 where
  block_inventory witness_block : Bytes → Inventory
  other_inventory : Inventory

pub data DecodedMessage : Type 0 where
  version verack unused : DecodedMessage
  ping : ℕ → DecodedMessage
  inv : List Inventory → DecodedMessage
  headers_message : List Header → DecodedMessage
  block_message : Bytes → DecodedMessage

pub data NetworkMessage : Type 0 where
  version_message verack_message mem_pool : NetworkMessage
  get_headers : List Bytes → NetworkMessage
  get_data : List Inventory → NetworkMessage
  pong : ℕ → NetworkMessage

pub data P2pError : Type 0 where
  connect_failure ingress_io ingress_channel_closed ingress_decoding : P2pError
  egress_io egress_channel_closed : P2pError
  peer_channel_closed : String → P2pError
  get_blocks_mismatch : Bytes → Bytes → P2pError

-- Headers are asked for up to the peer's tip.
pub data Request : Type 0 where
  new_headers : List Bytes → Request
  blocks_request : List Inventory → Request
  mempool_ids : Request

abbrev pub get_new_headers_request : List Bytes → Request
get_new_headers_request intersects = new_headers intersects

abbrev pub get_blocks_request : List Bytes → Request
get_blocks_request blockhashes = blocks_request (map witness_block blockhashes)

-- The message that the handler makes of a request.
abbrev pub message_of : Request → NetworkMessage
message_of (new_headers intersects) = get_headers intersects
message_of (blocks_request inventory) = get_data inventory
message_of mempool_ids = mem_pool

abbrev pub any_block : List Inventory → Bool
any_block [] = false
any_block (block_inventory hash ∷ is) = true
any_block (i ∷ is) = any_block is

-- ===== src/Pull/Peer/Client.antt =====
-- src/sync/stages/pull/peer.rs: `Peer`, the client of a session. What will arrive in a channel before it
-- closes is a list, and decoding a block is the `bitcoin` crate's.
use maestro_symphony.Prelude.{
  String, ℕ, zero, suc, List, [], ◌∷◌, Option, none, some, Bool, true, false, Bytes, length,
  list_beq, nat_eq, if◌then◌else◌, Result, ok, err, ◌>>=◌,
}
use maestro_symphony.Codec.{ok_or}
use maestro_symphony.Pull.Fetch.{Header, Block}
use maestro_symphony.Pull.Peer.{
  P2pError, egress_channel_closed, peer_channel_closed, ingress_decoding, get_blocks_mismatch,
  Request, get_new_headers_request, get_blocks_request,
}

-- An error that the client answers, or a panic.
pub data ClientError : Type 0 where
  answered : P2pError → ClientError
  panicked : ClientError

-- The next of a channel, and what is left in it.
abbrev pub receive : {A : Type 0} → String → List A → Result ClientError (A × List A)
receive name [] = err (answered (peer_channel_closed name))
receive name (a ∷ arriving) = ok (a, arriving)

-- The request that is sent, and the answer.
abbrev pub Asked : Type 0 → Type 0
Asked A = Option Request × Result ClientError A

-- `Peer::get_new_headers`, whether the handler takes requests and what arrives.
unfoldable pub get_new_headers :
    Bool → List Bytes → List (List Header) → Asked (List Header × List (List Header))
get_new_headers true intersects arriving =
    (some (get_new_headers_request intersects), receive "headers" arriving)
get_new_headers false intersects arriving = (none, err (answered egress_channel_closed))

unfoldable pub receive_blocks : ℕ → List Bytes → Result ClientError (List Bytes × List Bytes)
receive_blocks zero arriving = ok ([], arriving)
receive_blocks (suc n) arriving = do
  (raw, rest) ← receive "blocks" arriving
  (blocks, rest') ← receive_blocks n rest
  ok (raw ∷ blocks, rest')

module _ (decode_block : Bytes → Option Block) where
  abbrev pub check_hash : Bytes → Block → Result ClientError Block
  check_hash hash block =
      if list_beq block.block_hash hash
      then ok block
      else err (answered (get_blocks_mismatch block.block_hash hash))

  -- The loop over the hashes and the blocks received.
  unfoldable pub decode_blocks : List Bytes → List Bytes → Result ClientError (List Block)
  decode_blocks [] raws = ok []
  decode_blocks (hash ∷ hashes) [] = ok []
  decode_blocks (hash ∷ hashes) (raw ∷ raws) = do
    block ← ok_or (decode_block raw) (answered ingress_decoding)
    checked ← check_hash hash block
    blocks ← decode_blocks hashes raws
    ok (checked ∷ blocks)

  unfoldable pub answer_blocks :
      List Bytes → List Bytes → Result ClientError (List Block × List Bytes)
  answer_blocks hashes arriving = do
    (raws, rest) ← receive_blocks (length hashes) arriving
    blocks ← decode_blocks hashes raws
    ok (blocks, rest)

  -- `Peer::get_blocks`
  unfoldable pub get_blocks : Bool → List Bytes → List Bytes → Asked (List Block × List Bytes)
  get_blocks false hashes arriving = (none, err panicked)
  get_blocks true hashes arriving =
      (some (get_blocks_request hashes), answer_blocks hashes arriving)

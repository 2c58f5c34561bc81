-- ===== src/Pull/Peer/System.antt =====
-- src/sync/stages/pull/peer.rs: the tasks of a session and the channels between them, in any order of
-- their steps. A step of a task is what it does between two awaits; a task whose channel is full
-- keeps what it sends in hand.
use maestro_symphony.Prelude.{
  ◌<◌, ◌≡◌, ◌≢◌, List, [], ◌∷◌, ◌++◌, Option, none, some, Bool, true, false, ◌||◌, Bytes, length,
}
use maestro_symphony.Pull.Fetch.{Header}
use maestro_symphony.Pull.Peer.{
  DecodedMessage, version, verack, unused, ping, inv, headers_message, block_message,
  NetworkMessage, version_message, verack_message, pong, P2pError, ingress_channel_closed,
  egress_channel_closed, peer_channel_closed, Request, message_of, any_block,
}

-- What the handler's task waits to send, or that it waits for a request or a message.
pub data Hand : Type 0 where
  free : Hand
  to_egress : NetworkMessage → Hand
  to_headers : List Header → Hand
  to_blocks : Bytes → Hand

-- The channels with their capacities: requests 1, ingress 1, egress 1, headers 20, blocks 20.
pub record Session : Type 0 where
  pub requests : List Request
  pub reading : Option DecodedMessage
  pub ingress : List DecodedMessage
  pub ingress_open : Bool
  pub hand : Hand
  pub egress : List NetworkMessage
  pub egress_open : Bool
  pub failed : Option P2pError
  pub client_open : Bool
  pub headers : List (List Header)
  pub blocks : List Bytes
  pub initialised : Bool
  pub new_block : Bool
  -- What passed so far: the client's requests, the messages read and written on the socket, those
  -- that the handler took, and what the client got.
  pub requested : List Request
  pub accepted : List Request
  pub read : List DecodedMessage
  pub handled : List DecodedMessage
  pub written : List NetworkMessage
  pub got_headers : List (List Header)
  pub got_blocks : List Bytes

-- `PeerHandler::run` begins with the version message.
abbrev pub start_session : Session
start_session = record {
  requests = [];
  reading = none;
  ingress = [];
  ingress_open = true;
  hand = to_egress version_message;
  egress = [];
  egress_open = true;
  failed = none;
  client_open = true;
  headers = [];
  blocks = [];
  initialised = false;
  new_block = false;
  requested = [];
  accepted = [];
  read = [];
  handled = [];
  written = [];
  got_headers = [];
  got_blocks = [];
}

-- `PeerHandler::tick` on a message.
abbrev pub handle : DecodedMessage → Session → Session
handle version s = record s { hand = to_egress verack_message }
handle verack s = record s { initialised = true }
handle (inv is) s = record s { new_block = any_block is || s.new_block }
handle (ping nonce) s = record s { hand = to_egress (pong nonce) }
handle (headers_message hs) s = record s { hand = to_headers hs }
handle (block_message raw) s = record s { hand = to_blocks raw }
handle unused s = s

-- The handler stops with an error, and aborts the tasks of the socket.
abbrev pub stop : P2pError → Session → Session
stop e s = record s { failed = some e; ingress_open = false; egress_open = false }

-- What a task does with what is in transit.
pub data TaskStep (s : Session) : Session → Type 0 where
  -- `Ingress::tick` sends the message that it read
  deliver :
      (m : DecodedMessage)
      → s.ingress_open ≡ true
      → s.failed ≡ none
      → s.reading ≡ some m
      → length s.ingress < 1
      → TaskStep s (record s { reading = none; ingress = s.ingress ++ (m ∷ []) })
  -- `PeerHandler::tick` takes a request or a message
  take_request :
      (r : Request) (rs : List Request)
      → s.failed ≡ none
      → s.hand ≡ free
      → s.requests ≡ r ∷ rs
      → TaskStep s (record s {
        requests = rs;
        hand = to_egress (message_of r);
        accepted = s.accepted ++ (r ∷ []);
      })
  take_message :
      (m : DecodedMessage) (ms : List DecodedMessage)
      → s.failed ≡ none
      → s.hand ≡ free
      → s.ingress ≡ m ∷ ms
      → TaskStep s (handle m (record s { ingress = ms; handled = s.handled ++ (m ∷ []) }))
  -- what the handler sends goes through
  relay_message :
      (m : NetworkMessage)
      → s.failed ≡ none
      → s.hand ≡ to_egress m
      → s.egress_open ≡ true
      → length s.egress < 1
      → TaskStep s (record s { hand = free; egress = s.egress ++ (m ∷ []) })
  relay_headers :
      (hs : List Header)
      → s.failed ≡ none
      → s.hand ≡ to_headers hs
      → s.client_open ≡ true
      → length s.headers < 20
      → TaskStep s (record s { hand = free; headers = s.headers ++ (hs ∷ []) })
  relay_block :
      (raw : Bytes)
      → s.failed ≡ none
      → s.hand ≡ to_blocks raw
      → s.client_open ≡ true
      → length s.blocks < 20
      → TaskStep s (record s { hand = free; blocks = s.blocks ++ (raw ∷ []) })
  -- `Egress::tick` writes a message whole
  write_message :
      (m : NetworkMessage) (ms : List NetworkMessage)
      → s.egress_open ≡ true
      → s.egress ≡ m ∷ ms
      → TaskStep s (record s { egress = ms; written = s.written ++ (m ∷ []) })

pub data Step (s : Session) : Session → Type 0 where
  task : {t : Session} → TaskStep s t → Step s t
  -- the client sends a request, receives, waits for a new block, or is dropped
  ask :
      (r : Request)
      → s.failed ≡ none
      → length s.requests < 1
      → Step s (record s { requests = s.requests ++ (r ∷ []); requested = s.requested ++ (r ∷ []) })
  receive_headers :
      (hs : List Header) (more : List (List Header))
      → s.headers ≡ hs ∷ more
      → Step s (record s { headers = more; got_headers = s.got_headers ++ (hs ∷ []) })
  receive_block :
      (raw : Bytes) (more : List Bytes)
      → s.blocks ≡ raw ∷ more
      → Step s (record s { blocks = more; got_blocks = s.got_blocks ++ (raw ∷ []) })
  notified : Step s (record s { new_block = false })
  client_drops : Step s (record s { client_open = false })
  -- `Ingress::tick` reads a message, or the socket fails, or the message cannot be decoded
  read_message :
      (m : DecodedMessage)
      → s.ingress_open ≡ true
      → s.reading ≡ none
      → Step s (record s { reading = some m; read = s.read ++ (m ∷ []) })
  ingress_fails : s.reading ≡ none → Step s (record s { ingress_open = false })
  -- the handler is gone, which was to take the message
  ingress_refused :
      (m : DecodedMessage) (e : P2pError)
      → s.reading ≡ some m
      → s.failed ≡ some e
      → Step s (record s { ingress_open = false })
  -- the socket of `Egress::tick` fails
  egress_fails : Step s (record s { egress_open = false })
  -- `PeerHandler::tick` finds a channel closed
  find_no_ingress :
      s.failed ≡ none
      → s.hand ≡ free
      → s.ingress ≡ []
      → s.ingress_open ≡ false
      → Step s (stop ingress_channel_closed s)
  find_no_client :
      s.failed ≡ none
      → s.hand ≡ free
      → s.requests ≡ []
      → s.client_open ≡ false
      → Step s (stop (peer_channel_closed "request") s)
  -- the version message is not sent, and the handler ends without aborting the ingress
  fail_version :
      s.failed ≡ none
      → s.hand ≡ to_egress version_message
      → s.egress_open ≡ false
      → Step s (record s { failed = some egress_channel_closed })
  fail_message :
      (m : NetworkMessage)
      → m ≢ version_message
      → s.failed ≡ none
      → s.hand ≡ to_egress m
      → s.egress_open ≡ false
      → Step s (stop egress_channel_closed s)
  fail_headers :
      (hs : List Header)
      → s.failed ≡ none
      → s.hand ≡ to_headers hs
      → s.client_open ≡ false
      → Step s (stop (peer_channel_closed "headers") s)
  fail_block :
      (raw : Bytes)
      → s.failed ≡ none
      → s.hand ≡ to_blocks raw
      → s.client_open ≡ false
      → Step s (stop (peer_channel_closed "blocks") s)

pub data Reach : Session → Type 0 where
  start : Reach start_session
  later : {s t : Session} → Reach s → Step s t → Reach t

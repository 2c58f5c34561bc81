-- ===== src/Pull/Peer/Order.antt =====
-- src/sync/stages/pull/peer.rs: no order of the tasks' steps loses, repeats or reorders a message.
use maestro_symphony.Prelude.{
  ◌≤◌, ◌≡◌, refl, ap, arith, List, [], ◌∷◌, ◌++◌, map, append_assoc, append-nil, length-append,
  Option, none, some, Bool, true, false, ◌||◌, Bytes, length,
}
use mathlib.Core.List.{map-append}
use maestro_symphony.Pull.Fetch.{Header}
use maestro_symphony.Pull.Peer.{
  DecodedMessage, version, verack, unused, ping, inv, headers_message, block_message,
  NetworkMessage, verack_message, pong, mem_pool, get_headers, get_data, Request, new_headers,
  blocks_request, mempool_ids, message_of,
}
use maestro_symphony.Pull.Peer.System.{
  Hand, to_egress, to_headers, to_blocks, Session, start_session, TaskStep, Step, task, ask,
  read_message, deliver, ingress_fails, take_request, take_message, find_no_ingress, find_no_client,
  relay_message, relay_headers, relay_block, fail_message, fail_version, ingress_refused,
  fail_headers, fail_block, write_message, egress_fails, receive_headers, receive_block, notified,
  client_drops, Reach, start, later,
}

abbrev pub to_list : {A : Type 0} → Option A → List A
to_list none = []
to_list (some a) = a ∷ []

-- The parts of a list of messages.
abbrev pub blocks_in : List DecodedMessage → List Bytes
blocks_in [] = []
blocks_in (block_message raw ∷ ms) = raw ∷ blocks_in ms
blocks_in (m ∷ ms) = blocks_in ms

abbrev pub headers_in : List DecodedMessage → List (List Header)
headers_in [] = []
headers_in (headers_message hs ∷ ms) = hs ∷ headers_in ms
headers_in (m ∷ ms) = headers_in ms

abbrev pub has_verack : List DecodedMessage → Bool
has_verack [] = false
has_verack (verack ∷ ms) = true
has_verack (m ∷ ms) = has_verack ms

-- The answers that the handler owes: an acknowledgement to a version and a pong to each ping.
abbrev pub answers_to : List DecodedMessage → List NetworkMessage
answers_to [] = []
answers_to (version ∷ ms) = verack_message ∷ answers_to ms
answers_to (ping nonce ∷ ms) = pong nonce ∷ answers_to ms
answers_to (m ∷ ms) = answers_to ms

abbrev pub answers_in : List NetworkMessage → List NetworkMessage
answers_in [] = []
answers_in (verack_message ∷ ms) = verack_message ∷ answers_in ms
answers_in (pong nonce ∷ ms) = pong nonce ∷ answers_in ms
answers_in (m ∷ ms) = answers_in ms

abbrev pub requests_in : List NetworkMessage → List NetworkMessage
requests_in [] = []
requests_in (get_headers hs ∷ ms) = get_headers hs ∷ requests_in ms
requests_in (get_data is ∷ ms) = get_data is ∷ requests_in ms
requests_in (mem_pool ∷ ms) = mem_pool ∷ requests_in ms
requests_in (m ∷ ms) = requests_in ms

-- What the handler has in hand for each channel.
abbrev pub hand_messages : Hand → List NetworkMessage
hand_messages (to_egress m) = m ∷ []
hand_messages h = []

abbrev pub hand_headers : Hand → List (List Header)
hand_headers (to_headers hs) = hs ∷ []
hand_headers h = []

abbrev pub hand_blocks : Hand → List Bytes
hand_blocks (to_blocks raw) = raw ∷ []
hand_blocks h = []

-- What was sent to the egress, in order.
abbrev pub outgoing : Session → List NetworkMessage
outgoing s = s.written ++ (s.egress ++ hand_messages s.hand)

pub record IsOrderly (s : Session) : Type 0 where
  pub in_order : s.handled ++ (s.ingress ++ to_list s.reading) ≡ s.read
  pub headers_kept : s.got_headers ++ (s.headers ++ hand_headers s.hand) ≡ headers_in s.handled
  pub blocks_kept : s.got_blocks ++ (s.blocks ++ hand_blocks s.hand) ≡ blocks_in s.handled
  pub accepted_in_order : s.accepted ++ s.requests ≡ s.requested
  pub requests_kept : requests_in (outgoing s) ≡ map message_of s.accepted
  pub answers_kept : answers_in (outgoing s) ≡ answers_to s.handled
  pub greeted : s.initialised ≡ has_verack s.handled
  pub requests_fit : length s.requests ≤ 1
  pub ingress_fit : length s.ingress ≤ 1
  pub egress_fit : length s.egress ≤ 1
  pub headers_fit : length s.headers ≤ 20
  pub blocks_fit : length s.blocks ≤ 20

start-IsOrderly : IsOrderly start_session
start-IsOrderly = record {
  in_order = refl;
  headers_kept = refl;
  blocks_kept = refl;
  accepted_in_order = refl;
  requests_kept = refl;
  answers_kept = refl;
  greeted = refl;
  requests_fit = omega arith;
  ingress_fit = omega arith;
  egress_fit = omega arith;
  headers_fit = omega arith;
  blocks_fit = omega arith;
}

headers_in-append : (a b : List DecodedMessage) → headers_in (a ++ b) ≡ headers_in a ++ headers_in b
headers_in-append [] b = refl
headers_in-append (headers_message hs ∷ a) b = ap (λ t. hs ∷ t) (headers_in-append a b)
headers_in-append (version ∷ a) b = headers_in-append a b
headers_in-append (verack ∷ a) b = headers_in-append a b
headers_in-append (unused ∷ a) b = headers_in-append a b
headers_in-append (ping n ∷ a) b = headers_in-append a b
headers_in-append (inv is ∷ a) b = headers_in-append a b
headers_in-append (block_message r ∷ a) b = headers_in-append a b

blocks_in-append : (a b : List DecodedMessage) → blocks_in (a ++ b) ≡ blocks_in a ++ blocks_in b
blocks_in-append [] b = refl
blocks_in-append (m ∷ a) b = ground (arith, blocks_in-append a b)

answers_to-append : (a b : List DecodedMessage) → answers_to (a ++ b) ≡ answers_to a ++ answers_to b
answers_to-append [] b = refl
answers_to-append (m ∷ a) b = ground (arith, answers_to-append a b)

answers_in-append : (a b : List NetworkMessage) → answers_in (a ++ b) ≡ answers_in a ++ answers_in b
answers_in-append [] b = refl
answers_in-append (m ∷ a) b = ground (arith, answers_in-append a b)

requests_in-append :
    (a b : List NetworkMessage) → requests_in (a ++ b) ≡ requests_in a ++ requests_in b
requests_in-append [] b = refl
requests_in-append (m ∷ a) b = ground (arith, requests_in-append a b)

has_verack-append :
    (a b : List DecodedMessage) → has_verack (a ++ b) ≡ (has_verack a || has_verack b)
has_verack-append [] b = refl
has_verack-append (m ∷ a) b = ground (arith, has_verack-append a b)

ruleset appends = (
  arith, append_assoc, append-nil, headers_in-append, blocks_in-append, answers_to-append,
  answers_in-append, requests_in-append, has_verack-append, map-append, length-append,
)

message_of-requests_in : (r : Request) → requests_in (message_of r ∷ []) ≡ message_of r ∷ []
message_of-requests_in (new_headers hs) = refl
message_of-requests_in (blocks_request is) = refl
message_of-requests_in mempool_ids = refl

message_of-answers_in : (r : Request) → answers_in (message_of r ∷ []) ≡ []
message_of-answers_in (new_headers hs) = refl
message_of-answers_in (blocks_request is) = refl
message_of-answers_in mempool_ids = refl

Task-IsOrderly : (s t : Session) → TaskStep s t → IsOrderly s → IsOrderly t
Task-IsOrderly s t (deliver m p f r n) o = grind appends
Task-IsOrderly s t (take_request r rs f h e) o =
    grind (appends, message_of-requests_in r, message_of-answers_in r)
Task-IsOrderly s t (take_message m ms f h e) o = grind appends
Task-IsOrderly s t (relay_message m f h c n) o = grind appends
Task-IsOrderly s t (relay_headers hs f h c n) o = grind appends
Task-IsOrderly s t (relay_block raw f h c n) o = grind appends
Task-IsOrderly s t (write_message m ms c e) o = grind appends

Step-IsOrderly : (s t : Session) → Step s t → IsOrderly s → IsOrderly t
Step-IsOrderly s t (task e) o = Task-IsOrderly s t e o
Step-IsOrderly s t (ask r f n) o = grind appends
Step-IsOrderly s t (read_message m p r) o = grind appends
Step-IsOrderly s t (ingress_fails r) o = grind appends
Step-IsOrderly s t (ingress_refused m x r f) o = grind appends
Step-IsOrderly s t (fail_version f h c) o = grind appends
Step-IsOrderly s t (find_no_ingress f h e c) o = grind appends
Step-IsOrderly s t (find_no_client f h e c) o = grind appends
Step-IsOrderly s t (fail_message m v f h c) o = grind appends
Step-IsOrderly s t (fail_headers hs f h c) o = grind appends
Step-IsOrderly s t (fail_block raw f h c) o = grind appends
Step-IsOrderly s t egress_fails o = grind appends
Step-IsOrderly s t (receive_headers hs more e) o = grind appends
Step-IsOrderly s t (receive_block raw more e) o = grind appends
Step-IsOrderly s t notified o = grind appends
Step-IsOrderly s t client_drops o = grind appends

-- In whatever order the tasks of a session step, and wherever they stop, no message is lost, repeated
-- or overtaken: the messages read are those that the handler took and then those that wait for it;
-- the client's headers and blocks are, in order, those of the messages taken, but for the ones that
-- wait; its requests go out in its order, and a version and each ping are answered in theirs; the
-- client is told of the handshake exactly if a verack was taken. No channel exceeds its capacity.
pub Reach-IsOrderly : {s : Session} → Reach s → IsOrderly s
Reach-IsOrderly start = start-IsOrderly
Reach-IsOrderly (later {s} {t} r e) = Step-IsOrderly s t e (Reach-IsOrderly r)

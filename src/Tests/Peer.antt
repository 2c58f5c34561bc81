-- ===== src/Tests/Peer.antt =====
-- src/sync/stages/pull/peer.rs: a session that relays one block, a stream of two frames, and a request for
-- one block.
use maestro_symphony.Prelude.{
  ℕ, ◌≡◌, ◌↔◌, refl, arith, List, [], ◌∷◌, ◌++◌, Option, none, some, true, Bytes, eqb, replicate,
  if◌then◌else◌, ok, ◌⊎◌,
}
use maestro_symphony.Pull.Fetch.{Block}
use maestro_symphony.Pull.Peer.{
  ping, block_message, version_message, ingress_io, get_blocks_request,
}
use maestro_symphony.Pull.Peer.System.{
  Session, start_session, free, Reach, start, later, task, read_message, deliver, take_message,
  relay_message, relay_block, write_message, receive_block,
}
use maestro_symphony.Pull.Peer.Order.{IsOrderly, Reach-IsOrderly}
use maestro_symphony.Pull.Peer.Progress.{IsQuiet, ClientIsBehind, TaskSteps, session_drains}
use maestro_symphony.Pull.Peer.Client.{get_blocks}
use maestro_symphony.Pull.Peer.Answers.{AreRequested, get_blocks-requested}
use maestro_symphony.Pull.Peer.Wire.{WireLib, decode_payload, read_stream}
use maestro_symphony.Pull.Peer.Frames.{Frame, IsFrameOf, stream_of, read_stream-frames}

abbrev raw : Bytes
raw = 1 ∷ 2 ∷ []

-- The version is sent, and a block is read, relayed and received.
abbrev relayed : Session
relayed = record start_session {
  hand = free;
  read = block_message raw ∷ [];
  handled = block_message raw ∷ [];
  written = version_message ∷ [];
  got_blocks = raw ∷ [];
}

relayed-Reach : Reach relayed
relayed-Reach =
    later
      (later
        (later
          (later
            (later
              (later
                (later start (task (relay_message version_message refl refl refl (omega arith))))
                (task (write_message version_message [] refl refl)))
              (read_message (block_message raw) refl refl))
            (task (deliver (block_message raw) refl refl refl (omega arith))))
          (task (take_message (block_message raw) [] refl refl refl)))
        (task (relay_block raw refl refl refl (omega arith))))
      (receive_block raw [] refl)

Reach-IsOrderly_example : IsOrderly relayed
Reach-IsOrderly_example = Reach-IsOrderly relayed-Reach

abbrev pinged : Session
pinged = record start_session {
  requests = get_blocks_request (replicate 32 5 ∷ []) ∷ [];
  reading = some (ping 7);
  read = ping 7 ∷ [];
}

session_drains_example : (t : Session) × TaskSteps pinged t × (ClientIsBehind t ⊎ IsQuiet t)
session_drains_example =
    session_drains pinged (record { works = refl; reads = refl; writes = refl; listens = refl })

abbrev decode_block : Bytes → Option Block
decode_block bytes = elim bytes [
  | [] ↦ none
  | b ∷ bs ↦ some (record { block_hash = replicate 32 b; txdata = [] })
]

abbrev first_block : Block
first_block = record { block_hash = replicate 32 1; txdata = [] }

get_blocks-requested_example :
    (get_blocks decode_block true (replicate 32 1 ∷ []) (raw ∷ (3 ∷ []) ∷ [])
      ≡ (some (get_blocks_request (replicate 32 1 ∷ [])), ok (first_block ∷ [], (3 ∷ []) ∷ [])))
    ↔ ((raws : List Bytes) × (raw ∷ (3 ∷ []) ∷ [] ≡ raws ++ ((3 ∷ []) ∷ []))
        × AreRequested decode_block (replicate 32 1 ∷ []) raws (first_block ∷ []))
get_blocks-requested_example =
    get_blocks-requested decode_block (replicate 32 1 ∷ []) (raw ∷ (3 ∷ []) ∷ []) ((3 ∷ []) ∷ [])
      (first_block ∷ [])

-- One byte tells each part.
abbrev first_byte : Bytes → ℕ
first_byte bytes = elim bytes [ [] ↦ 0 | b ∷ bs ↦ b ]

abbrev lib : WireLib
lib = record {
  u32_of = first_byte;
  command_of = λ bytes. if eqb (first_byte bytes) 112 then some "ping" else some "block";
  is_version = λ bytes. true;
  decode_nonce = λ bytes. some (first_byte bytes);
  decode_inventory = λ bytes. none;
  decode_varint = λ bytes. none;
  decode_header = λ bytes. none;
}

abbrev frame_with : ℕ → ℕ → Bytes → Frame
frame_with command len payload = record {
  magic = replicate 4 0;
  command = command ∷ replicate 11 0;
  len = len ∷ replicate 3 0;
  checksum = replicate 4 0;
  payload = payload;
}

ping_frame : IsFrameOf lib (frame_with 112 1 (9 ∷ [])) (ping 9)
unfolding decode_payload
ping_frame = record {
  magic_fits = refl;
  command_fits = refl;
  len_fits = refl;
  checksum_fits = refl;
  payload_fits = refl;
  name = "ping";
  names = refl;
  decodes = refl;
}

block_frame : IsFrameOf lib (frame_with 98 2 raw) (block_message raw)
unfolding decode_payload
block_frame = record {
  magic_fits = refl;
  command_fits = refl;
  len_fits = refl;
  checksum_fits = refl;
  payload_fits = refl;
  name = "block";
  names = refl;
  decodes = refl;
}

read_stream-frames_example :
    read_stream lib 3
      (stream_of lib (frame_with 112 1 (9 ∷ []) ∷ frame_with 98 2 raw ∷ []) ++ (0 ∷ []))
    ≡ some (ping 9 ∷ block_message raw ∷ [], ingress_io)
read_stream-frames_example =
    read_stream-frames lib (frame_with 112 1 (9 ∷ []) ∷ frame_with 98 2 raw ∷ [])
      (ping 9 ∷ block_message raw ∷ []) (0 ∷ []) 3 (ping_frame, (block_frame, tt)) (omega arith)
      (omega arith)

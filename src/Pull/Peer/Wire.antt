-- ===== src/Pull/Peer/Wire.antt =====
-- src/sync/stages/pull/peer.rs: the messages of the socket's stream of bytes. What the source decodes by
-- the `bitcoin` crate is a parameter.
use text.Mathlib.Text.{◌==◌}
use maestro_symphony.Prelude.{
  ℕ, zero, suc, List, [], ◌∷◌, ◌++◌, take, drop, Option, none, some, Bool, Bytes, String,
  if◌then◌else◌, Result, ok, err, ◌>>=◌,
}
use maestro_symphony.Codec.{ok_or}
use maestro_symphony.Encdec.VarUInt.{split_at_checked}
use maestro_symphony.Pull.Fetch.{Header}
use maestro_symphony.Pull.Peer.{
  Inventory, DecodedMessage, version, verack, unused, ping, inv, headers_message, block_message,
  P2pError, ingress_io, ingress_decoding,
}

-- `none` is an error. A version's content is only logged.
pub record WireLib : Type 0 where
  pub u32_of : Bytes → ℕ
  pub command_of : Bytes → Option String
  pub is_version : Bytes → Bool
  pub decode_nonce : Bytes → Option ℕ
  pub decode_inventory : Bytes → Option (List Inventory)
  pub decode_varint : Bytes → Option (ℕ × Bytes)
  pub decode_header : Bytes → Option (Header × Bytes)

-- `read_exact` and `read_slice`: the next bytes, or an error.
abbrev pub read_exact : P2pError → ℕ → Bytes → Result P2pError (Bytes × Bytes)
read_exact e n bytes = ok_or (split_at_checked n bytes) e

module _ (lib : WireLib) where
  -- Each header is followed by a count of transactions.
  unfoldable pub decode_headers : ℕ → Bytes → Result P2pError (List Header)
  decode_headers zero payload = ok []
  decode_headers (suc n) payload = do
    (header, rest) ← ok_or (lib.decode_header payload) ingress_decoding
    (_, rest') ← ok_or (lib.decode_varint rest) ingress_decoding
    headers ← decode_headers n rest'
    ok (header ∷ headers)

  abbrev pub decode_version : Bytes → Result P2pError DecodedMessage
  decode_version payload = if lib.is_version payload then ok version else err ingress_decoding

  abbrev pub decode_ping : Bytes → Result P2pError DecodedMessage
  decode_ping payload = do
    nonce ← ok_or (lib.decode_nonce payload) ingress_decoding
    ok (ping nonce)

  abbrev pub decode_inv : Bytes → Result P2pError DecodedMessage
  decode_inv payload = do
    inventory ← ok_or (lib.decode_inventory payload) ingress_decoding
    ok (inv inventory)

  abbrev pub decode_headers_message : Bytes → Result P2pError DecodedMessage
  decode_headers_message payload = do
    (len, rest) ← ok_or (lib.decode_varint payload) ingress_decoding
    headers ← decode_headers len rest
    ok (headers_message headers)

  -- The match on the command.
  unfoldable pub decode_payload : String → Bytes → Result P2pError DecodedMessage
  decode_payload command payload =
      if command == "version"
      then decode_version payload
      else if command == "verack"
      then ok verack
      else if command == "ping"
      then decode_ping payload
      else if command == "inv"
      then decode_inv payload
      else if command == "headers"
      then decode_headers_message payload
      else if command == "block"
      then ok (block_message payload)
      else ok unused

  -- `DecodedMessage::consensus_decode`, which ignores the magic and the checksum.
  unfoldable pub decode_message : Bytes → Result P2pError DecodedMessage
  decode_message bytes = do
    (_, after_magic) ← read_exact ingress_decoding 4 bytes
    (raw_command, after_command) ← read_exact ingress_decoding 12 after_magic
    command ← ok_or (lib.command_of raw_command) ingress_decoding
    (len, after_len) ← read_exact ingress_decoding 4 after_command
    (_, after_checksum) ← read_exact ingress_decoding 4 after_len
    (payload, _) ← read_exact ingress_decoding (lib.u32_of len) after_checksum
    decode_payload command payload

  -- `Ingress::read_message`, with what is left of the stream.
  unfoldable pub read_next : Bytes → Result P2pError (DecodedMessage × Bytes)
  read_next stream = do
    (header, after_header) ← read_exact ingress_io 24 stream
    (payload, rest) ← read_exact ingress_io (lib.u32_of (take 4 (drop 16 header))) after_header
    message ← decode_message (header ++ payload)
    ok (message, rest)

  abbrev pub received :
      DecodedMessage → List DecodedMessage × P2pError → List DecodedMessage × P2pError
  received message (messages, e) = (message ∷ messages, e)

  -- `Ingress::run`, its messages and its error, on fuel.
  unfoldable pub read_stream : ℕ → Bytes → Option (List DecodedMessage × P2pError)
  read_stream zero stream = none
  read_stream (suc fuel) stream = elim (read_next stream) [
    | err e ↦ some ([], e)
    | ok (message, rest) ↦ elim (read_stream fuel rest) [
      | none ↦ none
      | some r ↦ some (received message r)
    ]
  ]

-- ===== src/Pull/Peer/Frames.antt =====
-- src/sync/stages/pull/peer.rs: a stream of frames is read as its messages.
use maestro_symphony.Prelude.{
  ℕ, zero, suc, ◌≡◌, ◌<◌, refl, ap, subst, arith, List, [], ◌∷◌, ◌++◌, take, drop, length,
  length-append, append_assoc, append-nil, none, some, Bytes, String, ok, err,
}
use maestro_symphony.Encdec.VarUInt.{split_at_checked}
use maestro_symphony.Pull.Peer.{DecodedMessage, ingress_io}
use maestro_symphony.Pull.Peer.Wire.{
  WireLib, decode_payload, decode_message, read_next, read_stream,
}

-- A frame as the protocol lays it out.
pub record Frame : Type 0 where
  pub magic : Bytes
  pub command : Bytes
  pub len : Bytes
  pub checksum : Bytes
  pub payload : Bytes

abbrev pub header_bytes : Frame → Bytes
header_bytes f = f.magic ++ (f.command ++ (f.len ++ f.checksum))

abbrev pub frame_bytes : Frame → Bytes
frame_bytes f = header_bytes f ++ f.payload

split-append : (xs ys : Bytes) → split_at_checked (length xs) (xs ++ ys) ≡ some (xs, ys)
unfolding split_at_checked
split-append [] ys = refl
split-append (x ∷ xs) ys = rw (split-append xs ys) refl

split-append_of :
    (n : ℕ) (xs ys : Bytes) → length xs ≡ n → split_at_checked n (xs ++ ys) ≡ some (xs, ys)
split-append_of n xs ys l = rw (← l) (split-append xs ys)

split-all : (n : ℕ) (xs : Bytes) → length xs ≡ n → split_at_checked n xs ≡ some (xs, [])
split-all n xs l =
    subst (λ t. split_at_checked n t ≡ some (xs, [])) (append-nil xs) (split-append_of n xs [] l)

take-append_of : (n : ℕ) (xs ys : Bytes) → length xs ≡ n → take n (xs ++ ys) ≡ xs
take-append_of zero [] ys l = refl
take-append_of zero (x ∷ xs) ys l = absurd (omega arith)
take-append_of (suc n) [] ys l = absurd (omega arith)
take-append_of (suc n) (x ∷ xs) ys l = ap (λ t. x ∷ t) (take-append_of n xs ys (omega arith))

drop-append_of : (n : ℕ) (xs ys : Bytes) → length xs ≡ n → drop n (xs ++ ys) ≡ ys
drop-append_of zero [] ys l = refl
drop-append_of zero (x ∷ xs) ys l = absurd (omega arith)
drop-append_of (suc n) [] ys l = absurd (omega arith)
drop-append_of (suc n) (x ∷ xs) ys l = drop-append_of n xs ys (omega arith)

module _ (lib : WireLib) where
  -- The parts of a frame have their lengths, and the frame is the message's.
  pub record IsFrameOf (f : Frame) (m : DecodedMessage) : Type 0 where
    pub magic_fits : length f.magic ≡ 4
    pub command_fits : length f.command ≡ 12
    pub len_fits : length f.len ≡ 4
    pub checksum_fits : length f.checksum ≡ 4
    pub payload_fits : length f.payload ≡ lib.u32_of f.len
    pub name : String
    pub names : lib.command_of f.command ≡ some name
    pub decodes : decode_payload lib name f.payload ≡ ok m

  decode_message-frame :
      (f : Frame) (m : DecodedMessage) → IsFrameOf f m → decode_message lib (frame_bytes f) ≡ ok m
  unfolding decode_message
  decode_message-frame f m h =
      rw
        (
          append_assoc,
          append_assoc,
          append_assoc,
          split-append_of 4 f.magic (f.command ++ (f.len ++ (f.checksum ++ f.payload)))
              h.magic_fits,
          split-append_of 12 f.command (f.len ++ (f.checksum ++ f.payload)) h.command_fits,
          h.names,
          split-append_of 4 f.len (f.checksum ++ f.payload) h.len_fits,
          split-append_of 4 f.checksum f.payload h.checksum_fits,
          split-all (lib.u32_of f.len) f.payload h.payload_fits,
        )
        h.decodes

  len_of_header :
      (f : Frame) (m : DecodedMessage) → IsFrameOf f m → take 4 (drop 16 (header_bytes f)) ≡ f.len
  len_of_header f m h =
      rw
        (
          ← append_assoc f.magic f.command (f.len ++ f.checksum),
          drop-append_of 16 (f.magic ++ f.command) (f.len ++ f.checksum)
              (omega (arith, length-append f.magic f.command, h.magic_fits, h.command_fits)),
        )
        (take-append_of 4 f.len f.checksum h.len_fits)

  header-length : (f : Frame) (m : DecodedMessage) → IsFrameOf f m → length (header_bytes f) ≡ 24
  header-length f m h =
      omega (arith, length-append {0}, h.magic_fits, h.command_fits, h.len_fits, h.checksum_fits)

  read_next-frame :
      (f : Frame) (m : DecodedMessage) (rest : Bytes)
      → IsFrameOf f m
      → read_next lib (frame_bytes f ++ rest) ≡ ok (m, rest)
  unfolding read_next
  read_next-frame f m rest h =
      rw
        (
          append_assoc (header_bytes f) f.payload rest,
          split-append_of 24 (header_bytes f) (f.payload ++ rest) (header-length f m h),
          len_of_header f m h,
          split-append_of (lib.u32_of f.len) f.payload rest h.payload_fits,
          decode_message-frame f m h,
        )
        refl

  -- The frames are those of the messages.
  abbrev pub AreFramesOf : List Frame → List DecodedMessage → Type 0
  AreFramesOf [] [] = Unit
  AreFramesOf (f ∷ fs) (m ∷ ms) = IsFrameOf f m × AreFramesOf fs ms
  AreFramesOf fs ms = ⊥

  abbrev pub stream_of : List Frame → Bytes
  stream_of [] = []
  stream_of (f ∷ fs) = frame_bytes f ++ stream_of fs

  cut-short : (n : ℕ) (xs : Bytes) → length xs < n → split_at_checked n xs ≡ none
  unfolding split_at_checked
  cut-short zero xs l = absurd (omega arith)
  cut-short (suc n) [] l = refl
  cut-short (suc n) (x ∷ xs) l = rw (cut-short n xs (omega arith)) refl

  read_next-cut : (broken : Bytes) → length broken < 24 → read_next lib broken ≡ err ingress_io
  unfolding read_next
  read_next-cut broken b = rw (cut-short 24 broken b) refl

  -- A stream of frames is read as exactly their messages, in order, wherever the frames begin and
  -- end in the stream; where the stream ends, or breaks off inside the header of a frame, reading
  -- ends with an error of the socket.
  pub read_stream-frames :
      (fs : List Frame) (ms : List DecodedMessage) (broken : Bytes) (fuel : ℕ)
      → AreFramesOf fs ms
      → length broken < 24
      → length fs < fuel
      → read_stream lib fuel (stream_of fs ++ broken) ≡ some (ms, ingress_io)
  unfolding read_stream
  read_stream-frames [] [] broken zero h b l = absurd (omega arith)
  read_stream-frames [] (m ∷ ms) broken fuel h b l = absurd h
  read_stream-frames (f ∷ fs) [] broken fuel h b l = absurd h
  read_stream-frames (f ∷ fs) (m ∷ ms) broken zero h b l = absurd (omega arith)
  read_stream-frames [] [] broken (suc fuel) h b l = rw (read_next-cut broken b, read_stream) refl
  read_stream-frames (f ∷ fs) (m ∷ ms) broken (suc fuel) h b l =
      rw
        (
          append_assoc (frame_bytes f) (stream_of fs) broken,
          read_next-frame f m (stream_of fs ++ broken) h.0,
          read_stream-frames fs ms broken fuel h.1 b (omega (arith, l)),
          read_stream,
        )
        refl

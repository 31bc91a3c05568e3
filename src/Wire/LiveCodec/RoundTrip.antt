-- ===== src/Wire/LiveCodec/RoundTrip.antt =====
-- crates/ace-wire/src/live_codec.rs: live messages through the framing of message.rs and back.
use outpace.Prelude.{ℕ, ◌+◌, ◌≤◌, ◌≡◌, some, List, [], ◌∷◌, ◌++◌, length, length-append, arith}
use outpace.Prelude.Bytes.{IsU16, IsU32, u16_round_trip, u16_to_be_bytes}
use outpace.Wire.{ok}
use outpace.Wire.Message
use outpace.Wire.Message.RoundTrip.{decode-encode}
use outpace.Wire.LiveCodec
use outpace.Wire.LiveCodec.{LiveChunk}

from_message-build_piece_eight :
    (stream piece chunk : ℕ) (header bytes : List ℕ)
    → length header ≡ 8
    → IsU16 chunk
    → LiveCodec.from_message (LiveCodec.build_piece stream piece chunk header bytes)
      ≡ some (record { piece = piece; piece_header = header; chunk = chunk; bytes = bytes })
unfolding LiveCodec.from_message LiveCodec.build_piece
from_message-build_piece_eight s p c (a0 ∷ a1 ∷ a2 ∷ a3 ∷ a4 ∷ a5 ∷ a6 ∷ a7 ∷ []) bytes e h =
    ground (arith, u16_round_trip c)
from_message-build_piece_eight s p c header bytes e h = absurd (omega arith)

-- A live piece message with fields of their width that fits a frame is decoded to the chunk that it was
-- built from: piece, eight-byte header, chunk number and data, whatever bytes follow the frame.
pub from_message-decode-build_piece :
    (stream piece chunk : ℕ) (header bytes rest : List ℕ)
    → length header ≡ 8
    → IsU32 stream
    → IsU32 piece
    → IsU16 chunk
    → 19 + length bytes ≤ Message.max_frame_len
    → (m : Message.PeerMessage) × (n : ℕ) × (Message.decode
          (Message.encode (LiveCodec.build_piece stream piece chunk header bytes) ++ rest)
        ≡ ok (some (m, n)))
      × (LiveCodec.from_message m
          ≡ some (record { piece = piece; piece_header = header; chunk = chunk; bytes = bytes }))
unfolding LiveCodec.build_piece Message.body_len
from_message-decode-build_piece s p c header bytes rest e hs hp hc fits =
    let m = LiveCodec.build_piece s p c header bytes in
    let size : Message.body_len m ≤ Message.max_frame_len =
      omega (arith, length-append header (u16_to_be_bytes c ++ bytes)) in
    (
      m,
      _,
      decode-encode m rest (hs, hp) size,
      from_message-build_piece_eight s p c header bytes e hc,
    )

-- The live request and availability messages keep their ids and payloads through a frame: the
-- decoder takes neither for a standard request (id 6) nor for a standard have (id 4).
pub decode-encode-live_signals :
    (piece chunk : ℕ) (rest : List ℕ)
    → (Message.decode (Message.encode (LiveCodec.chunk_request piece chunk) ++ rest)
        ≡ ok (some (LiveCodec.chunk_request piece chunk, 15)))
      × (Message.decode (Message.encode (LiveCodec.live_have piece) ++ rest)
          ≡ ok (some (LiveCodec.live_have piece, 13)))
unfolding LiveCodec.chunk_request LiveCodec.live_have Message.encode
decode-encode-live_signals piece chunk rest = (
  decode-encode (LiveCodec.chunk_request piece chunk) rest (omega arith) (omega arith),
  decode-encode (LiveCodec.live_have piece) rest (omega arith) (omega arith),
)

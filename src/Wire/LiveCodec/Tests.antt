-- ===== src/Wire/LiveCodec/Tests.antt =====
-- Runs of crates/ace-wire/src/live_codec.rs, and its theorems at concrete messages.
use outpace.Prelude.{ℕ, ◌≡◌, refl, some, List, [], ◌∷◌, ◌++◌, arith}
use outpace.Wire.{ok}
use outpace.Wire.Message
use outpace.Wire.LiveCodec
use outpace.Wire.LiveCodec.{live_bitfield, chunk_request, build_piece, from_message}
use outpace.Wire.LiveCodec.RoundTrip.{from_message-decode-build_piece}

abbrev eight : List ℕ
eight = 1 ∷ 2 ∷ 3 ∷ 4 ∷ 5 ∷ 6 ∷ 7 ∷ 8 ∷ []

request_payload :
    chunk_request 0x5067f8 3
    ≡ Message.unknown 6 (0 ∷ 0 ∷ 0 ∷ 0 ∷ 0 ∷ 0x50 ∷ 0x67 ∷ 0xf8 ∷ 0 ∷ 3 ∷ [])
unfolding chunk_request
request_payload = refl

from_message-decode-build_piece_example :
    (m : Message.PeerMessage) × (n : ℕ) × (Message.decode
        (Message.encode (build_piece 0 77 3 eight (71 ∷ 72 ∷ [])) ++ 9 ∷ [])
      ≡ ok (some (m, n)))
    × (from_message m
        ≡ some (record { piece = 77; piece_header = eight; chunk = 3; bytes = 71 ∷ 72 ∷ [] }))
from_message-decode-build_piece_example =
    from_message-decode-build_piece 0 77 3 eight (71 ∷ 72 ∷ []) (9 ∷ []) refl (omega arith)
      (omega arith) (omega arith) (omega arith)

-- Ten pieces from piece 7 on: a full byte and two bits.
ten_bits :
    live_bitfield 7 10
    ≡ Message.bitfield (0 ∷ 0 ∷ 0 ∷ 0 ∷ 0 ∷ 0 ∷ 0 ∷ 7 ∷ 0 ∷ 0 ∷ 0 ∷ 10 ∷ 0xff ∷ 0xc0 ∷ [])
unfolding LiveCodec.or_at LiveCodec.set_bits live_bitfield
ten_bits = refl

-- ===== src/Wire/Message/Tests.antt =====
-- Runs of crates/ace-wire/src/message.rs, and its theorems at concrete messages.
use outpace.Prelude.{
  ℕ, ◌+◌, ◌≤◌, ◌<◌, ◌≡◌, refl, some, none, List, [], ◌∷◌, ◌++◌, length, take, ◌⊎◌, arith,
}
use outpace.Prelude.Bytes.{u32_from_be_bytes}
use outpace.Wire.{ok, err, invalid}
use outpace.Wire.Message
use outpace.Wire.Message.{PeerMessage, encode, decode, request, have, unknown, max_frame_len}
use outpace.Wire.Message.RoundTrip.{decode-encode}
use outpace.Wire.Message.Canonical.{encode-decode}
use outpace.Wire.Message.Framing.{decode_outcomes}

program : Unit {0}
unfolding encode decode Message.decode_typed Message.read_have Message.read_request
program = tt

abbrev first_request : PeerMessage
first_request = request 1 16384 16384

abbrev request_bytes : List ℕ
request_bytes = 0 ∷ 0 ∷ 0 ∷ 13 ∷ 6 ∷ 0 ∷ 0 ∷ 0 ∷ 1 ∷ 0 ∷ 0 ∷ 64 ∷ 0 ∷ 0 ∷ 0 ∷ 64 ∷ 0 ∷ []

request_written : encode first_request ≡ request_bytes
unfolding program
request_written = refl

request_read : decode request_bytes ≡ ok (some (first_request, 17))
unfolding program
request_read = refl

-- A have with a payload of eight bytes is Acestream's, and is kept as `unknown`.
live_have_read :
    decode (0 ∷ 0 ∷ 0 ∷ 9 ∷ 4 ∷ 0 ∷ 0 ∷ 0 ∷ 0 ∷ 0 ∷ 0 ∷ 0 ∷ 7 ∷ [])
    ≡ ok (some (unknown 4 (0 ∷ 0 ∷ 0 ∷ 0 ∷ 0 ∷ 0 ∷ 0 ∷ 7 ∷ []), 13))
unfolding program
live_have_read = refl

decode-encode_example :
    decode (encode first_request ++ 9 ∷ [])
    ≡ ok (some (first_request, length (encode first_request)))
unfolding Message.body_len
decode-encode_example = decode-encode first_request (9 ∷ []) (omega arith) (omega arith)

encode-decode_example :
    (encode first_request ≡ take 17 request_bytes)
    × (17 ≤ length request_bytes)
    × (17 ≤ 4 + max_frame_len)
encode-decode_example = encode-decode request_bytes (omega arith) request_read

decode_outcomes_example :
    let len = u32_from_be_bytes 0 0 0 5 in
    let r = decode (0 ∷ 0 ∷ 0 ∷ 5 ∷ 4 ∷ 0 ∷ []) in
    ((max_frame_len < len) × (r ≡ err (invalid "frame too large")))
    ⊎ ((len ≤ max_frame_len) × (length {A = ℕ} (4 ∷ 0 ∷ []) < len) × (r ≡ ok none))
    ⊎ ((len ≤ max_frame_len)
        × (len ≤ length {A = ℕ} (4 ∷ 0 ∷ []))
        × ((m : PeerMessage) × (r ≡ ok (some (m, 4 + len)))))
decode_outcomes_example = decode_outcomes 0 0 0 5 (4 ∷ 0 ∷ [])

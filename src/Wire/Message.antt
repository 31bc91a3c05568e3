-- ===== src/Wire/Message.antt =====
-- crates/ace-wire/src/message.rs: peer-message framing. A byte slice is a list of numbers.
pub mod Canonical
pub mod RoundTrip
pub mod Framing
mod Tests
use outpace.Prelude.{
  ℕ, ◌+◌, ◌*◌, ◌≤◌, ◌<◌, Bool, ◌&&◌, Option, none, some, get_or, List, [], ◌∷◌, ◌++◌, length,
  is_empty, take, drop, ltb, leb, ◌==◌, if◌then◌else◌,
}
use outpace.Prelude.Bytes.{u32_to_be_bytes, u32_from_be_bytes}
use outpace.Wire.{Result, ok, err, invalid, ◌>>=◌}

abbrev pub max_frame_len : ℕ
max_frame_len = 2 * 1024 * 1024

pub data PeerMessage : Type 0 where
  keep_alive choke unchoke interested not_interested : PeerMessage
  have : (piece : ℕ) → PeerMessage
  bitfield : (bytes : List ℕ) → PeerMessage
  request : (index begin length : ℕ) → PeerMessage
  piece : (index begin : ℕ) (block : List ℕ) → PeerMessage
  cancel : (index begin length : ℕ) → PeerMessage
  extended : (ext_id : ℕ) (payload : List ℕ) → PeerMessage
  unknown : (id : ℕ) (payload : List ℕ) → PeerMessage

-- The first `match` of `encode`.
unfoldable pub body_len : PeerMessage → ℕ
body_len keep_alive = 0
body_len choke = 1
body_len unchoke = 1
body_len interested = 1
body_len not_interested = 1
body_len (have i) = 5
body_len (bitfield bytes) = 1 + length bytes
body_len (request index begin len) = 13
body_len (cancel index begin len) = 13
body_len (piece index begin block) = 9 + length block
body_len (extended ext_id payload) = 2 + length payload
body_len (unknown id payload) = 1 + length payload

-- The second `match` of `encode`.
unfoldable pub encode_body : PeerMessage → List ℕ
encode_body keep_alive = []
encode_body choke = 0 ∷ []
encode_body unchoke = 1 ∷ []
encode_body interested = 2 ∷ []
encode_body not_interested = 3 ∷ []
encode_body (have i) = 4 ∷ u32_to_be_bytes i
encode_body (bitfield b) = 5 ∷ b
encode_body (request index begin len) =
    6 ∷ (u32_to_be_bytes index ++ (u32_to_be_bytes begin ++ u32_to_be_bytes len))
encode_body (piece index begin block) =
    7 ∷ (u32_to_be_bytes index ++ (u32_to_be_bytes begin ++ block))
encode_body (cancel index begin len) =
    8 ∷ (u32_to_be_bytes index ++ (u32_to_be_bytes begin ++ u32_to_be_bytes len))
encode_body (extended ext_id payload) = 20 ∷ ext_id ∷ payload
encode_body (unknown id payload) = id ∷ payload

-- `u32_to_be_bytes` keeps the low 32 bits of the length, as `body_len as u32` does.
unfoldable pub encode : PeerMessage → List ℕ
unfolding body_len encode_body
encode m = u32_to_be_bytes (body_len m) ++ encode_body m

abbrev be32_front : List ℕ → Result ℕ
be32_front (a ∷ b ∷ c ∷ d ∷ _) = ok (u32_from_be_bytes a b c d)
be32_front _ = err (invalid "short u32")

unfoldable pub be32 : List ℕ → ℕ → Result ℕ
be32 p off = be32_front (drop off p)

-- The arms of the typed `match id` of `decode` that read the payload.
unfoldable pub read_have : List ℕ → Result (Option PeerMessage)
unfolding be32
read_have p = do i ← be32 p 0; ok (some (have i))

unfoldable pub read_request : List ℕ → Result (Option PeerMessage)
unfolding be32
read_request p = do
  index ← be32 p 0
  begin ← be32 p 4
  len ← be32 p 8
  ok (some (request index begin len))

unfoldable pub read_piece : List ℕ → Result (Option PeerMessage)
unfolding be32
read_piece p = do index ← be32 p 0; begin ← be32 p 4; ok (some (piece index begin (drop 8 p)))

unfoldable pub read_cancel : List ℕ → Result (Option PeerMessage)
unfolding be32
read_cancel p = do
  index ← be32 p 0
  begin ← be32 p 4
  len ← be32 p 8
  ok (some (cancel index begin len))

unfoldable pub read_extended : List ℕ → Result (Option PeerMessage)
read_extended [] = ok none
read_extended (ext_id ∷ payload) = ok (some (extended ext_id payload))

-- The typed `match id`; `none` is its last arm.
unfoldable pub decode_typed : ℕ → List ℕ → Result (Option PeerMessage)
decode_typed id p =
    if id == 0 && is_empty p
    then ok (some choke)
    else if id == 1 && is_empty p
    then ok (some unchoke)
    else if id == 2 && is_empty p
    then ok (some interested)
    else if id == 3 && is_empty p
    then ok (some not_interested)
    else if id == 4 && length p == 4
    then read_have p
    else if id == 5
    then ok (some (bitfield p))
    else if id == 6 && length p == 12
    then read_request p
    else if id == 7 && leb 8 (length p)
    then read_piece p
    else if id == 8 && length p == 12
    then read_cancel p
    else if id == 20
    then read_extended p
    else ok none

-- The body of a frame whose whole length is `total`.
unfoldable pub decode_body : List ℕ → ℕ → Result (Option (PeerMessage × ℕ))
decode_body [] total = ok (some (keep_alive, total))
decode_body (id ∷ p) total = do
  typed ← decode_typed id p
  ok (some (get_or typed (unknown id p), total))

unfoldable pub decode_frame : ℕ → List ℕ → Result (Option (PeerMessage × ℕ))
unfolding decode_body
decode_frame len rest =
    if ltb max_frame_len len
    then err (invalid "frame too large")
    else if ltb (4 + length rest) (4 + len)
    then ok none
    else decode_body (take len rest) (4 + len)

-- The first clause is `buf.len() >= 4`.
unfoldable pub decode : List ℕ → Result (Option (PeerMessage × ℕ))
unfolding decode_frame
decode (a ∷ b ∷ c ∷ d ∷ rest) = decode_frame (u32_from_be_bytes a b c d) rest
decode _ = ok none

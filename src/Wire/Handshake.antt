-- ===== src/Wire/Handshake.antt =====
-- crates/ace-wire/src/handshake.rs: the peer handshake in its two protocols. The random peer id is
-- not modelled: a peer id is its twenty bytes.
pub mod RoundTrip
mod Tests
use outpace.Prelude.{
  ℕ, Bool, true, false, not, ◌||◌, get_or, List, [], ◌∷◌, ◌++◌, length, take, drop, get_elem?,
  replicate, ltb, ◌==◌, list_eq, if◌then◌else◌,
}
use outpace.Wire.{Result, ok, err, ◌>>=◌, truncated, invalid}

-- "AceStreamProtocol".
abbrev pub pstr : List ℕ
pstr =
    65 ∷ 99 ∷ 101 ∷ 83 ∷ 116 ∷ 114 ∷ 101 ∷ 97 ∷ 109 ∷ 80 ∷ 114 ∷ 111 ∷ 116 ∷ 111 ∷ 99 ∷ 111 ∷ 108
    ∷ []

-- "BitTorrent protocol".
abbrev pub bittorrent_pstr : List ℕ
bittorrent_pstr =
    66 ∷ 105 ∷ 116 ∷ 84 ∷ 111 ∷ 114 ∷ 114 ∷ 101 ∷ 110 ∷ 116 ∷ 32 ∷ 112 ∷ 114 ∷ 111 ∷ 116 ∷ 111 ∷ 99
    ∷ 111 ∷ 108 ∷ []

abbrev pub handshake_prefix_len : ℕ
handshake_prefix_len = 46

abbrev pub handshake_len : ℕ
handshake_len = 66

abbrev pub bittorrent_handshake_len : ℕ
bittorrent_handshake_len = 68

pub data HandshakeProtocol : Type 0 where
  ace_stream bit_torrent : HandshakeProtocol

pub record Handshake : Type 0 where
  pub reserved : List ℕ
  pub infohash : List ℕ
  pub peer_id : List ℕ

unfoldable pub new : (infohash peer_id : List ℕ) → Handshake
new infohash peer_id = record { reserved = replicate 8 0; infohash = infohash; peer_id = peer_id }

unfoldable pub encode : Handshake → List ℕ
encode h = length pstr ∷ (pstr ++ (h.reserved ++ (h.infohash ++ h.peer_id)))

unfoldable pub encode_with_protocol : Handshake → HandshakeProtocol → List ℕ
unfolding encode
encode_with_protocol h ace_stream = encode h
encode_with_protocol h bit_torrent =
    length bittorrent_pstr ∷ (bittorrent_pstr ++ (h.reserved ++ (h.infohash ++ h.peer_id)))

-- Whether the length byte or the name behind it is not that of the protocol.
unfoldable pub foreign : List ℕ → List ℕ → Bool
foreign name buf =
    not (get_or (get_elem? buf 0) 0 == length name)
    || not (list_eq (take (length name) (drop 1 buf)) name)

unfoldable pub decode_prefix : List ℕ → Result Handshake
unfolding foreign
decode_prefix buf =
    if ltb (length buf) handshake_prefix_len
    then err truncated
    else if foreign pstr buf
    then err (invalid "not an AceStreamProtocol handshake")
    else ok (record {
      reserved = take 8 (drop 18 buf);
      infohash = take 20 (drop 26 buf);
      peer_id = replicate 20 0;
    })

unfoldable pub decode : List ℕ → Result Handshake
unfolding decode_prefix
decode buf = if ltb (length buf) handshake_len then err truncated else (do
  hs ← decode_prefix (take handshake_prefix_len buf)
  ok (record hs { peer_id = take 20 (drop 46 buf) }))

unfoldable pub decode_with_protocol : List ℕ → HandshakeProtocol → Result Handshake
unfolding decode foreign
decode_with_protocol buf ace_stream = decode buf
decode_with_protocol buf bit_torrent =
    if ltb (length buf) bittorrent_handshake_len
    then err truncated
    else if foreign bittorrent_pstr buf
    then err (invalid "not a BitTorrent protocol handshake")
    else ok (record {
      reserved = take 8 (drop 20 buf);
      infohash = take 20 (drop 28 buf);
      peer_id = take 20 (drop 48 buf);
    })

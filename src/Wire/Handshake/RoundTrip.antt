-- ===== src/Wire/Handshake/RoundTrip.antt =====
-- crates/ace-wire/src/handshake.rs: what is sent is read, in its own protocol only.
use outpace.Prelude.{
  ℕ, ◌+◌, ◌≡◌, refl, sym, ap, ◌∙◌, List, [], ◌∷◌, ◌++◌, length, length-append, length-take, take,
  drop, replicate, suc, zero, ltb, append_assoc, arith, Bool-cases, inl, inr,
}
use outpace.Wire.{WireError, ok, err, invalid, truncated}
use outpace.Wire.Handshake
use outpace.Wire.Handshake.{Handshake, HandshakeProtocol}

-- The fields have the lengths of the source's arrays.
pub record IsSized (h : Handshake) : Type 0 where
  pub reserved : length h.reserved ≡ 8
  pub infohash : length h.infohash ≡ 20
  pub peer_id : length h.peer_id ≡ 20

take-append_exact : (n : ℕ) (xs ys : List ℕ) → length xs ≡ n → take n (xs ++ ys) ≡ xs
take-append_exact zero [] ys e = refl
take-append_exact zero (x ∷ xs) ys e = absurd (omega arith)
take-append_exact (suc n) [] ys e = absurd (omega arith)
take-append_exact (suc n) (x ∷ xs) ys e = ap (◌∷◌ x) (take-append_exact n xs ys (omega arith))

drop-append_exact : (n m : ℕ) (xs ys : List ℕ) → length xs ≡ n → drop (n + m) (xs ++ ys) ≡ drop m ys
drop-append_exact zero m [] ys e = let front : 0 + m ≡ m = omega arith in ap (λ k. drop k ys) front
drop-append_exact zero m (x ∷ xs) ys e = absurd (omega arith)
drop-append_exact (suc n) m [] ys e = absurd (omega arith)
drop-append_exact (suc n) m (x ∷ xs) ys e =
    let one_more : suc n + m ≡ suc (n + m) = omega arith in
    ap (λ k. drop k (x ∷ (xs ++ ys))) one_more ∙ drop-append_exact n m xs ys (omega arith)

-- The three fields, read from a body of the fields and what follows them.
body_reserved :
    (h : Handshake) (rest : List ℕ)
    → IsSized h
    → take 8 (h.reserved ++ (h.infohash ++ (h.peer_id ++ rest))) ≡ h.reserved
body_reserved h rest s = take-append_exact 8 h.reserved _ s.reserved

body_infohash :
    (h : Handshake) (rest : List ℕ)
    → IsSized h
    → take 20 (drop 8 (h.reserved ++ (h.infohash ++ (h.peer_id ++ rest)))) ≡ h.infohash
body_infohash h rest s =
    ap (take 20) (drop-append_exact 8 0 h.reserved (h.infohash ++ (h.peer_id ++ rest)) s.reserved)
    ∙ take-append_exact 20 h.infohash _ s.infohash

body_peer_id :
    (h : Handshake) (rest : List ℕ)
    → IsSized h
    → take 20 (drop 28 (h.reserved ++ (h.infohash ++ (h.peer_id ++ rest)))) ≡ h.peer_id
body_peer_id h rest s =
    ap (take 20) (
      drop-append_exact 8 20 h.reserved (h.infohash ++ (h.peer_id ++ rest)) s.reserved
      ∙ drop-append_exact 20 0 h.infohash (h.peer_id ++ rest) s.infohash)
    ∙ take-append_exact 20 h.peer_id rest s.peer_id

-- The two protocols, each with the other one.
abbrev pub other : HandshakeProtocol → HandshakeProtocol
other Handshake.ace_stream = Handshake.bit_torrent
other Handshake.bit_torrent = Handshake.ace_stream

abbrev fields : Handshake → List ℕ → List ℕ
fields h rest = h.reserved ++ (h.infohash ++ (h.peer_id ++ rest))

fields-append :
    (h : Handshake) (rest : List ℕ)
    → (h.reserved ++ (h.infohash ++ h.peer_id)) ++ rest ≡ fields h rest
fields-append h rest =
    append_assoc h.reserved (h.infohash ++ h.peer_id) rest
    ∙ ap (λ t. h.reserved ++ t) (append_assoc h.infohash h.peer_id rest)

length-fields :
    (h : Handshake) (rest : List ℕ) → IsSized h → length (fields h rest) ≡ 48 + length rest
length-fields h rest s = omega (
  arith,
  length-append h.reserved (h.infohash ++ (h.peer_id ++ rest)),
  length-append h.infohash (h.peer_id ++ rest),
  length-append h.peer_id rest,
  s.reserved,
  s.infohash,
  s.peer_id,
)

ace_stream_reads :
    (h : Handshake) (rest : List ℕ)
    → IsSized h
    → Handshake.decode (length Handshake.pstr ∷ (Handshake.pstr ++ fields h rest)) ≡ ok h
unfolding Handshake.decode Handshake.decode_prefix Handshake.foreign
ace_stream_reads h rest s = ground (
  arith,
  length-fields h rest s,
  body_reserved h rest s,
  body_infohash h rest s,
  body_peer_id h rest s,
)

bit_torrent_reads :
    (h : Handshake) (rest : List ℕ)
    → IsSized h
    → Handshake.decode_with_protocol
        (length Handshake.bittorrent_pstr ∷ (Handshake.bittorrent_pstr ++ fields h rest))
        Handshake.bit_torrent
      ≡ ok h
unfolding Handshake.decode_with_protocol Handshake.foreign
bit_torrent_reads h rest s = ground (
  arith,
  length-fields h rest s,
  body_reserved h rest s,
  body_infohash h rest s,
  body_peer_id h rest s,
)

-- A handshake of sized fields is read back whole by a decoder of its own protocol, whatever bytes
-- follow it.
pub decode-encode_with_protocol :
    (h : Handshake) (p : HandshakeProtocol) (rest : List ℕ)
    → IsSized h
    → Handshake.decode_with_protocol (Handshake.encode_with_protocol h p ++ rest) p ≡ ok h
unfolding Handshake.decode_with_protocol Handshake.encode_with_protocol Handshake.encode
decode-encode_with_protocol h Handshake.ace_stream rest s =
    rw (fields-append h rest) (ace_stream_reads h rest s)
decode-encode_with_protocol h Handshake.bit_torrent rest s =
    rw (fields-append h rest) (bit_torrent_reads h rest s)

-- The first byte is the length of the protocol's name, and tells the protocols apart.
ace_stream_refuses : (xs : List ℕ) → (e : WireError) × (Handshake.decode (19 ∷ xs) ≡ err e)
unfolding Handshake.decode Handshake.decode_prefix Handshake.foreign
ace_stream_refuses xs = elim (Bool-cases (ltb (length (19 ∷ xs)) 66)) [
  | inl short ↦ (truncated, ground arith)
  | inr long ↦
      (invalid "not an AceStreamProtocol handshake", ground (arith, length-take 46 (19 ∷ xs)))
]

bit_torrent_refuses :
    (xs : List ℕ)
    → (e : WireError) × (Handshake.decode_with_protocol (17 ∷ xs) Handshake.bit_torrent ≡ err e)
unfolding Handshake.decode_with_protocol Handshake.foreign
bit_torrent_refuses xs = elim (Bool-cases (ltb (length (17 ∷ xs)) 68)) [
  | inl short ↦ (truncated, ground arith)
  | inr long ↦ (invalid "not a BitTorrent protocol handshake", ground arith)
]

-- No handshake is taken for one of the other protocol, whatever its fields and the bytes behind it:
-- the decoder of the other protocol gives an error.
pub decode-encode-other :
    (h : Handshake) (p : HandshakeProtocol) (rest : List ℕ)
    → (e : WireError) × (Handshake.decode_with_protocol
          (Handshake.encode_with_protocol h p ++ rest)
          (other p)
        ≡ err e)
unfolding Handshake.decode_with_protocol Handshake.encode_with_protocol Handshake.encode
decode-encode-other h Handshake.ace_stream rest =
    bit_torrent_refuses (Handshake.pstr ++ (h.reserved ++ (h.infohash ++ h.peer_id)) ++ rest)
decode-encode-other h Handshake.bit_torrent rest =
    ace_stream_refuses
      (Handshake.bittorrent_pstr ++ (h.reserved ++ (h.infohash ++ h.peer_id)) ++ rest)

prefix_cut :
    (h : Handshake)
    → IsSized h
    → take 28 (h.reserved ++ (h.infohash ++ h.peer_id)) ≡ h.reserved ++ h.infohash
prefix_cut h s =
    ap (take 28) (sym (append_assoc h.reserved h.infohash h.peer_id))
    ∙ take-append_exact 28 (h.reserved ++ h.infohash) h.peer_id
        (omega (arith, length-append h.reserved h.infohash, s.reserved, s.infohash))

-- The 46 bytes through the infohash of an encoded handshake of sized fields are read as that
-- handshake with a zero peer id, whatever bytes follow them.
pub decode_prefix-take-encode :
    (h : Handshake) (rest : List ℕ)
    → IsSized h
    → Handshake.decode_prefix (take Handshake.handshake_prefix_len (Handshake.encode h) ++ rest)
      ≡ ok (record h { peer_id = replicate 20 0 })
unfolding Handshake.encode Handshake.decode_prefix Handshake.foreign
decode_prefix-take-encode h rest s = ground (
  arith,
  prefix_cut h s,
  append_assoc h.reserved h.infohash rest,
  length-append h.reserved (h.infohash ++ rest),
  length-append h.infohash rest,
  s.reserved,
  s.infohash,
  take-append_exact 8 h.reserved (h.infohash ++ rest),
  drop-append_exact 8 0 h.reserved (h.infohash ++ rest),
  take-append_exact 20 h.infohash rest,
)

-- ===== src/Wire/Handshake/Tests.antt =====
-- Runs of crates/ace-wire/src/handshake.rs, and its theorems at one handshake.
use outpace.Prelude.{◌≡◌, refl, [], ◌∷◌, ◌++◌, replicate}
use outpace.Wire.{WireError, ok, err, truncated}
use outpace.Wire.Handshake
use outpace.Wire.Handshake.{Handshake}
use outpace.Wire.Handshake.RoundTrip.{
  IsSized, other, decode-encode_with_protocol, decode-encode-other,
}

abbrev hello : Handshake
hello = Handshake.new (replicate 20 7) (replicate 20 82)

hello-IsSized : IsSized hello
unfolding Handshake.new
hello-IsSized = record { reserved = refl; infohash = refl; peer_id = refl }

short : Handshake.decode (replicate 65 17) ≡ err truncated
unfolding Handshake.decode
short = refl

decode-encode_with_protocol_example :
    Handshake.decode_with_protocol
      (Handshake.encode_with_protocol hello Handshake.bit_torrent ++ 0 ∷ 0 ∷ [])
      Handshake.bit_torrent
    ≡ ok hello
decode-encode_with_protocol_example =
    decode-encode_with_protocol hello Handshake.bit_torrent (0 ∷ 0 ∷ []) hello-IsSized

decode-encode-other_example :
    (e : WireError) × (Handshake.decode_with_protocol
        (Handshake.encode_with_protocol hello Handshake.ace_stream ++ 0 ∷ [])
        (other Handshake.ace_stream)
      ≡ err e)
decode-encode-other_example = decode-encode-other hello Handshake.ace_stream (0 ∷ [])

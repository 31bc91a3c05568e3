-- ===== src/Wire/UtMetadata/RoundTrip.antt =====
-- crates/ace-wire/src/ut_metadata.rs: messages that are built are parsed back.
use outpace.Prelude.{
  ℕ, ◌<◌, ◌≡◌, refl, ap, ◌∙◌, Option, none, some, List, ◌++◌, length, drop, drop-length-append,
  u64_mod, arith,
}
use outpace.Prelude.Ints.{ℤ, pos}
use outpace.Wire.{ok}
use outpace.Wire.Bencode
use outpace.Wire.Bencode.{Bencode, Fields, int, dict, end, field}
use outpace.Wire.Bencode.Decimal.Digits.{IsI64}
use outpace.Wire.Bencode.Values.{IsValue}
use outpace.Wire.Bencode.RoundTrip.{parse_prefix-encode}
use outpace.Wire.Live
use outpace.Wire.UtMetadata
use outpace.Wire.UtMetadata.{MetadataMessage, request, metadata, reject}

abbrev AreI64 : ℤ → ℤ → Option ℤ → Type 0
AreI64 t piece none = IsI64 t × IsI64 piece
AreI64 t piece (some total) = IsI64 t × IsI64 piece × IsI64 total

control-IsValue :
    (t piece : ℤ) (total : Option ℤ)
    → AreI64 t piece total
    → IsValue 32 (dict (UtMetadata.control_fields t piece total))
unfolding UtMetadata.control_fields UtMetadata.two_fields IsValue Bencode.insert_field
    Bencode.bytes_lt
control-IsValue t piece none h = (tt, h.0, (refl, h.1, tt))
control-IsValue t piece (some total) h = (tt, h.0, (refl, h.1, (refl, h.2, tt)))

message_of-control :
    (t piece : ℤ) (total : Option ℤ) (raw : List ℕ)
    → UtMetadata.message_of (dict (UtMetadata.control_fields t piece total)) raw
      ≡ UtMetadata.message_of_type t piece total raw
unfolding UtMetadata.control_fields UtMetadata.two_fields UtMetadata.message_of Live.get_int
    Bencode.get Bencode.as_int Bencode.insert_field Bencode.bytes_lt
message_of-control t piece none raw = refl
message_of-control t piece (some total) raw = refl

parse-prefix :
    (payload : List ℕ) (d : Bencode) (n : ℕ)
    → Bencode.parse_prefix payload ≡ ok (d, n)
    → UtMetadata.parse payload ≡ UtMetadata.message_of d (drop n payload)
unfolding UtMetadata.parse
parse-prefix payload d n e = rw (e, UtMetadata.parse) refl

-- A control dictionary with bytes behind it is read by its type.
parse-control_dict :
    (t piece : ℤ) (total : Option ℤ) (raw : List ℕ)
    → AreI64 t piece total
    → length (UtMetadata.control_dict t piece total ++ raw) < u64_mod
    → UtMetadata.parse (UtMetadata.control_dict t piece total ++ raw)
      ≡ UtMetadata.message_of_type t piece total raw
unfolding UtMetadata.control_dict
parse-control_dict t piece total raw h small =
    let d : Bencode = dict (UtMetadata.control_fields t piece total) in
    parse-prefix (Bencode.encode d ++ raw) d (length (Bencode.encode d))
      (parse_prefix-encode d raw (control-IsValue t piece total h) small)
    ∙ (ap (UtMetadata.message_of d) (drop-length-append (Bencode.encode d) raw)
        ∙ message_of-control t piece total raw)

-- For 64-bit numbers and a message below 2^64 bytes: a request is read as that request, whatever bytes
-- follow it, and a data message as its piece, its total size and exactly its raw bytes.
pub parse-data_piece :
    (piece total : ℤ) (raw : List ℕ)
    → IsI64 piece
    → IsI64 total
    → length (UtMetadata.request_piece piece ++ raw) < u64_mod
    → length (UtMetadata.data_piece piece total raw) < u64_mod
    → (UtMetadata.parse (UtMetadata.request_piece piece ++ raw) ≡ some (request piece))
      × (UtMetadata.parse (UtMetadata.data_piece piece total raw)
          ≡ some (metadata piece (some total) raw))
unfolding UtMetadata.request_piece UtMetadata.data_piece UtMetadata.message_of_type
parse-data_piece piece total raw hp ht small small' = (
  parse-control_dict (pos 0) piece none raw (omega arith, hp) small,
  parse-control_dict (pos 1) piece (some total) raw (omega arith, hp, ht) small',
)

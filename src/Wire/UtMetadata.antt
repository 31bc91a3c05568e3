-- ===== src/Wire/UtMetadata.antt =====
-- crates/ace-wire/src/ut_metadata.rs: the messages that carry a stream's descriptor in pieces, which are
-- a bencoded dictionary with raw bytes behind it.
pub mod RoundTrip
mod Tests
use outpace.Prelude.{
  ℕ, ◌+◌, ◌/◌, ◌==◌, Option, none, some, List, [], ◌∷◌, ◌++◌, drop, if◌then◌else◌,
}
use outpace.Prelude.Ints.{ℤ, pos, negsuc}
use outpace.Wire.{Result, ok, err}
use outpace.Wire.Bencode
use outpace.Wire.Bencode.{Bencode, Fields, int, dict, end}
use outpace.Wire.Live

abbrev pub metadata_block_len : ℕ
metadata_block_len = 16384

-- "msg_type", "piece" and "total_size".
abbrev pub msg_type_key : List ℕ
msg_type_key = 0x6d ∷ 0x73 ∷ 0x67 ∷ 0x5f ∷ 0x74 ∷ 0x79 ∷ 0x70 ∷ 0x65 ∷ []

abbrev pub piece_key : List ℕ
piece_key = 0x70 ∷ 0x69 ∷ 0x65 ∷ 0x63 ∷ 0x65 ∷ []

abbrev pub total_size_key : List ℕ
total_size_key = 0x74 ∷ 0x6f ∷ 0x74 ∷ 0x61 ∷ 0x6c ∷ 0x5f ∷ 0x73 ∷ 0x69 ∷ 0x7a ∷ 0x65 ∷ []

pub data MetadataMessage : Type 0 where
  request : (piece : ℤ) → MetadataMessage
  metadata : (piece : ℤ) (total_size : Option ℤ) (raw : List ℕ) → MetadataMessage
  reject : (piece : ℤ) → MetadataMessage

-- The dictionary's entries, inserted one after another.
unfoldable pub two_fields : (msg_type piece : ℤ) → Fields
two_fields msg_type piece =
    Bencode.insert_field piece_key (int piece)
      (Bencode.insert_field msg_type_key (int msg_type) end)

unfoldable pub control_fields : (msg_type piece : ℤ) → (total_size : Option ℤ) → Fields
control_fields msg_type piece none = two_fields msg_type piece
control_fields msg_type piece (some total_size) =
    Bencode.insert_field total_size_key (int total_size) (two_fields msg_type piece)

unfoldable pub control_dict : (msg_type piece : ℤ) → (total_size : Option ℤ) → List ℕ
control_dict msg_type piece total_size =
    Bencode.encode (dict (control_fields msg_type piece total_size))

unfoldable pub request_piece : (piece : ℤ) → List ℕ
request_piece piece = control_dict (pos 0) piece none

unfoldable pub data_piece : (piece total_size : ℤ) → List ℕ → List ℕ
data_piece piece total_size raw = control_dict (pos 1) piece (some total_size) ++ raw

-- The match on the message's type.
unfoldable pub message_of_type :
    ℤ → (piece : ℤ) (total_size : Option ℤ) (raw : List ℕ) → Option MetadataMessage
message_of_type (pos t) piece total_size raw =
    if t == 0
    then some (request piece)
    else if t == 2
    then some (reject piece)
    else if t == 1
    then some (metadata piece total_size raw)
    else none
message_of_type (negsuc t) piece total_size raw = none

-- The dictionary's reading, with the bytes behind it.
unfoldable pub message_of : Bencode → (raw : List ℕ) → Option MetadataMessage
message_of d raw = elim (Live.get_int d msg_type_key) [
  | none ↦ none
  | some msg_type ↦ elim (Live.get_int d piece_key) [
    | none ↦ none
    | some piece ↦ message_of_type msg_type piece (Live.get_int d total_size_key) raw
  ]
]

unfoldable pub parse : List ℕ → Option MetadataMessage
parse payload = elim (Bencode.parse_prefix payload) [
  | err e ↦ none
  | ok (d, consumed) ↦ message_of d (drop consumed payload)
]

-- `usize::div_ceil`.
unfoldable pub piece_count : (total_size : ℕ) → ℕ
piece_count total_size = (total_size + 16383) / metadata_block_len

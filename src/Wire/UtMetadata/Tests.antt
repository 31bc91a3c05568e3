-- ===== src/Wire/UtMetadata/Tests.antt =====
-- Runs of crates/ace-wire/src/ut_metadata.rs.
use outpace.Prelude.{◌≡◌, refl, some, [], ◌∷◌, ◌++◌, arith}
use outpace.Prelude.Ints.{pos}
use outpace.Wire.Bencode
use outpace.Wire.Bencode.Decimal
use outpace.Wire.UtMetadata
use outpace.Wire.UtMetadata.{request, metadata}
use outpace.Wire.UtMetadata.RoundTrip.{parse-data_piece}

three_blocks : UtMetadata.piece_count 32769 ≡ 3
unfolding UtMetadata.piece_count
three_blocks = refl

parse-data_piece_example :
    (UtMetadata.parse (UtMetadata.request_piece (pos 7) ++ 1 ∷ []) ≡ some (request (pos 7)))
    × (UtMetadata.parse (UtMetadata.data_piece (pos 7) (pos 9) (1 ∷ []))
        ≡ some (metadata (pos 7) (some (pos 9)) (1 ∷ [])))
unfolding UtMetadata.request_piece UtMetadata.data_piece UtMetadata.control_dict
    UtMetadata.control_fields UtMetadata.two_fields Bencode.insert_field Bencode.bytes_lt
    Bencode.encode Decimal.print_digits Decimal.print_i64
parse-data_piece_example =
    parse-data_piece (pos 7) (pos 9) (1 ∷ []) (omega arith) (omega arith) (omega arith)
      (omega arith)

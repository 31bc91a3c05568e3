-- ===== src/Wire/LiveCodec.antt =====
-- crates/ace-wire/src/live_codec.rs: Acestream's live messages over the peer-message framing.
-- The f64 of `piece_header_from_unix_seconds` is not modelled: a header is its eight bytes.
pub mod RoundTrip
mod Tests
use Prim.Native.Nat.{bit_or}
use outpace.Prelude.{
  ℕ, zero, suc, ◌+◌, ◌/◌, ◌%◌, ◌^◌, ◌<◌, replicate, Option, none, some, List, [], ◌∷◌, ◌++◌, length,
  take, drop, get_elem?, get_or, ltb, if◌then◌else◌,
}
use outpace.Prelude.Bytes.{u32_to_be_bytes, u16_to_be_bytes, u16_from_be_bytes}
use outpace.Wire.Message
use outpace.Wire.Message.{PeerMessage}

unfoldable pub chunk_request : (piece chunk : ℕ) → PeerMessage
chunk_request piece chunk =
    Message.unknown 6 (0 ∷ 0 ∷ 0 ∷ 0 ∷ (u32_to_be_bytes piece ++ u16_to_be_bytes chunk))

unfoldable pub live_have : (piece : ℕ) → PeerMessage
live_have piece = Message.unknown 4 (0 ∷ 0 ∷ 0 ∷ 0 ∷ u32_to_be_bytes piece)

-- `bits[i] |= mask`.
unfoldable pub or_at : (i mask : ℕ) → List ℕ → List ℕ
or_at i mask [] = []
or_at zero mask (b ∷ bs) = bit_or b mask ∷ bs
or_at (suc i) mask (b ∷ bs) = b ∷ or_at i mask bs

-- The loop over the bits from `bit` on, with `turns` to go.
unfoldable pub set_bits : (turns bit : ℕ) → List ℕ → List ℕ
set_bits zero bit bits = bits
set_bits (suc turns) bit bits =
    set_bits turns (suc bit) (or_at (bit / 8) (0x80 / 2 ^ (bit % 8)) bits)

unfoldable pub live_bitfield : (first_piece bit_count : ℕ) → PeerMessage
live_bitfield first_piece bit_count = Message.bitfield (
    0
    ∷ 0
    ∷ 0
    ∷ 0
    ∷ (u32_to_be_bytes first_piece
        ++ (u32_to_be_bytes bit_count ++ set_bits bit_count 0 (replicate ((bit_count + 7) / 8) 0))))

unfoldable pub build_piece :
    (stream piece chunk : ℕ) (piece_header data_bytes : List ℕ) → PeerMessage
build_piece stream piece chunk piece_header data_bytes =
    Message.piece stream piece (piece_header ++ (u16_to_be_bytes chunk ++ data_bytes))

pub record LiveChunk : Type 0 where
  pub piece : ℕ
  pub piece_header : List ℕ
  pub chunk : ℕ
  pub bytes : List ℕ

-- `block[i]`, behind the length test.
abbrev byte_at : List ℕ → ℕ → ℕ
byte_at block i = get_or (get_elem? block i) 0

unfoldable pub borrow_from_message : PeerMessage → Option LiveChunk
borrow_from_message (Message.piece index begin block) =
    if ltb (length block) 10
    then none
    else some (record {
      piece = begin;
      piece_header = take 8 block;
      chunk = u16_from_be_bytes (byte_at block 8) (byte_at block 9);
      bytes = drop 10 block;
    })
borrow_from_message _ = none

-- The owned form copies the view field by field.
unfoldable pub from_message : PeerMessage → Option LiveChunk
unfolding borrow_from_message
from_message msg = elim (borrow_from_message msg) [
  | none ↦ none
  | some view ↦ some (record {
    piece = view.piece;
    piece_header = view.piece_header;
    chunk = view.chunk;
    bytes = view.bytes;
  })
]

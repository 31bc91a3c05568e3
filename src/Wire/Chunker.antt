-- ===== src/Wire/Chunker.antt =====
-- crates/ace-wire/src/chunker.rs: cutting a byte stream into addressed chunks. A method on
-- `&mut self` returns the new state beside its result.
pub mod Stream
pub mod Pieces
mod Tests
use outpace.Prelude.{
  ℕ, zero, suc, ◌+◌, ◌/◌, ◌%◌, ◌^◌, Bool, true, false, Option, none, some, List, [], ◌∷◌, ◌++◌,
  length, is_empty, take, drop, leb, if◌then◌else◌, u64_mod,
}

pub record OutChunk : Type 0 where
  pub piece : ℕ
  pub chunk : ℕ
  pub begin : ℕ
  pub bytes : List ℕ

pub record TsChunker : Type 0 where
  pub piece_length : ℕ
  pub chunk_length : ℕ
  pub start_piece : ℕ
  pub buf : List ℕ
  pub offset : ℕ

unfoldable pub new : (piece_length chunk_length start_piece : ℕ) → TsChunker
new piece_length chunk_length start_piece = record {
  piece_length = piece_length;
  chunk_length = chunk_length;
  start_piece = start_piece;
  buf = [];
  offset = 0;
}

-- The chunk of the next bytes; `offset` is the field `abs`, and `chunk` keeps its low 16 bits.
unfoldable pub make_chunk : TsChunker → List ℕ → TsChunker × OutChunk
make_chunk c bytes = (
  record c { offset = (c.offset + length bytes) % u64_mod },
  record {
    piece = (c.start_piece + c.offset / c.piece_length) % u64_mod;
    chunk = ((c.offset % c.piece_length) / c.chunk_length) % 2 ^ 16;
    begin = c.offset % c.piece_length;
    bytes = bytes;
  },
)

-- `while self.buf.len() >= self.chunk_length`. A turn takes at least one byte where the chunk length
-- is positive, as `new` asks for, so as many turns as there are bytes are enough.
unfoldable pub push_loop : ℕ → TsChunker → TsChunker × List OutChunk
push_loop zero c = (c, [])
push_loop (suc fuel) c = elim (leb c.chunk_length (length c.buf)) [
  | false ↦ (c, [])
  | true ↦
      let (c', o) =
        make_chunk (record c { buf = drop c.chunk_length c.buf }) (take c.chunk_length c.buf) in
      let (c'', os) = push_loop fuel c' in (c'', o ∷ os)
]

unfoldable pub push : TsChunker → List ℕ → TsChunker × List OutChunk
push c bytes = push_loop (length (c.buf ++ bytes)) (record c { buf = c.buf ++ bytes })

unfoldable pub flush : TsChunker → TsChunker × Option OutChunk
flush c =
    if is_empty c.buf
    then (c, none)
    else (let (c', o) = make_chunk (record c { buf = [] }) c.buf in (c', some o))

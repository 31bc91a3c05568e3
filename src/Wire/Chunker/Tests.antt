-- ===== src/Wire/Chunker/Tests.antt =====
-- Runs of crates/ace-wire/src/chunker.rs, and its theorem on a stream that starts inside a piece.
use outpace.Prelude.{◌≡◌, refl, [], ◌∷◌, ◌++◌, some, arith}
use outpace.Wire.Chunker
use outpace.Wire.Chunker.{TsChunker}
use outpace.Wire.Chunker.Stream.{IsAt, Cuts, push-Cuts}

program : Unit {0}
unfolding Chunker.new Chunker.make_chunk Chunker.push_loop Chunker.push Chunker.flush
program = tt

-- Pieces of four bytes in two chunks; one chunk is out, and one byte is buffered.
abbrev midway : TsChunker
midway = record { piece_length = 4; chunk_length = 2; start_piece = 9; buf = 3 ∷ []; offset = 2 }

started : (Chunker.push (Chunker.new 4 2 9) (1 ∷ 2 ∷ 3 ∷ [])).0 ≡ midway
unfolding program
started = refl

two_chunks :
    (Chunker.push midway (4 ∷ 5 ∷ 6 ∷ [])).1
    ≡ record { piece = 9; chunk = 1; begin = 2; bytes = 3 ∷ 4 ∷ [] }
      ∷ record { piece = 10; chunk = 0; begin = 0; bytes = 5 ∷ 6 ∷ [] }
      ∷ []
unfolding program
two_chunks = refl

last_byte :
    (Chunker.flush midway).1 ≡ some (record { piece = 9; chunk = 1; begin = 2; bytes = 3 ∷ [] })
unfolding program
last_byte = refl

midway-IsAt : IsAt 2 2 1 (record midway { buf = midway.buf ++ 4 ∷ 5 ∷ 6 ∷ [] })
midway-IsAt = record {
  positive = omega arith;
  some_chunks = omega arith;
  few_chunks = omega arith;
  piece_length = refl;
  chunk_length_is = refl;
  offset_is = refl;
  in_range = omega arith;
}

push-Cuts_example :
    Cuts 2 2 1
      (record midway { buf = midway.buf ++ 4 ∷ 5 ∷ 6 ∷ [] })
      (Chunker.push midway (4 ∷ 5 ∷ 6 ∷ [])).0
      (Chunker.push midway (4 ∷ 5 ∷ 6 ∷ [])).1
push-Cuts_example = push-Cuts 2 2 1 midway (4 ∷ 5 ∷ 6 ∷ []) midway-IsAt

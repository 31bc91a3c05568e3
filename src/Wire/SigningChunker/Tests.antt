-- ===== src/Wire/SigningChunker/Tests.antt =====
-- Runs of crates/ace-wire/src/signing_chunker.rs with a toy signature of one byte.
use outpace.Prelude.{◌≡◌, refl, [], ◌∷◌, ◌++◌, arith}
use outpace.Wire.LiveAuth
use outpace.Wire.LiveAuth.Tests.{toy, toy-Documented}
use outpace.Wire.Chunker
use outpace.Wire.Chunker.{OutChunk}
use outpace.Wire.SigningChunker
use outpace.Wire.SigningChunker.{SigningChunker}
use outpace.Wire.SigningChunker.Pieces.{AtPiece, Sent, push-Sent}

program : Unit {0}
unfolding Chunker.new Chunker.make_chunk Chunker.push_loop Chunker.push Chunker.flush LiveAuth.sign
    SigningChunker.new SigningChunker.with_tail SigningChunker.push_loop SigningChunker.push
    SigningChunker.flush
program = tt

-- Pieces of four bytes in two chunks, of which three bytes are payload; one byte is buffered.
abbrev source : SigningChunker
source = record {
  payload_capacity = 3;
  buf = 7 ∷ [];
  chunker = record { piece_length = 4; chunk_length = 2; start_piece = 5; buf = []; offset = 0 };
}

started : (SigningChunker.push toy (SigningChunker.new 4 2 5 1) (7 ∷ []) tt).0 ≡ source
unfolding program
started = refl

abbrev first_chunk : OutChunk
first_chunk = record { piece = 5; chunk = 0; begin = 0; bytes = 7 ∷ 8 ∷ [] }

one_piece :
    (SigningChunker.push toy source (8 ∷ 9 ∷ 1 ∷ []) tt).1
    ≡ first_chunk ∷ record { piece = 5; chunk = 1; begin = 2; bytes = 9 ∷ 7 ∷ [] } ∷ []
unfolding program
one_piece = refl

-- A flush sends a short piece: the byte and its signature.
last_piece :
    (SigningChunker.flush toy source tt).1
    ≡ record { piece = 5; chunk = 0; begin = 0; bytes = 7 ∷ 7 ∷ [] } ∷ []
unfolding program
last_piece = refl

source-AtPiece : AtPiece toy tt 2 2 0 1 (record source { buf = source.buf ++ 8 ∷ 9 ∷ 1 ∷ [] })
unfolding LiveAuth.signature_len
source-AtPiece = record {
  fits = refl;
  capacity = omega arith;
  positive = omega arith;
  some_chunks = omega arith;
  few_chunks = omega arith;
  piece_length = refl;
  chunk_length_is = refl;
  nothing_left = refl;
  offset_is = refl;
  held = omega arith;
  in_range = omega arith;
}

push-Sent_example :
    Sent toy tt 2 2 0
      (record source { buf = source.buf ++ 8 ∷ 9 ∷ 1 ∷ [] })
      (SigningChunker.push toy source (8 ∷ 9 ∷ 1 ∷ []) tt).0
      (SigningChunker.push toy source (8 ∷ 9 ∷ 1 ∷ []) tt).1
push-Sent_example = push-Sent toy tt 2 2 0 1 source (8 ∷ 9 ∷ 1 ∷ []) toy-Documented source-AtPiece

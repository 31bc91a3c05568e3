-- ===== src/Wire/SigningChunker.antt =====
-- crates/ace-wire/src/signing_chunker.rs: the stream of a live source, cut into payloads that are
-- signed and then cut into chunks. A method on `&mut self` returns the new state beside its result.
pub mod Pieces
mod Tests
use outpace.Prelude.{
  ℕ, zero, suc, ◌-◌, Bool, true, false, Option, none, some, List, [], ◌∷◌, ◌++◌, is_empty, length,
  take, drop, leb, if◌then◌else◌,
}
use outpace.Wire.LiveAuth
use outpace.Wire.LiveAuth.{RsaCrate}
use outpace.Wire.Chunker
use outpace.Wire.Chunker.{TsChunker, OutChunk}

pub record SigningChunker : Type 0 where
  pub payload_capacity : ℕ
  pub buf : List ℕ
  pub chunker : TsChunker

unfoldable pub new : (piece_length chunk_length start_piece sig_len : ℕ) → SigningChunker
new piece_length chunk_length start_piece sig_len = record {
  payload_capacity = piece_length - sig_len;
  buf = [];
  chunker = Chunker.new piece_length chunk_length start_piece;
}

-- The trailing chunk of a flush, where there is one.
unfoldable pub with_tail : List OutChunk → Option OutChunk → List OutChunk
with_tail out none = out
with_tail out (some tail) = out ++ (tail ∷ [])

module _ (rsa : RsaCrate) where
  -- `while self.buf.len() >= self.payload_capacity`. A turn takes at least one byte where the capacity
  -- is positive, as `new` asks for, so as many turns as there are bytes are enough.
  unfoldable pub push_loop :
      ℕ → SigningChunker → (auth : rsa.PrivateKey) → SigningChunker × List OutChunk
  push_loop zero s auth = (s, [])
  push_loop (suc fuel) s auth = elim (leb s.payload_capacity (length s.buf)) [
    | false ↦ (s, [])
    | true ↦
        let payload = take s.payload_capacity s.buf in
        let (chunker, out) = Chunker.push s.chunker (payload ++ LiveAuth.sign rsa auth payload) in
        let (s', outs) =
          push_loop fuel (record s { buf = drop s.payload_capacity s.buf; chunker = chunker })
            auth in
        (s', out ++ outs)
  ]

  unfoldable pub push :
      SigningChunker → List ℕ → (auth : rsa.PrivateKey) → SigningChunker × List OutChunk
  push s bytes auth = push_loop (length (s.buf ++ bytes)) (record s { buf = s.buf ++ bytes }) auth

  unfoldable pub flush : SigningChunker → (auth : rsa.PrivateKey) → SigningChunker × List OutChunk
  flush s auth =
      if is_empty s.buf
      then (s, [])
      else let (chunker, out) = Chunker.push s.chunker (s.buf ++ LiveAuth.sign rsa auth s.buf) in
        let (chunker', tail) = Chunker.flush chunker in
        (record s { buf = []; chunker = chunker' }, with_tail out tail)

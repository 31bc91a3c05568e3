-- ===== src/Wire/Chunker/Stream.antt =====
-- crates/ace-wire/src/chunker.rs: the chunks are the stream, in order, at the addresses that the
-- chunk number determines.
use outpace.Prelude.{
  ℕ, zero, suc, ◌+◌, ◌*◌, ◌/◌, ◌%◌, ◌^◌, ◌≤◌, ◌<◌, ◌≡◌, refl, sym, ap, ◌∙◌, subst, true, false,
  List, [], ◌∷◌, ◌++◌, append_assoc, length, length-take, length-drop, take, drop, take-append-drop,
  leb, u64_mod, Bool-cases, inl, inr, arith,
}
use native.Mathlib.Nat.{
  div-add-mod, mod-lt, mul-div-mul_right, mul-div_cancel, div-le_self, mod-eq_of_lt,
}
use outpace.Wire.Chunker
use outpace.Wire.Chunker.{TsChunker, OutChunk}

-- The bytes of the chunks, one after another.
abbrev pub stream_of : List OutChunk → List ℕ
stream_of [] = []
stream_of (o ∷ os) = o.bytes ++ stream_of os

div-mul :
    (count chunk_length turn : ℕ)
    → 0 < chunk_length
    → turn * chunk_length / (count * chunk_length) ≡ turn / count
div-mul count chunk_length turn h = mul-div-mul_right turn count h

cancel_pieces : (c b q r x : ℕ) → c * b * q + x ≡ (c * q + r) * b → x ≡ r * b
cancel_pieces c b q r x e = grind arith

mod-mul :
    (count chunk_length turn : ℕ)
    → 0 < chunk_length
    → turn * chunk_length % (count * chunk_length) ≡ turn % count * chunk_length
mod-mul count chunk_length turn h =
    let whole : count * chunk_length * (turn / count) + turn * chunk_length % (count * chunk_length)
        ≡ turn * chunk_length =
      ap (λ q. count * chunk_length * q + turn * chunk_length % (count * chunk_length))
        (sym (div-mul count chunk_length turn h))
      ∙ div-add-mod (turn * chunk_length) (count * chunk_length) in
    let split : count * (turn / count) + turn % count ≡ turn = div-add-mod turn count in
    cancel_pieces count chunk_length (turn / count) (turn % count) _
      (whole ∙ ap (λ t. t * chunk_length) (sym split))

module _ (chunk_length count : ℕ) where
  -- What `new` asks for, where pieces have at most 65536 chunks; the buffer starts at chunk `turn`
  -- of the stream, and the offsets and pieces of the buffered bytes are in range.
  pub record IsAt (turn : ℕ) (c : TsChunker) : Type 0 where
    pub positive : 0 < chunk_length
    pub some_chunks : 0 < count
    pub few_chunks : count ≤ 2 ^ 16
    pub piece_length : c.piece_length ≡ count * chunk_length
    pub chunk_length_is : c.chunk_length ≡ chunk_length
    pub offset_is : c.offset ≡ turn * chunk_length
    pub in_range : c.start_piece + c.offset + length c.buf < u64_mod

  -- The chunks from chunk `turn` of the stream on have whole lengths, and each stands at its piece,
  -- its chunk of that piece, and that chunk's offset.
  abbrev pub Addressed : ℕ → ℕ → List OutChunk → Type 0
  Addressed start turn [] = Unit {0}
  Addressed start turn (o ∷ os) =
      (length o.bytes ≡ chunk_length)
      × (o.piece ≡ start + turn / count)
      × (o.chunk ≡ turn % count)
      × (o.begin ≡ turn % count * chunk_length)
      × Addressed start (suc turn) os

  -- What a run of the loop from `c` promises of the state and the chunks that it ends with.
  pub record Cuts (turn : ℕ) (c : TsChunker) (c' : TsChunker) (os : List OutChunk) : Type 0 where
    pub content : stream_of os ++ c'.buf ≡ c.buf
    pub rest : length c'.buf < chunk_length
    pub addressed : Addressed c.start_piece turn os
    pub same_start : c'.start_piece ≡ c.start_piece
    pub state : IsAt (turn + length os) c'

  -- The state after one turn of the loop.
  abbrev turned : TsChunker → TsChunker
  turned c = record c {
    buf = drop c.chunk_length c.buf;
    offset = (c.offset + length (take c.chunk_length c.buf)) % u64_mod;
  }

  turned-IsAt :
      (turn : ℕ) {c : TsChunker}
      → IsAt turn c
      → c.chunk_length ≤ length c.buf
      → IsAt (suc turn) (turned c)
  turned-IsAt turn {c} i h =
      let taken : length (take c.chunk_length c.buf) ≡ c.chunk_length =
        omega (arith, length-take c.chunk_length c.buf) in
      let moved : (c.offset + length (take c.chunk_length c.buf)) % u64_mod
          ≡ c.offset + c.chunk_length =
        rw taken (mod-eq_of_lt (omega (arith, i.in_range))) in
      record {
        positive = i.positive;
        some_chunks = i.some_chunks;
        few_chunks = i.few_chunks;
        piece_length = i.piece_length;
        chunk_length_is = i.chunk_length_is;
        offset_is = rw (moved, i.offset_is, i.chunk_length_is) (omega arith);
        in_range = rw moved (omega (arith, i.in_range, length-drop c.chunk_length c.buf));
      }

  chunk_at :
      (turn : ℕ) {c : TsChunker} (bytes : List ℕ)
      → IsAt turn c
      → let o = (Chunker.make_chunk c bytes).1 in
        (o.piece ≡ c.start_piece + turn / count)
        × (o.chunk ≡ turn % count)
        × (o.begin ≡ turn % count * chunk_length)
  unfolding Chunker.make_chunk
  chunk_at turn {c} bytes i =
      let at_piece : c.offset / c.piece_length ≡ turn / count =
        rw (i.offset_is, i.piece_length) (div-mul count chunk_length turn i.positive) in
      let at : c.offset % c.piece_length ≡ turn % count * chunk_length =
        rw (i.offset_is, i.piece_length) (mod-mul count chunk_length turn i.positive) in
      let below : turn % count < count = mod-lt turn i.some_chunks in
      (
        mod-eq_of_lt (omega (arith, i.in_range, div-le_self c.offset c.piece_length))
            ∙ ap (λ q. c.start_piece + q) at_piece,
        rw (at, i.chunk_length_is, mul-div_cancel (turn % count) i.positive)
            (mod-eq_of_lt (omega (arith, i.few_chunks))),
        at,
      )

  stopped-Cuts :
      (turn : ℕ) {c : TsChunker} → IsAt turn c → length c.buf < chunk_length → Cuts turn c c []
  stopped-Cuts turn {c} i h = record {
    content = refl;
    rest = h;
    addressed = tt;
    same_start = refl;
    state = subst (λ t. IsAt t c) (omega arith) i;
  }

  turned-Cuts :
      (turn : ℕ) {c c' : TsChunker} {os : List OutChunk}
      → IsAt turn c
      → chunk_length ≤ length c.buf
      → Cuts (suc turn) (turned c) c' os
      → Cuts turn c c' ((Chunker.make_chunk c (take c.chunk_length c.buf)).1 ∷ os)
  turned-Cuts turn {c} {c'} {os} i h k =
      let (p, q, r) = chunk_at turn (take c.chunk_length c.buf) i in
      let size : length (take c.chunk_length c.buf) ≡ chunk_length =
        omega (arith, length-take c.chunk_length c.buf, i.chunk_length_is) in
      record {
        content =
            unfold Chunker.make_chunk in
            append_assoc (take c.chunk_length c.buf) (stream_of os) c'.buf
            ∙ (ap (λ t. take c.chunk_length c.buf ++ t) k.content
                ∙ take-append-drop c.chunk_length c.buf);
        rest = k.rest;
        addressed = (unfold Chunker.make_chunk in size, p, q, r, k.addressed);
        same_start = k.same_start;
        state = subst (λ t. IsAt t c') (omega arith) k.state;
      }

  push_loop_end :
      (fuel : ℕ) (c : TsChunker)
      → leb c.chunk_length (length c.buf) ≡ false
      → Chunker.push_loop (suc fuel) c ≡ (c, [])
  unfolding Chunker.push_loop
  push_loop_end fuel c e = rw (e, Chunker.push_loop) refl

  push_loop_turn :
      (fuel : ℕ) (c : TsChunker)
      → leb c.chunk_length (length c.buf) ≡ true
      → let rest = Chunker.push_loop fuel (turned c) in
        Chunker.push_loop (suc fuel) c
        ≡ (rest.0, (Chunker.make_chunk c (take c.chunk_length c.buf)).1 ∷ rest.1)
  unfolding Chunker.push_loop Chunker.make_chunk
  push_loop_turn fuel c e = rw (e, Chunker.push_loop) refl

  push_loop-Cuts :
      (fuel turn : ℕ) {c : TsChunker}
      → IsAt turn c
      → length c.buf ≤ fuel
      → Cuts turn c (Chunker.push_loop fuel c).0 (Chunker.push_loop fuel c).1
  push_loop-Cuts zero turn {c} i h =
      unfold Chunker.push_loop in stopped-Cuts turn i (omega (arith, i.positive))
  push_loop-Cuts (suc fuel) turn {c} i h = elim (Bool-cases (leb c.chunk_length (length c.buf))) [
    | inr e ↦ rw (push_loop_end fuel c e) (stopped-Cuts turn i (ground (arith, i.chunk_length_is)))
    | inl e ↦
        let enough : c.chunk_length ≤ length c.buf = ground arith in
        rw (push_loop_turn fuel c e) (
          turned-Cuts turn i (ground (arith, i.chunk_length_is)) (
            push_loop-Cuts fuel (suc turn) {c = turned c} (turned-IsAt turn i enough)
              (omega (arith, i.positive, i.chunk_length_is, length-drop c.chunk_length c.buf))))
  ]

-- Bytes that are pushed at chunk `turn` of the stream, in range, all come out: `push` returns the
-- chunks of the buffered and the new bytes in order, each whole and at the address of its chunk
-- number, and keeps less than a chunk.
pub push-Cuts :
    (chunk_length count turn : ℕ) (c : TsChunker) (bytes : List ℕ)
    → IsAt chunk_length count turn (record c { buf = c.buf ++ bytes })
    → Cuts chunk_length count turn
        (record c { buf = c.buf ++ bytes })
        (Chunker.push c bytes).0
        (Chunker.push c bytes).1
unfolding Chunker.push
push-Cuts chunk_length count turn c bytes i =
    push_loop-Cuts chunk_length count (length (c.buf ++ bytes)) turn i (omega arith)

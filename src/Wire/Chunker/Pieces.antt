-- ===== src/Wire/Chunker/Pieces.antt =====
-- crates/ace-wire/src/chunker.rs: lists of chunks put together, and the push of a whole piece.
use outpace.Prelude.{
  ℕ, suc, ◌+◌, ◌*◌, ◌≤◌, ◌<◌, ◌≡◌, refl, sym, ap, ◌∙◌, subst, List, [], ◌∷◌, ◌++◌, append_assoc,
  append-nil, length, length-append, mul_lt_cancel, mul_le_cancel, arith,
}
use outpace.Wire.Chunker
use outpace.Wire.Chunker.{TsChunker, OutChunk}
use outpace.Wire.Chunker.Stream.{stream_of, IsAt, Addressed, push-Cuts}

pub Addressed-append :
    (chunk_length count start turn : ℕ) (xs ys : List OutChunk)
    → Addressed chunk_length count start turn xs
    → Addressed chunk_length count start (turn + length xs) ys
    → Addressed chunk_length count start turn (xs ++ ys)
Addressed-append chunk_length count start turn [] ys a b =
    subst (λ t. Addressed chunk_length count start t ys) (omega arith) b
Addressed-append chunk_length count start turn (x ∷ xs) ys a b = (
  a.0,
  a.1,
  a.2,
  a.3,
  Addressed-append chunk_length count start (suc turn) xs ys a.4
      (subst (λ t. Addressed chunk_length count start t ys) (omega arith) b),
)

pub stream_of-append : (xs ys : List OutChunk) → stream_of (xs ++ ys) ≡ stream_of xs ++ stream_of ys
stream_of-append [] ys = refl
stream_of-append (x ∷ xs) ys =
    ap (λ t. x.bytes ++ t) (stream_of-append xs ys) ∙ sym (append_assoc x.bytes _ _)

Addressed-length :
    (chunk_length count start turn : ℕ) (xs : List OutChunk)
    → Addressed chunk_length count start turn xs
    → length (stream_of xs) ≡ length xs * chunk_length
Addressed-length chunk_length count start turn [] a = omega arith
Addressed-length chunk_length count start turn (x ∷ xs) a = omega (
  arith,
  length-append x.bytes (stream_of xs),
  a.0,
  Addressed-length chunk_length count start (suc turn) xs a.4,
)

-- Whole pieces leave nothing behind.
no_rest :
    (chunks count chunk_length rest : ℕ)
    → rest < chunk_length
    → chunks * chunk_length + rest ≡ count * chunk_length
    → (chunks ≡ count) × (rest ≡ 0)
no_rest chunks count chunk_length rest h e =
    let next : suc chunks * chunk_length ≡ chunks * chunk_length + chunk_length = omega arith in
    let above : count < suc chunks = mul_lt_cancel count (suc chunks) chunk_length (omega arith) in
    let below : chunks ≤ count =
      mul_le_cancel chunks count chunk_length (omega arith) (omega arith) in
    let same : chunks ≡ count = omega arith in
    (same, omega (arith, e, ap (λ k. k * chunk_length) same))

no_bytes : (xs : List ℕ) → length xs ≡ 0 → xs ≡ []
no_bytes [] h = refl
no_bytes (x ∷ xs) h = absurd (omega arith)

module _ (chunk_length count : ℕ) where
  -- What a push of a whole piece at a piece boundary does.
  pub record OnePiece (turn : ℕ) (c c' : TsChunker) (piece : List ℕ) (out : List OutChunk)
      : Type 0 where
    pub wire : stream_of out ≡ piece
    pub addressed : Addressed chunk_length count c.start_piece turn out
    pub chunks : length out ≡ count
    pub whole : c'.buf ≡ []
    pub state : IsAt chunk_length count (turn + count) c'
    pub same_start : c'.start_piece ≡ c.start_piece

  pub push-OnePiece :
      (turn : ℕ) (c : TsChunker) (piece : List ℕ)
      → c.buf ≡ []
      → length piece ≡ count * chunk_length
      → IsAt chunk_length count turn (record c { buf = c.buf ++ piece })
      → OnePiece turn c (Chunker.push c piece).0 piece (Chunker.push c piece).1
  push-OnePiece turn c piece none_left size at =
      let cuts = push-Cuts chunk_length count turn c piece at in
      let out = (Chunker.push c piece).1 in
      let c' = (Chunker.push c piece).0 in
      let all : stream_of out ++ c'.buf ≡ piece = cuts.content ∙ ap (λ t. t ++ piece) none_left in
      let (chunks, no_more) = no_rest (length out) count chunk_length (length c'.buf) cuts.rest (
        omega (
          arith,
          length-append (stream_of out) c'.buf,
          ap length all,
          Addressed-length chunk_length count c.start_piece turn out cuts.addressed,
        )) in
      let empty : c'.buf ≡ [] = no_bytes c'.buf no_more in
      record {
        wire = sym (append-nil (stream_of out)) ∙ (ap (λ t. stream_of out ++ t) (sym empty) ∙ all);
        addressed = cuts.addressed;
        chunks = chunks;
        whole = empty;
        state = subst (λ n. IsAt chunk_length count (turn + n) c') chunks cuts.state;
        same_start = cuts.same_start;
      }

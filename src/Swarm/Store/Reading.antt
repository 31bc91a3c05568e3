-- ===== src/Swarm/Store/Reading.antt =====
-- crates/ace-swarm/src/store.rs: byte blocks read back from a published piece.
use outpace.Prelude.{
  ℕ, zero, suc, ◌+◌, ◌-◌, ◌*◌, ◌/◌, ◌%◌, ◌≤◌, ◌<◌, ◌≡◌, sym, ap, ◌∙◌, true, false, some, List,
  length, take, drop, ◌++◌, ltb, u16_mod, u64_mod, arith, ◌⊎◌, inl, inr, ◌≢◌, drop-drop, drop-take,
  take-take_of_le, take-append_take, length-drop, length-take, Span, mul_le_mono, div_ceil-Span,
}
use outpace.Swarm.Store
use outpace.Swarm.Store.{PieceStore, published, not_retained, already_present}
use outpace.Swarm.Store.Serving
use outpace.Swarm.Store.Contents.{IsValid}
use outpace.Swarm.Store.Blocks.{nth_chunk}
use outpace.Swarm.Store.Publish.{
  Holds, Geometry, bad_geometry-Geometry, Published-Holds, published_steps,
}

joined :
    (cl n first : ℕ) (wire : List ℕ)
    → nth_chunk cl wire first ++ take (n * cl) (drop (suc first * cl) wire)
      ≡ take (suc n * cl) (drop (first * cl) wire)
joined cl n first wire =
    let next : suc first * cl ≡ first * cl + cl = omega arith in
    let more : suc n * cl ≡ cl + n * cl = omega arith in
    let moved : drop (suc first * cl) wire ≡ drop cl (drop (first * cl) wire) =
      ap (λ k. drop k wire) next ∙ sym (drop-drop cl (first * cl) wire) in
    ap (λ xs. nth_chunk cl wire first ++ take (n * cl) xs) moved
    ∙ take-append_take cl (n * cl) (drop (first * cl) wire)
    ∙ ap (λ k. take k (drop (first * cl) wire)) (sym more)

read_turn :
    (n : ℕ) (t : PieceStore) (piece first : ℕ) (bytes more : List ℕ)
    → first < u16_mod
    → Store.chunk t piece first ≡ some bytes
    → Serving.read_chunks n t piece (suc first) ≡ some more
    → Serving.read_chunks (suc n) t piece first ≡ some (bytes ++ more)
unfolding Serving.read_chunks Serving.shared_serving_chunk
read_turn n t piece first bytes more small here rest = ground arith

-- `n` chunks of a held piece, one after another, are the wire's bytes there.
read_chunks-wire :
    (t s : PieceStore) (piece : ℕ) (wire : List ℕ)
    → Holds t s piece wire
    → Geometry s wire
    → (n first : ℕ) → first + n ≤ s.piece_length / s.chunk_length
    → Serving.read_chunks n t piece first
      ≡ some (take (n * s.chunk_length) (drop (first * s.chunk_length) wire))
unfolding Serving.read_chunks
read_chunks-wire t s piece wire h g zero first inside =
    let nothing : 0 ≡ 0 * s.chunk_length = omega arith in
    ap (λ k. some (take k (drop (first * s.chunk_length) wire))) nothing
read_chunks-wire t s piece wire h g (suc n) first inside =
    let cl = s.chunk_length in
    let rest = read_chunks-wire t s piece wire h g n (suc first) (omega arith) in
    let here = h.chunks first (omega arith) in
    read_turn n t piece first _ _ (omega (arith, g.few)) here rest
    ∙ ap some (joined cl n first wire)

slice-chunks :
    (wire : List ℕ) (begin len cl first n : ℕ)
    → first * cl + begin % cl ≡ begin
    → begin % cl + len ≤ n * cl
    → (first + n) * cl ≤ length wire
    → Serving.slice (take (n * cl) (drop (first * cl) wire)) (begin % cl) len
      ≡ some (take len (drop begin wire))
unfolding Serving.slice
slice-chunks wire begin len cl first n start wide inside =
    let off = begin % cl in
    let all : (first + n) * cl ≡ first * cl + n * cl = omega arith in
    let whole : length (take (n * cl) (drop (first * cl) wire)) ≡ n * cl =
      omega (arith, length-take (n * cl) (drop (first * cl) wire), length-drop (first * cl) wire) in
    let long : ltb (length (take (n * cl) (drop (first * cl) wire))) (off + len) ≡ false =
      ground arith in
    let tail : off + (n * cl - off) ≡ n * cl = omega arith in
    let cut : drop off (take (n * cl) (drop (first * cl) wire))
        ≡ take (n * cl - off) (drop begin wire) =
      ap (λ k. drop off (take k (drop (first * cl) wire))) (sym tail)
      ∙ drop-take off (n * cl - off) (drop (first * cl) wire)
      ∙ ap (take (n * cl - off)) (drop-drop off (first * cl) wire ∙ ap (λ k. drop k wire) start) in
    rw (long) (
      ap some
        (ap (take len) cut ∙ take-take_of_le len (n * cl - off) (drop begin wire) (omega arith)))

shared_block-reads :
    (t : PieceStore) (cl piece begin len : ℕ) (bytes : List ℕ)
    → t.chunk_length ≡ cl
    → 0 < len
    → len ≤ Serving.max_bt_request_len
    → begin + len ≤ t.piece_length
    → t.piece_length < u64_mod
    → Serving.read_chunks ((begin + len + (cl - 1)) / cl - begin / cl) t piece (begin / cl)
      ≡ some bytes
    → Serving.shared_block t piece begin len ≡ Serving.slice bytes (begin % cl) len
unfolding Serving.shared_block
shared_block-reads t cl piece begin len bytes same pos small inside fits e = ground arith

block_of_held :
    (t s : PieceStore) (piece : ℕ) (wire : List ℕ) (begin len : ℕ)
    → Holds t s piece wire
    → Geometry s wire
    → 0 < len
    → len ≤ Serving.max_bt_request_len
    → begin + len ≤ length wire
    → length wire < u64_mod
    → Serving.shared_block t piece begin len ≡ some (take len (drop begin wire))
block_of_held t s piece wire begin len h g pos limit inside fits =
    let cl = s.chunk_length in
    let first = begin / cl in
    let last = (begin + len + (cl - 1)) / cl in
    let span : Span begin len cl (s.piece_length / cl) first last =
      div_ceil-Span begin len cl (s.piece_length / cl) g.positive (omega (arith, g.whole)) in
    let up : first + (last - first) ≡ last = omega (arith, span.ascending) in
    let read =
      read_chunks-wire t s piece wire h g (last - first) first
        (omega (arith, span.ascending, span.inside)) in
    let cut =
      slice-chunks wire begin len cl first (last - first) span.start span.wide
        (rw up (omega (arith, g.whole, mul_le_mono last (s.piece_length / cl) cl span.inside))) in
    shared_block-reads t cl piece begin len (take ((last - first) * cl) (drop (first * cl) wire))
      h.same_chunk_length pos limit (omega (arith, h.same_piece_length, g.same_length))
      (omega (arith, h.same_piece_length, g.same_length)) read
    ∙ cut

-- After a publication of a piece with a u64 index into a valid store, where its budget and the piece's bytes stay below 2 ^ 64,
-- each block of at most 16 KiB inside the piece reads the published bytes back.
pub shared_block-shared_put_complete_piece :
    (s : PieceStore) (now piece : ℕ) (header wire : List ℕ) (begin len : ℕ)
    → IsValid s
    → piece < u64_mod
    → s.max_bytes + length wire < u64_mod
    → (Serving.shared_put_complete_piece s now piece header wire).1 ≡ some published
    → 0 < len
    → len ≤ Serving.max_bt_request_len
    → begin + len ≤ length wire
    → Serving.shared_block
        (Serving.shared_put_complete_piece s now piece header wire).0
        piece
        begin
        len
      ≡ some (take len (drop begin wire))
shared_block-shared_put_complete_piece s now piece header wire begin len v small fits done pos limit
      inside =
    let t = (Serving.shared_put_complete_piece s now piece header wire).0 in
    let steps = published_steps s now piece header wire done in
    let g = bad_geometry-Geometry s wire steps.0 in
    let h = Published-Holds s now piece header wire v small fits steps in
    block_of_held t s piece wire begin len h g pos limit inside (omega (arith, fits))

-- A publication of a wrong length, over the budget, or of a piece that the store holds in full leaves
-- the store as it is and does not report that the piece was published.
pub shared_put_complete_piece_refused :
    (s : PieceStore) (now piece : ℕ) (header wire : List ℕ)
    → (s.piece_length ≢ length wire)
      ⊎ (s.max_bytes < s.piece_length)
      ⊎ (Store.has_piece s piece ≡ true)
    → let r = Serving.shared_put_complete_piece s now piece header wire in
      (r.0 ≡ s) × (r.1 ≢ some published)
unfolding Serving.shared_put_complete_piece Serving.put_complete_memory Serving.bad_geometry
    Store.has_piece Store.chunks_per_piece
shared_put_complete_piece_refused s now piece header wire (inl e) =
    (ground arith, λ d. ground arith)
shared_put_complete_piece_refused s now piece header wire (inr (inl e)) =
    (ground arith, λ d. ground arith)
shared_put_complete_piece_refused s now piece header wire (inr (inr e)) =
    (ground arith, λ d. ground arith)

-- ===== src/Swarm/Store/Publish.antt =====
-- crates/ace-swarm/src/store.rs: the publication of a whole piece.
use outpace.Prelude.{
  ap, ℕ, zero, suc, ◌+◌, ◌-◌, ◌*◌, ◌/◌, ◌%◌, ◌≤◌, ◌<◌, ◌≡◌, refl, sym, ◌∙◌, subst, true, false,
  Option, none, some, List, [], length, ltb, ◌==◌, if◌then◌else◌, ==_refl, u16_mod, u64_mod, arith,
}
use native.Mathlib.Nat.{div-add-mod}
use outpace.Prelude.Maps.{Map, lookup, insert, lookup-insert, Between}
use outpace.Prelude.Totals.{total, size_or_zero, total-insert, lookup-le-total}
use outpace.Swarm.Memory
use outpace.Swarm.Store
use outpace.Swarm.Store.{PieceStore, CompletePut, published, already_present, not_retained}
use outpace.Swarm.Memory.{chunk_bytes}
use outpace.Swarm.Store.Serving
use outpace.Swarm.Store.Serving.{collect_chunks}
use outpace.Swarm.Store.Accounts.{IsBalanced}
use outpace.Swarm.Store.Eviction.{Left-IsBalanced, Left-floor, Left-SameShape, evict-Left}
use outpace.Swarm.Store.Contents.{IsValid, rewritten-IsBalanced}
use outpace.Swarm.Store.Blocks.{
  nth_chunk, lookup-collect_chunks, length-collect_chunks, collect_chunks-Between,
}

-- What the guards of a publication let through.
pub record Geometry (s : PieceStore) (wire : List ℕ) : Type 0 where
  pub positive : 0 < s.chunk_length
  pub few : s.piece_length / s.chunk_length < u16_mod
  pub whole : length wire ≡ s.piece_length / s.chunk_length * s.chunk_length
  pub same_length : length wire ≡ s.piece_length

pub bad_geometry-Geometry :
    (s : PieceStore) (wire : List ℕ)
    → Serving.bad_geometry s (length wire) ≡ false
    → Geometry s wire
unfolding Serving.bad_geometry
bad_geometry-Geometry s wire e =
    let split = div-add-mod s.piece_length s.chunk_length in
    record {
      positive = ground arith;
      few = ground arith;
      whole = ground (arith, split);
      same_length = ground arith;
    }

-- The chunks of the wire.
abbrev pub wire_chunks : PieceStore → List ℕ → Map (List ℕ)
wire_chunks s wire = collect_chunks (length wire) s.chunk_length 0 wire []

le_mul : (n cl : ℕ) → 0 < cl → n ≤ n * cl
le_mul n zero pos = absurd (omega arith)
le_mul n (suc cl) pos = omega arith

pub wire_chunks-Between :
    (s : PieceStore) (wire : List ℕ)
    → Geometry s wire
    → Between 0 (s.piece_length / s.chunk_length) (wire_chunks s wire)
      × (chunk_bytes (wire_chunks s wire) ≡ s.piece_length)
wire_chunks-Between s wire g =
    let count = s.piece_length / s.chunk_length in
    let enough = le_mul count s.chunk_length g.positive in
    let (range, bytes) =
      collect_chunks-Between (length wire) s.chunk_length 0 count wire [] g.positive g.whole
        (omega (arith, g.whole)) (omega (arith, g.few)) tt in
    let front : 0 + count ≡ count = omega arith in
    (
      subst (λ k. Between 0 k (wire_chunks s wire)) front range,
      omega (arith, g.whole, g.same_length),
    )

lookup-wire_chunks :
    (s : PieceStore) (wire : List ℕ) (q : ℕ)
    → Geometry s wire
    → q < s.piece_length / s.chunk_length
    → lookup q (wire_chunks s wire) ≡ some (nth_chunk s.chunk_length wire q)
lookup-wire_chunks s wire q g inside =
    let count = s.piece_length / s.chunk_length in
    let enough = le_mul count s.chunk_length g.positive in
    lookup-collect_chunks (length wire) s.chunk_length 0 count wire [] q g.positive g.whole
      (omega (arith, g.whole)) (omega (arith, g.few))
    ∙ ground arith

pub write_complete-IsBalanced :
    (s : PieceStore) (now piece : ℕ) (header wire : List ℕ)
    → IsBalanced s
    → Geometry s wire
    → piece < u64_mod
    → s.cur_bytes + length wire < u64_mod
    → IsBalanced (Serving.write_complete s now piece header wire)
unfolding Serving.write_complete
write_complete-IsBalanced s now piece header wire v g small fits =
    let (range, bytes) = wire_chunks-Between s wire g in
    let moved =
      total-insert chunk_bytes 0 u64_mod piece (wire_chunks s wire) s.backend.pieces v.ordered in
    let exact : (s.cur_bytes
            - size_or_zero chunk_bytes (lookup piece s.backend.pieces)
            + s.piece_length)
          % u64_mod
        ≡ total chunk_bytes (insert piece (wire_chunks s wire) s.backend.pieces) =
      omega (arith, v.counted, g.same_length, lookup-le-total chunk_bytes piece s.backend.pieces) in
    rewritten-IsBalanced s now piece (wire_chunks s wire) header _ v small range exact

pub lookup-write_complete :
    (s : PieceStore) (now piece : ℕ) (header wire : List ℕ) (q : ℕ)
    → lookup q (Serving.write_complete s now piece header wire).backend.pieces
      ≡ (if piece == q then some (wire_chunks s wire) else lookup q s.backend.pieces)
unfolding Serving.write_complete Store.note_seen
lookup-write_complete s now piece header wire q =
    lookup-insert q piece (wire_chunks s wire) s.backend.pieces

-- A publication went through the guards, the write and the eviction, after which the piece is held.
abbrev pub Published : PieceStore → (now piece : ℕ) → (header wire : List ℕ) → Type 0
Published s now piece header wire =
    (Serving.bad_geometry s (length wire) ≡ false)
    × ((Serving.shared_put_complete_piece s now piece header wire).0
        ≡ Store.evict (Serving.write_complete s now piece header wire))
    × (Store.has_piece (Store.evict (Serving.write_complete s now piece header wire)) piece ≡ true)

pub published_steps :
    (s : PieceStore) (now piece : ℕ) (header wire : List ℕ)
    → (Serving.shared_put_complete_piece s now piece header wire).1 ≡ some published
    → Published s now piece header wire
unfolding Serving.shared_put_complete_piece Serving.put_complete_memory
published_steps s now piece header wire e = (ground arith, ground arith, ground arith)

-- A held piece is not below the floor of an eviction.
has_piece-floor :
    (t : PieceStore) (piece floor : ℕ) (o : Option (Map (List ℕ)))
    → Store.has_piece t piece ≡ true
    → lookup piece t.backend.pieces ≡ (if ltb piece floor then none else o)
    → lookup piece t.backend.pieces ≡ o
unfolding Store.has_piece Memory.backend_has_piece
has_piece-floor t piece floor o e f = ground arith

chunk_of_lookup :
    (t : PieceStore) (piece q : ℕ) (chunks : Map (List ℕ))
    → lookup piece t.backend.pieces ≡ some chunks
    → Store.chunk t piece q ≡ lookup q chunks
unfolding Store.chunk Memory.get
chunk_of_lookup t piece q chunks e = ground arith

-- A store that holds the chunks of the wire for a piece, with its geometry.
pub record Holds (t : PieceStore) (s : PieceStore) (piece : ℕ) (wire : List ℕ) : Type 0 where
  pub valid : IsValid t
  pub same_piece_length : t.piece_length ≡ s.piece_length
  pub same_chunk_length : t.chunk_length ≡ s.chunk_length
  pub chunks :
      (q : ℕ)
      → q < s.piece_length / s.chunk_length
      → Store.chunk t piece q ≡ some (nth_chunk s.chunk_length wire q)

pub write_complete-fields :
    (s : PieceStore) (now piece : ℕ) (header wire : List ℕ)
    → let w = Serving.write_complete s now piece header wire in
      (w.piece_length ≡ s.piece_length)
      × (w.chunk_length ≡ s.chunk_length)
      × (w.max_bytes ≡ s.max_bytes)
unfolding Serving.write_complete Store.note_seen
write_complete-fields s now piece header wire = (refl, refl, refl)

pub Published-Holds :
    (s : PieceStore) (now piece : ℕ) (header wire : List ℕ)
    → IsValid s
    → piece < u64_mod
    → s.max_bytes + length wire < u64_mod
    → Published s now piece header wire
    → Holds (Serving.shared_put_complete_piece s now piece header wire).0 s piece wire
Published-Holds s now piece header wire v small fits (good, is, held) =
    let g = bad_geometry-Geometry s wire good in
    let w = Serving.write_complete s now piece header wire in
    let wv : IsBalanced w =
      write_complete-IsBalanced s now piece header wire v.balanced g small
        (omega (arith, v.in_budget)) in
    let (left, within) = evict-Left w wv in
    let (floor, same) = Left-floor left wv in
    let shape = Left-SameShape left in
    let (pl, cl, mb) = write_complete-fields s now piece header wire in
    let there =
      has_piece-floor (Store.evict w) piece floor (lookup piece w.backend.pieces) held
        (same piece) in
    let wrote = lookup-write_complete s now piece header wire piece in
    let chunks : lookup piece (Store.evict w).backend.pieces ≡ some (wire_chunks s wire) =
      there ∙ wrote ∙ rw (==_refl piece) refl in
    subst (λ t. Holds t s piece wire) (sym is)
      (record {
        valid = record {
          balanced = Left-IsBalanced left wv;
          in_budget = omega (arith, within, shape.max_bytes, mb);
        };
        same_piece_length = shape.piece_length ∙ pl;
        same_chunk_length = shape.chunk_length ∙ cl;
        chunks = λ q inside.
            chunk_of_lookup (Store.evict w) piece q (wire_chunks s wire) chunks
            ∙ lookup-wire_chunks s wire q g inside;
      })

full_piece :
    (t : PieceStore) (piece : ℕ) (chunks : Map (List ℕ))
    → lookup piece t.backend.pieces ≡ some chunks
    → length chunks ≡ t.piece_length / t.chunk_length
    → Store.has_piece t piece ≡ true
unfolding Store.has_piece Memory.backend_has_piece Store.chunks_per_piece
full_piece t piece chunks e all = ground arith

-- The piece is held in full once its chunks are.
pub has_piece_of_lookup :
    (t s : PieceStore) (piece : ℕ) (wire : List ℕ)
    → Geometry s wire
    → t.piece_length ≡ s.piece_length
    → t.chunk_length ≡ s.chunk_length
    → lookup piece t.backend.pieces ≡ some (wire_chunks s wire)
    → Store.has_piece t piece ≡ true
has_piece_of_lookup t s piece wire g pl cl e =
    let count = s.piece_length / s.chunk_length in
    let enough = le_mul count s.chunk_length g.positive in
    let all : length (wire_chunks s wire) ≡ count = omega (
      arith,
      length-collect_chunks (length wire) s.chunk_length 0 count wire [] g.positive g.whole
          (omega (arith, g.whole)) (omega (arith, g.few)) tt,
    ) in
    let same : t.piece_length / t.chunk_length ≡ count =
      ap (λ n. n / t.chunk_length) pl ∙ ap (λ n. s.piece_length / n) cl in
    full_piece t piece (wire_chunks s wire) e (all ∙ sym same)

-- ===== src/Swarm/Store/Refinement.antt =====
-- crates/ace-swarm/src/store.rs: a write refines the abstract store, a table of chunks that forgets
-- its lowest pieces.
use outpace.Prelude.{
  ℕ, ◌+◌, ◌/◌, ◌≤◌, ◌<◌, ◌≡◌, refl, ◌∙◌, List, length, u64_mod, arith, ◌⊎◌, inl, inr,
}
use native.Mathlib.Decide.{dec_lt}
use outpace.Swarm.Store
use outpace.Swarm.Store.{PieceStore}
use outpace.Swarm.Store.Accounts.{IsBalanced}
use outpace.Swarm.Store.Eviction.{Left, Left-IsBalanced, Left-floor, Left-SameShape, evict-Left}
use outpace.Swarm.Store.Contents.{
  IsValid, Table, table_of, write, forget_below, write_chunk-IsBalanced, chunk-write_chunk,
  chunk_floor,
}

-- The table after some of the lowest pieces have gone.
abbrev pub Forgets : Table → Table → Type 0
Forgets old new = (floor : ℕ) × ((p c : ℕ) → new p c ≡ forget_below floor old p c)

pub Left-Forgets : {t s : PieceStore} → Left t s → IsBalanced s → Forgets (table_of s) (table_of t)
Left-Forgets {t} {s} left v =
    let (floor, same) = Left-floor left v in (floor, chunk_floor s t floor same)

accepted :
    (s : PieceStore) (now piece index : ℕ) (header bytes : List ℕ)
    → 0 < s.max_bytes
    → index < s.piece_length / s.chunk_length
    → Store.put_chunk_with_header_at s now piece index header bytes
      ≡ Store.evict (Store.write_chunk s now piece index header bytes)
unfolding Store.put_chunk_with_header_at
accepted s now piece index header bytes budget inside = ground arith

write_chunk-max_bytes :
    (s : PieceStore) (now piece index : ℕ) (header bytes : List ℕ)
    → (Store.write_chunk s now piece index header bytes).max_bytes ≡ s.max_bytes
unfolding Store.write_chunk Store.note_seen
write_chunk-max_bytes s now piece index header bytes = refl

-- A chunk inside the geometry, of a piece with a u64 index, for a valid store that retains anything and
-- has the chunk's bytes to spare below 2 ^ 64: the write keeps the store valid and within its budget, and in the abstract view it is
-- the write of that chunk after which some of the lowest pieces are forgotten.
pub put_chunk-refines-write :
    (s : PieceStore) (now piece index : ℕ) (header bytes : List ℕ)
    → IsValid s
    → piece < u64_mod
    → 0 < s.max_bytes
    → index < s.piece_length / s.chunk_length
    → s.max_bytes + length bytes < u64_mod
    → let t = Store.put_chunk_with_header_at s now piece index header bytes in
      IsValid t × Forgets (write piece index bytes (table_of s)) (table_of t)
put_chunk-refines-write s now piece index header bytes v small budget inside fits =
    let w = Store.write_chunk s now piece index header bytes in
    let wv : IsBalanced w =
      write_chunk-IsBalanced s now piece index header bytes v.balanced small inside
        (omega (arith, v.in_budget)) in
    let (left, within) = evict-Left w wv in
    let (floor, same) = Left-Forgets left wv in
    let shape = Left-SameShape left in
    rw (accepted s now piece index header bytes budget inside) (
      record {
        balanced = Left-IsBalanced left wv;
        in_budget = omega (arith, within, shape.max_bytes);
      },
      (floor, λ p c. same p c ∙ forgets_write floor p c),
    )
  where
    forgets_write :
        (floor p c : ℕ)
        → forget_below floor (table_of (Store.write_chunk s now piece index header bytes)) p c
          ≡ forget_below floor (write piece index bytes (table_of s)) p c
    forgets_write floor p c = rw (chunk-write_chunk s now piece index header bytes p c) refl

-- A chunk outside the geometry, and any chunk for a store without a budget, changes nothing.
pub put_chunk_ignored :
    (s : PieceStore) (now piece index : ℕ) (header bytes : List ℕ)
    → (s.max_bytes ≡ 0) ⊎ (s.piece_length / s.chunk_length ≤ index)
    → Store.put_chunk_with_header_at s now piece index header bytes ≡ s
unfolding Store.put_chunk_with_header_at
put_chunk_ignored s now piece index header bytes (inl e) = ground arith
put_chunk_ignored s now piece index header bytes (inr e) = ground arith

-- Any chunk, inside the geometry or not, for a store with a budget or without one, leaves a valid store
-- valid, where the piece's index is a u64 and its bytes and the budget stay below 2 ^ 64.
pub put_chunk-IsValid :
    (s : PieceStore) (now piece index : ℕ) (header bytes : List ℕ)
    → IsValid s
    → piece < u64_mod
    → s.max_bytes + length bytes < u64_mod
    → IsValid (Store.put_chunk_with_header_at s now piece index header bytes)
put_chunk-IsValid s now piece index header bytes v small fits = elim (dec_lt 0 s.max_bytes) [
  | no none_kept ↦ rw (put_chunk_ignored s now piece index header bytes (inl (omega arith))) v
  | yes budget ↦ elim (dec_lt index (s.piece_length / s.chunk_length)) [
    | no outside ↦ rw (put_chunk_ignored s now piece index header bytes (inr (omega arith))) v
    | yes inside ↦
        (put_chunk-refines-write s now piece index header bytes v small budget inside fits).0
  ]
]

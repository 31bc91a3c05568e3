-- ===== src/Swarm/Store.antt =====
-- crates/ace-swarm/src/store.rs: the rolling store of pieces, over the backend that keeps them in
-- memory. An instant or a duration is its number of nanoseconds, and the time of a call is an
-- argument of it. A call on a shared store is one step: also that of a block, which takes the lock
-- again for each chunk, is modelled without another task's write between its chunks.
pub mod Serving
pub mod Accounts
pub mod Eviction
pub mod Contents
pub mod Refinement
pub mod Blocks
pub mod Publish
pub mod Reading
pub mod Served
pub mod Newest
mod Tests
use outpace.Prelude.{
  ℕ, zero, suc, ◌+◌, ◌-◌, ◌/◌, ◌%◌, max, Bool, true, false, Option, none, some, List, [], ◌∷◌,
  length, ltb, leb, ◌==◌, if◌then◌else◌, u16_mod, u64_mod,
}
use outpace.Prelude.Maps.{Map, insert, contains_key}
use outpace.Swarm.Memory
use outpace.Swarm.Memory.{
  MemoryBackend, put, get, header, backend_has_piece, backend_have_pieces, window, evict_lowest,
  zero_header,
}

pub data CompletePut : Type 0 where
  published already_present not_retained : CompletePut

pub record PieceStore : Type 0 where
  pub piece_length : ℕ
  pub chunk_length : ℕ
  pub max_bytes : ℕ
  pub cur_bytes : ℕ
  pub backend : MemoryBackend
  pub retention : Option ℕ
  pub first_seen : Map ℕ
  pub newest_seen : Option ℕ

unfoldable pub new : (piece_length chunk_length max_bytes : ℕ) → PieceStore
new piece_length chunk_length max_bytes = record {
  piece_length = piece_length;
  chunk_length = chunk_length;
  max_bytes = max_bytes;
  cur_bytes = 0;
  backend = record { pieces = []; headers = [] };
  retention = none;
  first_seen = [];
  newest_seen = none;
}

unfoldable pub with_retention : PieceStore → ℕ → PieceStore
with_retention s retention = record s {
  retention = if retention == 0 then none else some retention;
}

unfoldable pub chunks_per_piece : PieceStore → ℕ
chunks_per_piece s = s.piece_length / s.chunk_length % u16_mod

-- `first_seen.pop_first()`.
abbrev pub pop_first : Map ℕ → Map ℕ
pop_first [] = []
pop_first (_ ∷ m) = m

unfoldable pub evict_lowest_tracked : PieceStore → PieceStore × Option ℕ
unfolding evict_lowest
evict_lowest_tracked s =
    let (m, freed) = evict_lowest s.backend in
    elim freed [
      | none ↦ (s, none)
      | some n ↦ (record s { backend = m; first_seen = pop_first s.first_seen }, some n)
    ]

-- `while self.cur_bytes > self.max_bytes`. A turn takes a piece away or stops, so as many turns as
-- there are pieces are enough.
unfoldable pub evict_over_budget : ℕ → PieceStore → PieceStore
evict_over_budget zero s = s
evict_over_budget (suc fuel) s = elim (ltb s.max_bytes s.cur_bytes) [
  | false ↦ s
  | true ↦
      let (s', freed) = evict_lowest_tracked s in
      elim freed [
        | none ↦ s'
        | some n ↦ evict_over_budget fuel (record s' { cur_bytes = s'.cur_bytes - n })
      ]
]

-- Whether the oldest piece was seen so long before the newest one.
unfoldable pub is_aged : Map ℕ → (age newest : ℕ) → Bool
is_aged [] age newest = false
is_aged ((_, seen) ∷ _) age newest = leb age (newest - seen)

-- The loop of the age bound, with the same fuel.
unfoldable pub evict_aged : ℕ → (age newest : ℕ) → PieceStore → PieceStore
evict_aged zero age newest s = s
evict_aged (suc fuel) age newest s = elim (is_aged s.first_seen age newest) [
  | false ↦ s
  | true ↦
      let (s', freed) = evict_lowest_tracked s in
      elim freed [
        | none ↦ s'
        | some n ↦ evict_aged fuel age newest (record s' { cur_bytes = s'.cur_bytes - n })
      ]
]

unfoldable pub evict_by_age : PieceStore → PieceStore
unfolding evict_aged
evict_by_age s = elim s.retention [
  | none ↦ s
  | some age ↦ elim s.newest_seen [
    | none ↦ s
    | some newest ↦ evict_aged (length s.backend.pieces) age newest s
  ]
]

-- Both loops, as they follow a write.
unfoldable pub evict : PieceStore → PieceStore
unfolding evict_over_budget evict_by_age
evict s = evict_by_age (evict_over_budget (length s.backend.pieces) s)

-- `first_seen.entry(piece).or_insert(now)` and the newest instant, where there is an age bound.
unfoldable pub note_seen : PieceStore → (now piece : ℕ) → PieceStore
note_seen s now piece = record s {
  first_seen = elim s.retention [
    | none ↦ s.first_seen
    | some _ ↦
        if contains_key piece s.first_seen then s.first_seen else insert piece now s.first_seen
  ];
  newest_seen = elim s.retention [
    | none ↦ s.newest_seen
    | some _ ↦ some (elim s.newest_seen [ none ↦ now | some m ↦ max m now ])
  ];
}

-- The write itself, with its bytes counted, in front of the eviction.
unfoldable pub write_chunk :
    PieceStore → (now piece chunk : ℕ) → (header bytes : List ℕ) → PieceStore
unfolding put note_seen
write_chunk s now piece chunk header bytes =
    let (m, stored) = put s.backend piece chunk header bytes in
    let noted = note_seen (record s { backend = m }) now piece in
    record noted { cur_bytes = (noted.cur_bytes - stored.removed + stored.added) % u64_mod }

unfoldable pub put_chunk_with_header_at :
    PieceStore → (now piece chunk : ℕ) → (header bytes : List ℕ) → PieceStore
unfolding write_chunk evict
put_chunk_with_header_at s now piece chunk header bytes =
    if s.max_bytes == 0
    then s
    else if leb (s.piece_length / s.chunk_length) chunk
    then s
    else evict (write_chunk s now piece chunk header bytes)

unfoldable pub put_chunk : PieceStore → (now piece chunk : ℕ) → List ℕ → PieceStore
put_chunk s now piece chunk bytes = put_chunk_with_header_at s now piece chunk zero_header bytes

unfoldable pub piece_header : PieceStore → ℕ → Option (List ℕ)
unfolding header
piece_header s piece = header s.backend piece

unfoldable pub chunk : PieceStore → (piece chunk : ℕ) → Option (List ℕ)
unfolding get
chunk s piece index = get s.backend piece index

unfoldable pub has_piece : PieceStore → ℕ → Bool
unfolding backend_has_piece chunks_per_piece
has_piece s piece = backend_has_piece s.backend piece (chunks_per_piece s)

unfoldable pub have_pieces : PieceStore → List ℕ
unfolding backend_have_pieces chunks_per_piece
have_pieces s = backend_have_pieces s.backend (chunks_per_piece s)

unfoldable pub store_window : PieceStore → Option (ℕ × ℕ)
unfolding window
store_window s = window s.backend

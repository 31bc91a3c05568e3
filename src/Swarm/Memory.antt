-- ===== src/Swarm/Memory.antt =====
-- crates/ace-swarm/src/store.rs: the backend that keeps the pieces of a store in memory.
use outpace.Prelude.{
  ℕ, ◌%◌, Bool, false, not, ◌&&◌, Option, none, some, List, [], ◌∷◌, length, replicate, ◌==◌,
  if◌then◌else◌, list_eq, u16_mod,
}
use outpace.Prelude.Maps.{Map, lookup, insert, remove}
use outpace.Prelude.Totals.{total, size_or_zero}

pub record Stored : Type 0 where
  pub added : ℕ
  pub removed : ℕ

pub record MemoryBackend : Type 0 where
  pub pieces : Map (Map (List ℕ))
  pub headers : Map (List ℕ)

-- The bytes of a piece's chunks.
abbrev pub chunk_bytes : Map (List ℕ) → ℕ
chunk_bytes = total length

abbrev pub zero_header : List ℕ
zero_header = replicate 8 0

-- The header that a piece has after a write.
unfoldable pub upgraded : Option (List ℕ) → List ℕ → List ℕ
upgraded none header = header
upgraded (some stored) header =
    if list_eq stored zero_header && not (list_eq header zero_header) then header else stored

-- `entry(piece).or_default()`.
abbrev pub entry_or_default : Option (Map (List ℕ)) → Map (List ℕ)
entry_or_default none = []
entry_or_default (some chunks) = chunks

unfoldable pub put :
    MemoryBackend → (piece chunk : ℕ) → (header bytes : List ℕ) → MemoryBackend × Stored
unfolding upgraded
put m piece chunk header bytes =
    let chunks = entry_or_default (lookup piece m.pieces) in
    (
      record {
        pieces = insert piece (insert chunk bytes chunks) m.pieces;
        headers = insert piece (upgraded (lookup piece m.headers) header) m.headers;
      },
      record { added = length bytes; removed = size_or_zero length (lookup chunk chunks) },
    )

unfoldable pub get : MemoryBackend → (piece chunk : ℕ) → Option (List ℕ)
get m piece chunk = elim (lookup piece m.pieces) [ none ↦ none | some chunks ↦ lookup chunk chunks ]

unfoldable pub header : MemoryBackend → ℕ → Option (List ℕ)
header m piece = lookup piece m.headers

unfoldable pub backend_has_piece : MemoryBackend → (piece chunks_per_piece : ℕ) → Bool
backend_has_piece m piece chunks_per_piece = elim (lookup piece m.pieces) [
  | none ↦ false
  | some chunks ↦ length chunks % u16_mod == chunks_per_piece
]

-- `keys().filter(..)`.
unfoldable pub full_pieces : MemoryBackend → ℕ → Map (Map (List ℕ)) → List ℕ
unfolding backend_has_piece
full_pieces m chunks_per_piece [] = []
full_pieces m chunks_per_piece ((p, c) ∷ ps) =
    if backend_has_piece m p chunks_per_piece
    then p ∷ full_pieces m chunks_per_piece ps
    else full_pieces m chunks_per_piece ps

unfoldable pub backend_have_pieces : MemoryBackend → ℕ → List ℕ
unfolding full_pieces
backend_have_pieces m chunks_per_piece = full_pieces m chunks_per_piece m.pieces

-- `keys().next_back()`, after the key `k`.
unfoldable pub last_key : ℕ → Map (Map (List ℕ)) → ℕ
last_key k [] = k
last_key k ((j, c) ∷ ps) = last_key j ps

unfoldable pub window : MemoryBackend → Option (ℕ × ℕ)
unfolding last_key
window m = elim m.pieces [ [] ↦ none | (lo, c) ∷ ps ↦ some (lo, last_key lo ps) ]

unfoldable pub evict_lowest : MemoryBackend → MemoryBackend × Option ℕ
evict_lowest m = elim m.pieces [
  | [] ↦ (m, none)
  | (lowest, chunks) ∷ _ ↦ (
    record { pieces = remove lowest m.pieces; headers = remove lowest m.headers },
    some (chunk_bytes chunks),
  )
]

-- ===== src/Wire/Reassembly/Emit.antt =====
-- crates/ace-wire/src/reassembly.rs: completed pieces leave in the order of their indices.
use outpace.Prelude.{
  ℕ, zero, suc, ◌+◌, ◌-◌, ◌%◌, Option, none, some, List, [], ◌∷◌, ◌++◌, length, take, leb,
  if◌then◌else◌, u64_mod, checked_add,
}
use outpace.Prelude.Maps.{lookup, remove, retain}
use outpace.Wire.Reassembly.{PieceReassembler, ReadyPiece}

-- Media bytes of a completed piece: all but the trailer.
unfoldable pub media : PieceReassembler → List ℕ → List ℕ
media r bytes = take (length bytes - r.piece_trailer) bytes

unfoldable pub ready_piece : PieceReassembler → ℕ → Option (List ℕ)
ready_piece r index = elim (lookup index r.complete) [
  | none ↦ none
  | some done ↦ some (media r done.buf)
]

-- The iterator of `ready_chunks` from `next` on, cut after `fuel` items; the map has no more.
unfoldable pub ready_from : ℕ → PieceReassembler → ℕ → List (List ℕ)
ready_from zero r next = []
ready_from (suc fuel) r next = elim (lookup next r.complete) [
  | none ↦ []
  | some done ↦ elim (checked_add next 1) [
    | none ↦ []
    | some next' ↦ media r done.buf ∷ ready_from fuel r next'
  ]
]

unfoldable pub ready_chunks : PieceReassembler → List (List ℕ)
ready_chunks r = ready_from (length r.complete) r r.next_emit

unfoldable pub take_ready_piece : PieceReassembler → PieceReassembler × Option ReadyPiece
take_ready_piece r = elim (checked_add r.next_emit 1) [
  | none ↦ (r, none)
  | some next ↦ elim (lookup r.next_emit r.complete) [
    | none ↦ (r, none)
    | some done ↦ (
      record r { complete = remove r.next_emit r.complete; next_emit = next },
      some (record { index = r.next_emit; bytes = media r done.buf }),
    )
  ]
]

-- The loop of `take_ready`: each round takes a piece out of the map, so `length r.complete`
-- rounds are enough (`take_ready_drains` in Reassembly/Emission.antt).
unfoldable pub take_ready_loop : ℕ → PieceReassembler → List ℕ → PieceReassembler × List ℕ
take_ready_loop zero r out = (r, out)
take_ready_loop (suc fuel) r out = elim (lookup r.next_emit r.complete) [
  | none ↦ (r, out)
  | some done ↦
      take_ready_loop fuel
        (record r {
          complete = remove r.next_emit r.complete;
          next_emit = (r.next_emit + 1) % u64_mod;
        })
        (out ++ media r done.buf)
]

unfoldable pub take_ready : PieceReassembler → PieceReassembler × List ℕ
take_ready r = take_ready_loop (length r.complete) r []

unfoldable pub next_needed : PieceReassembler → ℕ
next_needed r = r.next_emit

unfoldable pub skip_to : PieceReassembler → ℕ → PieceReassembler
skip_to r piece = if leb piece r.next_emit then r else record r {
  next_emit = piece;
  partial = retain (λ idx. leb piece idx) r.partial;
  complete = retain (λ idx. leb piece idx) r.complete;
}

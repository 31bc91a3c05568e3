-- ===== src/Swarm/Store/Serving.antt =====
-- crates/ace-swarm/src/store.rs: whole pieces that are published, and byte blocks that are read.
use outpace.Prelude.{
  ℕ, zero, suc, ◌+◌, ◌-◌, ◌*◌, ◌/◌, ◌%◌, Bool, true, false, not, ◌||◌, Option, none, some, get_or,
  List, [], ◌++◌, length, take, drop, ltb, leb, ◌==◌, if◌then◌else◌, u16_mod, u32_mod, u64_mod,
  checked_add,
}
use outpace.Prelude.Maps.{Map, lookup, insert}
use outpace.Prelude.Totals.{size_or_zero}
use outpace.Swarm.Memory
use outpace.Swarm.Store
use outpace.Swarm.Store.{PieceStore, CompletePut, published, already_present, not_retained}
use outpace.Swarm.Memory.{chunk_bytes, zero_header}

abbrev pub max_bt_request_len : ℕ
max_bt_request_len = 16 * 1024

-- `chunks_exact(..).enumerate()` collected into a map, behind what is there already. A turn takes a
-- chunk of a positive length, so as many turns as there are bytes are enough.
unfoldable pub collect_chunks : ℕ → (chunk_length i : ℕ) → List ℕ → Map (List ℕ) → Map (List ℕ)
collect_chunks zero chunk_length i wire chunks = chunks
collect_chunks (suc fuel) chunk_length i wire chunks = elim (leb chunk_length (length wire)) [
  | false ↦ chunks
  | true ↦
      collect_chunks fuel chunk_length (suc i) (drop chunk_length wire)
        (insert (i % u16_mod) (take chunk_length wire) chunks)
]

-- The write of a whole piece, with its bytes counted, in front of the eviction.
unfoldable pub write_complete : PieceStore → (now piece : ℕ) → (header wire : List ℕ) → PieceStore
unfolding collect_chunks
write_complete s now piece header wire =
    let chunks = collect_chunks (length wire) s.chunk_length 0 wire [] in
    let removed = size_or_zero chunk_bytes (lookup piece s.backend.pieces) in
    let counted = record s {
      backend = record {
        pieces = insert piece chunks s.backend.pieces;
        headers = insert piece header s.backend.headers;
      };
      cur_bytes = (s.cur_bytes - removed + s.piece_length) % u64_mod;
    } in
    Store.note_seen counted now piece

unfoldable pub put_complete_memory :
    PieceStore → (now piece : ℕ) → (header wire : List ℕ) → PieceStore × CompletePut
unfolding write_complete
put_complete_memory s now piece header wire =
    if Memory.backend_has_piece s.backend piece (s.piece_length / s.chunk_length % u16_mod)
    then (s, already_present)
    else (let s' = Store.evict (write_complete s now piece header wire) in
        (s', if Store.has_piece s' piece then published else not_retained))

-- The geometry that `begin_complete_admission` refuses.
unfoldable pub bad_geometry : PieceStore → (wire_len : ℕ) → Bool
bad_geometry s wire_len =
    (s.piece_length == 0)
    || ((s.chunk_length == 0)
        || (not (s.piece_length % s.chunk_length == 0)
            || (ltb (u16_mod - 1) (s.piece_length / s.chunk_length)
                || (not (s.piece_length == wire_len) || leb u32_mod s.chunk_length))))

-- `none` is the error of invalid input.
unfoldable pub shared_put_complete_piece :
    PieceStore → (now piece : ℕ) → (header wire : List ℕ) → PieceStore × Option CompletePut
unfolding bad_geometry put_complete_memory
shared_put_complete_piece s now piece header wire =
    if bad_geometry s (length wire)
    then (s, none)
    else if ltb s.max_bytes s.piece_length
    then (s, some not_retained)
    else (let (s', result) = put_complete_memory s now piece header wire in (s', some result))

unfoldable pub shared_put_chunk_with_header :
    PieceStore → (now piece chunk : ℕ) → (header bytes : List ℕ) → PieceStore
shared_put_chunk_with_header s now piece chunk header bytes =
    if (s.max_bytes == 0) || leb (s.piece_length / s.chunk_length) chunk
    then s
    else Store.put_chunk_with_header_at s now piece chunk header bytes

unfoldable pub shared_serving_chunk : PieceStore → (piece chunk : ℕ) → Option (List ℕ × List ℕ)
shared_serving_chunk s piece index = elim (Store.chunk s piece index) [
  | none ↦ none
  | some bytes ↦ some (bytes, get_or (Store.piece_header s piece) zero_header)
]

-- `for chunk in first..last`, with `n` chunks to go.
unfoldable pub read_chunks : ℕ → PieceStore → (piece index : ℕ) → Option (List ℕ)
unfolding shared_serving_chunk
read_chunks zero s piece index = some []
read_chunks (suc n) s piece index =
    let rest = read_chunks n s piece (suc index) in
    if leb u16_mod index then none else elim (shared_serving_chunk s piece index) [
      | none ↦ none
      | some (bytes, _) ↦ elim rest [ none ↦ none | some more ↦ some (bytes ++ more) ]
    ]

-- `piece_bytes.get(offset..offset + length)`.
unfoldable pub slice : List ℕ → (offset len : ℕ) → Option (List ℕ)
slice bytes offset len =
    if ltb (length bytes) (offset + len) then none else some (take len (drop offset bytes))

unfoldable pub shared_block : PieceStore → (piece begin len : ℕ) → Option (List ℕ)
unfolding read_chunks slice
shared_block s piece begin len =
    if (len == 0) || ltb max_bt_request_len len then none else elim (checked_add begin len) [
      | none ↦ none
      | some end ↦
          if ltb s.piece_length end
          then none
          else (let first = begin / s.chunk_length in
              let last = (end + (s.chunk_length - 1)) / s.chunk_length in
              elim (read_chunks (last - first) s piece first) [
                | none ↦ none
                | some bytes ↦ slice bytes (begin % s.chunk_length) len
              ])
    ]

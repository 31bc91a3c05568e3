-- ===== src/Swarm/Store/Tests.antt =====
-- Runs of crates/ace-swarm/src/store.rs, and its theorems at a store of pieces of two chunks.
use outpace.Prelude.{length, get_elem?, ◌≤◌, ℕ, ◌≡◌, refl, some, none, [], ◌∷◌, ◌+◌, ◌*◌, arith}
use outpace.Prelude.Maps.{lookup, insert, remove, retain, contains_key}
use outpace.Swarm.Memory
use outpace.Swarm.Store
use outpace.Swarm.Store.{PieceStore, published, not_retained, already_present}
use outpace.Swarm.Store.Serving
use outpace.Swarm.Store.Contents.{IsValid, table_of, write}
use outpace.Swarm.Store.Refinement.{Forgets, put_chunk-refines-write}
use outpace.Swarm.Store.Reading.{shared_block-shared_put_complete_piece}
use outpace.Swarm.Store.Served.{IsWhole, stored_byte, shared_block-stored_byte}
use outpace.Swarm.Store.Newest.{shared_put_complete_piece_publishes}

program : Unit {0}
unfolding Store.new Store.with_retention Store.put_chunk_with_header_at Store.write_chunk Memory.put
    Memory.upgraded Store.note_seen Store.evict Store.evict_over_budget Store.evict_by_age
    Store.evict_aged Store.is_aged Store.evict_lowest_tracked Memory.evict_lowest Store.has_piece
    Memory.backend_has_piece Store.chunks_per_piece Store.chunk Memory.get Store.piece_header
    Memory.header Store.have_pieces Memory.backend_have_pieces Memory.full_pieces Store.store_window
    Memory.window Memory.last_key Serving.shared_put_complete_piece Serving.put_complete_memory
    Serving.write_complete Serving.collect_chunks Serving.bad_geometry Serving.shared_block
    Serving.read_chunks Serving.shared_serving_chunk Serving.slice lookup insert remove retain
    contains_key
program = tt

-- Two pieces of two chunks of two bytes fit.
abbrev fresh : PieceStore
fresh = record {
  piece_length = 4;
  chunk_length = 2;
  max_bytes = 8;
  cur_bytes = 0;
  backend = record { pieces = []; headers = [] };
  retention = none;
  first_seen = [];
  newest_seen = none;
}

fresh_is_new : Store.new 4 2 8 ≡ fresh
unfolding program
fresh_is_new = refl

abbrev piece_at : ℕ → PieceStore → PieceStore
piece_at piece s =
    (Serving.shared_put_complete_piece s piece piece Memory.zero_header
      ((10 * piece) ∷ (10 * piece + 1) ∷ (10 * piece + 2) ∷ (10 * piece + 3) ∷ [])).0

-- The third piece drives out the first.
rolling : Store.have_pieces (piece_at 3 (piece_at 2 (piece_at 1 fresh))) ≡ 2 ∷ 3 ∷ []
unfolding program
rolling = refl

rolling_window : Store.store_window (piece_at 3 (piece_at 2 (piece_at 1 fresh))) ≡ some (2, 3)
unfolding program
rolling_window = refl

-- A piece below the others is driven out at once.
too_old :
    (Serving.shared_put_complete_piece
      (piece_at 3 (piece_at 2 fresh))
      9
      1
      Memory.zero_header
      (1 ∷ 2 ∷ 3 ∷ 4 ∷ [])).1
    ≡ some not_retained
unfolding program
too_old = refl

-- An age bound of two instants drives out the first piece although the budget has room.
aged :
    Store.have_pieces (piece_at 3 (piece_at 1 (Store.with_retention (Store.new 4 2 80) 2))) ≡ 3 ∷ []
unfolding program
aged = refl

across_chunks : Serving.shared_block (piece_at 2 fresh) 2 1 2 ≡ some (21 ∷ 22 ∷ [])
unfolding program
across_chunks = refl

fresh-IsValid : IsValid fresh
fresh-IsValid = record {
  balanced = record {
    ordered = tt;
    in_range = tt;
    counted = refl;
    headed = refl;
    seen = λ age e. refl;
  };
  in_budget = omega arith;
}

put_chunk-refines-write_example :
    let t = Store.put_chunk_with_header_at fresh 0 5 1 Memory.zero_header (7 ∷ 8 ∷ []) in
    IsValid t × Forgets (write 5 1 (7 ∷ 8 ∷ []) (table_of fresh)) (table_of t)
put_chunk-refines-write_example =
    put_chunk-refines-write fresh 0 5 1 Memory.zero_header (7 ∷ 8 ∷ []) fresh-IsValid (omega arith)
      (omega arith) (omega arith) (omega arith)

one_published :
    (Serving.shared_put_complete_piece fresh 0 1 Memory.zero_header (10 ∷ 11 ∷ 12 ∷ 13 ∷ [])).1
    ≡ some published
unfolding program
one_published = refl

shared_block-shared_put_complete_piece_example :
    Serving.shared_block
      (Serving.shared_put_complete_piece fresh 0 1 Memory.zero_header (10 ∷ 11 ∷ 12 ∷ 13 ∷ [])).0
      1
      1
      2
    ≡ some (11 ∷ 12 ∷ [])
shared_block-shared_put_complete_piece_example =
    shared_block-shared_put_complete_piece fresh 0 1 Memory.zero_header (10 ∷ 11 ∷ 12 ∷ 13 ∷ []) 1 2
      fresh-IsValid (omega arith) (omega arith) one_published (omega arith) (omega arith)
      (omega arith)

piece_at-IsWhole : IsWhole (piece_at 2 fresh) 2
unfolding program
piece_at-IsWhole i bytes e = ground arith

shared_block-stored_byte_example :
    (length {A = ℕ} (21 ∷ 22 ∷ []) ≡ 2)
    × (2 ≤ Serving.max_bt_request_len)
    × (1 + 2 ≤ 4)
    × (get_elem? (21 ∷ 22 ∷ []) 1 ≡ stored_byte (piece_at 2 fresh) 2 2)
unfolding program
shared_block-stored_byte_example =
    shared_block-stored_byte (piece_at 2 fresh) 2 1 2 1 (omega arith) piece_at-IsWhole across_chunks
      (omega arith)

shared_put_complete_piece_publishes_example :
    (Serving.shared_put_complete_piece fresh 0 1 Memory.zero_header (10 ∷ 11 ∷ 12 ∷ 13 ∷ [])).1
    ≡ some published
unfolding Serving.bad_geometry Store.has_piece Memory.backend_has_piece lookup
shared_put_complete_piece_publishes_example =
    shared_put_complete_piece_publishes fresh 0 1 Memory.zero_header (10 ∷ 11 ∷ 12 ∷ 13 ∷ [])
      fresh-IsValid refl (omega arith) (omega arith) refl (omega arith) refl tt

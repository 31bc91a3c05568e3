-- ===== src/Swarm/Store/Contents.antt =====
-- crates/ace-swarm/src/store.rs: what a store holds after a write, against a table of chunks.
use outpace.Prelude.{
  ℕ, ◌+◌, ◌-◌, ◌/◌, ◌%◌, ◌≤◌, ◌<◌, ◌≡◌, refl, sym, ◌∙◌, ◌&&◌, Option, none, some, List, [], ◌∷◌,
  length, ltb, ◌==◌, if◌then◌else◌, Bool-cases, Option-cases, inl, inr, u64_mod, arith,
}
use outpace.Prelude.Maps.{
  Map, keys, lookup, insert, contains_key, lookup-insert, Between, insert-Between,
}
use outpace.Prelude.Totals.{
  total, size_or_zero, total-insert, lookup-le-total, keys-insert, keys-insert_known, keys-contains,
}
use outpace.Swarm.Memory
use outpace.Swarm.Store
use outpace.Swarm.Store.{PieceStore}
use outpace.Swarm.Memory.{chunk_bytes, entry_or_default}
use outpace.Swarm.Store.Accounts.{IsBalanced, ChunksInRange}

lookup-ChunksInRange :
    (count k : ℕ) (m : Map (Map (List ℕ)))
    → ChunksInRange count m
    → Between 0 count (entry_or_default (lookup k m))
unfolding lookup
lookup-ChunksInRange count k [] h = tt
lookup-ChunksInRange count k ((j, chunks) ∷ m) h = elim (Bool-cases (j == k)) [
  | inl here ↦ rw here h.0
  | inr later ↦ rw later (lookup-ChunksInRange count k m h.1)
]

insert-ChunksInRange :
    (count k : ℕ) (chunks : Map (List ℕ)) (m : Map (Map (List ℕ)))
    → Between 0 count chunks
    → ChunksInRange count m
    → ChunksInRange count (insert k chunks m)
unfolding insert
insert-ChunksInRange count k chunks [] b h = (b, tt)
insert-ChunksInRange count k chunks ((j, w) ∷ m) b h =
    ground (arith, insert-ChunksInRange count k chunks m)

-- The sizes of an old entry agree, whether it is missing or empty.
pub default_size :
    (o : Option (Map (List ℕ))) → size_or_zero chunk_bytes o ≡ chunk_bytes (entry_or_default o)
default_size none = refl
default_size (some chunks) = refl

note_seen-keys :
    (s : PieceStore) (now piece : ℕ) (m : Map (Map (List ℕ))) (chunks : Map (List ℕ))
    → Between 0 u64_mod m
    → ((age : ℕ) → s.retention ≡ some age → keys s.first_seen ≡ keys m)
    → (age : ℕ) → s.retention ≡ some age
    → keys (Store.note_seen s now piece).first_seen ≡ keys (insert piece chunks m)
unfolding Store.note_seen
note_seen-keys s now piece m chunks b same age e =
    let seen = same age e in
    elim (Bool-cases (contains_key piece s.first_seen)) [
      | inl known ↦
          let there = sym (keys-contains piece s.first_seen m seen) ∙ known in
          rw (e, known, Store.note_seen)
            (seen ∙ sym (keys-insert_known 0 u64_mod piece chunks m b there))
      | inr fresh ↦
          rw (e, fresh, Store.note_seen) (keys-insert piece now chunks s.first_seen m seen)
    ]

-- The store with the chunks, the header and the first instant of one piece written.
abbrev pub rewritten : PieceStore → (now piece : ℕ) → Map (List ℕ) → List ℕ → ℕ → PieceStore
rewritten s now piece chunks header n =
    Store.note_seen
      (record s {
        backend = record {
          pieces = insert piece chunks s.backend.pieces;
          headers = insert piece header s.backend.headers;
        };
        cur_bytes = n;
      })
      now piece

pub rewritten-IsBalanced :
    (s : PieceStore) (now piece : ℕ) (chunks : Map (List ℕ)) (header : List ℕ) (n : ℕ)
    → IsBalanced s
    → piece < u64_mod
    → Between 0 (s.piece_length / s.chunk_length) chunks
    → n ≡ total chunk_bytes (insert piece chunks s.backend.pieces)
    → IsBalanced (rewritten s now piece chunks header n)
rewritten-IsBalanced s now piece chunks header n v small b count =
    let seen =
      note_seen-keys
        (record s {
          backend = record {
            pieces = insert piece chunks s.backend.pieces;
            headers = insert piece header s.backend.headers;
          };
          cur_bytes = n;
        })
        now piece s.backend.pieces chunks v.ordered v.seen in
    unfold Store.note_seen in
    record {
      ordered =
          insert-Between 0 u64_mod piece chunks s.backend.pieces (omega arith) small v.ordered;
      in_range =
          insert-ChunksInRange (s.piece_length / s.chunk_length) piece chunks s.backend.pieces b
            v.in_range;
      counted = count;
      headed = keys-insert piece header chunks s.backend.headers s.backend.pieces v.headed;
      seen = unfold Store.note_seen in seen;
    }

-- The chunks that a piece has after one is written.
abbrev pub written_chunks : PieceStore → (piece chunk : ℕ) → List ℕ → Map (List ℕ)
written_chunks s piece chunk bytes =
    insert chunk bytes (entry_or_default (lookup piece s.backend.pieces))

pub write_chunk-IsBalanced :
    (s : PieceStore) (now piece chunk : ℕ) (header bytes : List ℕ)
    → IsBalanced s
    → piece < u64_mod
    → chunk < s.piece_length / s.chunk_length
    → s.cur_bytes + length bytes < u64_mod
    → IsBalanced (Store.write_chunk s now piece chunk header bytes)
unfolding Store.write_chunk Memory.put
write_chunk-IsBalanced s now piece chunk header bytes v small inside fits =
    let count = s.piece_length / s.chunk_length in
    let old = entry_or_default (lookup piece s.backend.pieces) in
    let range : Between 0 count old =
      lookup-ChunksInRange count piece s.backend.pieces v.in_range in
    let added = total-insert length 0 count chunk bytes old range in
    let moved =
      total-insert chunk_bytes 0 u64_mod piece (written_chunks s piece chunk bytes) s.backend.pieces
        v.ordered in
    let same = default_size (lookup piece s.backend.pieces) in
    let kept : size_or_zero length (lookup chunk old) ≤ s.cur_bytes = omega (
      arith,
      lookup-le-total length chunk old,
      lookup-le-total chunk_bytes piece s.backend.pieces,
      v.counted,
    ) in
    let exact : (s.cur_bytes - size_or_zero length (lookup chunk old) + length bytes) % u64_mod
        ≡ total chunk_bytes (insert piece (written_chunks s piece chunk bytes) s.backend.pieces) =
      omega (arith, v.counted) in
    rewritten-IsBalanced s now piece (written_chunks s piece chunk bytes)
      (Memory.upgraded (lookup piece s.backend.headers) header) _ v small
      (insert-Between 0 count chunk bytes old (omega arith) inside range) exact

-- A store whose books are right and that is within its budget.
pub record IsValid (s : PieceStore) : Type 0 where
  pub balanced : IsBalanced s
  pub in_budget : s.cur_bytes ≤ s.max_bytes

-- The abstract view of a store: the bytes of each chunk of each piece.
abbrev pub Table : Type 0
Table = (piece chunk : ℕ) → Option (List ℕ)

abbrev pub table_of : PieceStore → Table
table_of s = Store.chunk s

-- One chunk is written; all pieces below the floor are forgotten.
abbrev pub write : ℕ → ℕ → List ℕ → Table → Table
write piece chunk bytes t p c = if (p == piece) && (c == chunk) then some bytes else t p c

abbrev pub forget_below : ℕ → Table → Table
forget_below floor t p c = if ltb p floor then none else t p c

pub chunk-write_chunk :
    (s : PieceStore) (now piece index : ℕ) (header bytes : List ℕ) (p c : ℕ)
    → table_of (Store.write_chunk s now piece index header bytes) p c
      ≡ write piece index bytes (table_of s) p c
unfolding Store.chunk Memory.get Store.write_chunk Memory.put Store.note_seen lookup
chunk-write_chunk s now piece index header bytes p c =
    let old = entry_or_default (lookup piece s.backend.pieces) in
    let found = lookup-insert p piece (insert index bytes old) s.backend.pieces in
    elim (Option-cases (lookup piece s.backend.pieces)) [
      | inl e ↦ ground (arith, found, lookup-insert c index bytes old)
      | inr (chunks, e) ↦ ground (arith, found, lookup-insert c index bytes old)
    ]

pub chunk_floor :
    (s t : PieceStore) (floor : ℕ)
    → ((k : ℕ)
        → lookup k t.backend.pieces ≡ (if ltb k floor then none else lookup k s.backend.pieces))
    → (p c : ℕ) → table_of t p c ≡ forget_below floor (table_of s) p c
unfolding Store.chunk Memory.get
chunk_floor s t floor same p c = ground (arith, same p)

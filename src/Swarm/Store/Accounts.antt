-- ===== src/Swarm/Store/Accounts.antt =====
-- crates/ace-swarm/src/store.rs: the books of a store. Its byte count is exact, and the maps of
-- headers and of first instants have an entry for exactly the pieces that are held.
use outpace.Prelude.{
  ℕ, suc, ◌+◌, ◌-◌, ◌/◌, ◌≡◌, sym, ap, ◌∙◌, subst, none, some, List, [], ◌∷◌, u64_mod, arith,
}
use outpace.Prelude.Maps.{Map, keys, remove, Between, Between-mono}
use outpace.Prelude.Totals.{total, remove_lowest, keys-Between}
use outpace.Swarm.Memory
use outpace.Swarm.Store
use outpace.Swarm.Store.{PieceStore, pop_first}
use outpace.Swarm.Memory.{MemoryBackend, Stored, chunk_bytes}

-- The keys of a piece's chunks are the chunks of the store's geometry.
abbrev pub ChunksInRange : ℕ → Map (Map (List ℕ)) → Type 0
ChunksInRange count [] = Unit {0}
ChunksInRange count ((k, chunks) ∷ m) = Between 0 count chunks × ChunksInRange count m

-- Everything but the budget.
pub record IsBalanced (s : PieceStore) : Type 0 where
  pub ordered : Between 0 u64_mod s.backend.pieces
  pub in_range : ChunksInRange (s.piece_length / s.chunk_length) s.backend.pieces
  pub counted : s.cur_bytes ≡ total chunk_bytes s.backend.pieces
  pub headed : keys s.backend.headers ≡ keys s.backend.pieces
  pub seen : (age : ℕ) → s.retention ≡ some age → keys s.first_seen ≡ keys s.backend.pieces

-- The state after the lowest piece has left, its bytes discounted.
abbrev pub without_lowest : PieceStore → ℕ → Map (List ℕ) → Map (Map (List ℕ)) → PieceStore
without_lowest s k chunks ps = record s {
  backend = record { pieces = ps; headers = remove k s.backend.headers };
  first_seen = pop_first s.first_seen;
  cur_bytes = s.cur_bytes - chunk_bytes chunks;
}

-- What the two steps of an eviction do to a store that holds a piece.
pub evict_lowest_tracked-some :
    {s : PieceStore} {k : ℕ} {chunks : Map (List ℕ)} {ps : Map (Map (List ℕ))}
    → IsBalanced s
    → s.backend.pieces ≡ (k, chunks) ∷ ps
    → Store.evict_lowest_tracked s ≡ (
      record s {
        backend = record { pieces = ps; headers = remove k s.backend.headers };
        first_seen = pop_first s.first_seen;
      },
      some (chunk_bytes chunks),
    )
unfolding Store.evict_lowest_tracked Memory.evict_lowest
evict_lowest_tracked-some {s} {k} {chunks} {ps} v e =
    let b : Between 0 u64_mod ((k, chunks) ∷ ps) = subst (Between 0 u64_mod) e v.ordered in
    ground (arith, remove_lowest 0 u64_mod k chunks ps b)

pub evict_lowest_tracked-none :
    {s : PieceStore} → s.backend.pieces ≡ [] → Store.evict_lowest_tracked s ≡ (s, none)
unfolding Store.evict_lowest_tracked Memory.evict_lowest
evict_lowest_tracked-none {s} e = ground arith

keys-remove_lowest :
    {V : Type 0} (k : ℕ) (chunks : Map (List ℕ)) (ps : Map (Map (List ℕ))) (m : Map V)
    → keys m ≡ k ∷ keys ps
    → Between 0 u64_mod ((k, chunks) ∷ ps)
    → keys (remove k m) ≡ keys ps
keys-remove_lowest k chunks ps [] e b = absurd (cc e)
keys-remove_lowest k chunks ps ((j, v) ∷ m) e b =
    let here : k ≡ j = cc e in
    let rest : keys m ≡ keys ps = cc e in
    let ordered = keys-Between 0 u64_mod ((k, chunks) ∷ ps) ((j, v) ∷ m) (sym e) b in
    rw here (rw (remove_lowest 0 u64_mod j v m ordered) rest)

keys-pop_first : (k : ℕ) (ks : List ℕ) (m : Map ℕ) → keys m ≡ k ∷ ks → keys (pop_first m) ≡ ks
keys-pop_first k ks [] e = absurd (cc e)
keys-pop_first k ks ((j, v) ∷ m) e = cc e

-- The books stay exact when the lowest piece leaves.
pub without_lowest-IsBalanced :
    {s : PieceStore} (k : ℕ) (chunks : Map (List ℕ)) (ps : Map (Map (List ℕ)))
    → IsBalanced s
    → s.backend.pieces ≡ (k, chunks) ∷ ps
    → IsBalanced (without_lowest s k chunks ps)
without_lowest-IsBalanced {s} k chunks ps v e =
    let b : Between 0 u64_mod ((k, chunks) ∷ ps) = subst (Between 0 u64_mod) e v.ordered in
    let bytes : total chunk_bytes s.backend.pieces ≡ chunk_bytes chunks + total chunk_bytes ps =
      ap (total chunk_bytes) e in
    let ks : keys s.backend.pieces ≡ k ∷ keys ps = ap keys e in
    record {
      ordered = Between-mono (suc k) u64_mod 0 u64_mod ps (omega arith) (omega arith) b.2;
      in_range = (subst (ChunksInRange (s.piece_length / s.chunk_length)) e v.in_range).1;
      counted = omega (arith, v.counted);
      headed = keys-remove_lowest k chunks ps s.backend.headers (v.headed ∙ ks) b;
      seen = λ age r. keys-pop_first k (keys ps) s.first_seen (v.seen age r ∙ ks);
    }

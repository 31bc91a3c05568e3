-- ===== src/Swarm/Store/Newest.antt =====
-- crates/ace-swarm/src/store.rs: the newest piece stays when older ones are driven out.
use outpace.Prelude.{
  ℕ, zero, suc, ◌+◌, ◌≤◌, ◌<◌, ◌≡◌, refl, sym, ap, ◌∙◌, subst, true, false, none, some, List, [],
  ◌∷◌, length, ltb, ◌==◌, Bool-cases, inl, inr, u64_mod, arith, ==_refl, ltb_of_le,
}
use outpace.Prelude.Maps.{Map, lookup, lookup-insert, Between, Between-mono, insert-Between}
use outpace.Prelude.Totals.{total, Map-cases}
use outpace.Swarm.Store
use outpace.Swarm.Store.{PieceStore, published}
use outpace.Swarm.Memory.{chunk_bytes}
use outpace.Swarm.Store.Serving
use outpace.Swarm.Store.Contents.{IsValid}
use outpace.Swarm.Store.Publish.{
  Geometry, bad_geometry-Geometry, wire_chunks, wire_chunks-Between, write_complete-IsBalanced,
  write_complete-fields, has_piece_of_lookup,
}
use outpace.Swarm.Store.Accounts.{IsBalanced, without_lowest, without_lowest-IsBalanced}
use outpace.Swarm.Store.Eviction.{
  over_budget_turn, over_budget_stop, empty_in_budget, by_age_off, Left-SameShape,
  evict_over_budget-Left,
}

-- The store holds these chunks for its highest piece, and they fit its budget.
pub record Newest (s : PieceStore) (piece : ℕ) (chunks : Map (List ℕ)) : Type 0 where
  pub held : lookup piece s.backend.pieces ≡ some chunks
  pub highest : Between 0 (suc piece) s.backend.pieces
  pub fits : chunk_bytes chunks ≤ s.max_bytes

in_rest :
    (piece k : ℕ) (cs chunks : Map (List ℕ)) (ps : Map (Map (List ℕ)))
    → Between 0 (suc piece) ((k, cs) ∷ ps)
    → lookup piece ((k, cs) ∷ ps) ≡ some chunks
    → (limit : ℕ) → chunk_bytes chunks ≤ limit
    → limit < chunk_bytes cs + total chunk_bytes ps
    → lookup piece ps ≡ some chunks
unfolding lookup
in_rest piece k cs chunks [] b found limit fits over = elim (Bool-cases (k == piece)) [
  | inl here ↦
      let same : cs ≡ chunks = ground arith in
      let inner : chunk_bytes cs ≡ chunk_bytes chunks = ap chunk_bytes same in
      absurd (omega (arith, inner))
  | inr other ↦ absurd (cc (found, other))
]
in_rest piece k cs chunks ((j, w) ∷ ps) b found limit fits over = ground arith

-- The lowest piece is another one while the store is over its budget.
lowest_other :
    {s : PieceStore} {piece k : ℕ} {chunks cs : Map (List ℕ)} {ps : Map (Map (List ℕ))}
    → IsBalanced s
    → Newest s piece chunks
    → ltb s.max_bytes s.cur_bytes ≡ true
    → s.backend.pieces ≡ (k, cs) ∷ ps
    → Newest (without_lowest s k cs ps) piece chunks
lowest_other {s} {piece} {k} {chunks} {cs} {ps} v n over e =
    let b : Between 0 (suc piece) ((k, cs) ∷ ps) = subst (Between 0 (suc piece)) e n.highest in
    let found : lookup piece ((k, cs) ∷ ps) ≡ some chunks = ap (lookup piece) (sym e) ∙ n.held in
    let bytes : s.cur_bytes ≡ chunk_bytes cs + total chunk_bytes ps =
      v.counted ∙ ap (total chunk_bytes) e in
    record {
      held = in_rest piece k cs chunks ps b found s.max_bytes n.fits (ground arith);
      highest = Between-mono (suc k) (suc piece) 0 (suc piece) ps (omega arith) (omega arith) b.2;
      fits = n.fits;
    }

evict_over_budget-Newest :
    (fuel : ℕ) (s : PieceStore) (piece : ℕ) (chunks : Map (List ℕ))
    → IsBalanced s
    → Newest s piece chunks
    → Newest (Store.evict_over_budget fuel s) piece chunks
evict_over_budget-Newest zero s piece chunks v n = unfold Store.evict_over_budget in n
evict_over_budget-Newest (suc fuel) s piece chunks v n =
    elim (Bool-cases (ltb s.max_bytes s.cur_bytes)) [
      | inr within ↦ rw (over_budget_stop (suc fuel) {s = s} within) n
      | inl over ↦ elim (Map-cases s.backend.pieces) [
        | inl e ↦ absurd (let within = empty_in_budget v e in cc)
        | inr (k, cs, ps, e) ↦ rw (over_budget_turn fuel v over e) (
            evict_over_budget-Newest fuel (without_lowest s k cs ps) piece chunks
              (without_lowest-IsBalanced k cs ps v e) (lowest_other v n over e))
      ]
    ]

write_complete-Newest :
    (s : PieceStore) (now piece : ℕ) (header wire : List ℕ)
    → Geometry s wire
    → s.piece_length ≤ s.max_bytes
    → Between 0 (suc piece) s.backend.pieces
    → Newest (Serving.write_complete s now piece header wire) piece (wire_chunks s wire)
unfolding Serving.write_complete Store.note_seen
write_complete-Newest s now piece header wire g budget below =
    let (range, bytes) = wire_chunks-Between s wire g in
    record {
      held =
          lookup-insert piece piece (wire_chunks s wire) s.backend.pieces ∙ rw (==_refl piece) refl;
      highest =
          insert-Between 0 (suc piece) piece (wire_chunks s wire) s.backend.pieces (omega arith)
            (omega arith) below;
      fits = omega (arith, bytes);
    }

write_complete-retention :
    (s : PieceStore) (now piece : ℕ) (header wire : List ℕ)
    → (Serving.write_complete s now piece header wire).retention ≡ s.retention
unfolding Serving.write_complete Store.note_seen
write_complete-retention s now piece header wire = refl

-- Without an age bound the eviction is the loop on bytes.
evict_by_bytes :
    (w : PieceStore)
    → IsBalanced w
    → w.retention ≡ none
    → Store.evict w ≡ Store.evict_over_budget (length w.backend.pieces) w
unfolding Store.evict
evict_by_bytes w v e =
    let (left, small) = evict_over_budget-Left (length w.backend.pieces) w v (omega arith) in
    by_age_off _ (inl ((Left-SameShape left).retention ∙ e))

result_of_steps :
    (s : PieceStore) (now piece : ℕ) (header wire : List ℕ)
    → Serving.bad_geometry s (length wire) ≡ false
    → s.piece_length ≤ s.max_bytes
    → Store.has_piece s piece ≡ false
    → Store.has_piece (Store.evict (Serving.write_complete s now piece header wire)) piece ≡ true
    → (Serving.shared_put_complete_piece s now piece header wire).1 ≡ some published
unfolding Serving.shared_put_complete_piece Serving.put_complete_memory Store.has_piece
    Store.chunks_per_piece
result_of_steps s now piece header wire good budget new held =
    rw (good, ltb_of_le s.max_bytes s.piece_length budget, new, held) refl

-- A valid store without an age bound publishes every piece with a u64 index that passes the checks of the geometry, fits its
-- budget, is not held in full yet and is not below a piece that is held, whatever older pieces have
-- to go, where the bytes of the two stay below 2 ^ 64.
pub shared_put_complete_piece_publishes :
    (s : PieceStore) (now piece : ℕ) (header wire : List ℕ)
    → IsValid s
    → s.retention ≡ none
    → piece < u64_mod
    → s.max_bytes + length wire < u64_mod
    → Serving.bad_geometry s (length wire) ≡ false
    → s.piece_length ≤ s.max_bytes
    → Store.has_piece s piece ≡ false
    → Between 0 (suc piece) s.backend.pieces
    → (Serving.shared_put_complete_piece s now piece header wire).1 ≡ some published
shared_put_complete_piece_publishes s now piece header wire v ageless small fits good budget new
      below =
    let w = Serving.write_complete s now piece header wire in
    let g = bad_geometry-Geometry s wire good in
    let wv : IsBalanced w =
      write_complete-IsBalanced s now piece header wire v.balanced g small
        (omega (arith, v.in_budget)) in
    let fuel = length w.backend.pieces in
    let kept =
      evict_over_budget-Newest fuel w piece (wire_chunks s wire) wv
        (write_complete-Newest s now piece header wire g budget below) in
    let bytes = evict_by_bytes w wv (write_complete-retention s now piece header wire ∙ ageless) in
    let (left, within) = evict_over_budget-Left fuel w wv (omega arith) in
    let shape = Left-SameShape left in
    let (pl, cl, mb) = write_complete-fields s now piece header wire in
    result_of_steps s now piece header wire good budget new (
      subst (λ t. Store.has_piece t piece ≡ true) (sym bytes)
        (has_piece_of_lookup (Store.evict_over_budget fuel w) s piece wire g
          (shape.piece_length ∙ pl) (shape.chunk_length ∙ cl) kept.held))

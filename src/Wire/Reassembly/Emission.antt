-- ===== src/Wire/Reassembly/Emission.antt =====
-- crates/ace-wire/src/reassembly.rs: what leaves the reassembler, and what stays valid.
use outpace.Prelude.{
  ℕ, zero, suc, ◌+◌, ◌≤◌, ◌<◌, ◌%◌, ◌≡◌, refl, true, not, none, some, List, [], ◌++◌, length, arith,
  ltb, leb, ◌==◌, if-elim, saturating_add, u64_mod, u64_max, inl, inr, Bool-cases, Option-cases,
}
use outpace.Prelude.Maps.{
  Map, lookup, remove, retain, Between, Between-mono, Between-suc, retain-Between, lookup-Between,
  length-remove-lt, lookup_of_empty, lookup-remove, lookup-retain,
}
use outpace.Wire.Reassembly.{PieceReassembler, Complete}
use outpace.Wire.Reassembly.Emit.{media, take_ready_piece, take_ready_loop, take_ready, skip_to}
use outpace.Wire.Reassembly.Invariant.{IsValid, window_end}

-- The state after the piece at the cursor has left.
abbrev pub advance : PieceReassembler → PieceReassembler
advance r = record r { complete = remove r.next_emit r.complete; next_emit = r.next_emit + 1 }

pub cursor-lt :
    {r : PieceReassembler} {c : Complete}
    → IsValid r
    → lookup r.next_emit r.complete ≡ some c
    → r.next_emit < u64_max
cursor-lt {r} {c} v e =
    omega
      (arith, lookup-Between r.next_emit (window_end r) r.next_emit r.complete v.complete_keys e)

after_remove :
    {V : Type 0} (n hi hi' : ℕ) (m : Map V)
    → hi ≤ hi'
    → Between n hi m
    → Between (n + 1) hi' (remove n m)
unfolding remove
after_remove n hi hi' m h b =
    Between-mono (n + 1) hi (n + 1) hi' (retain (λ j. not (j == n)) m) (omega arith) h
      (retain-Between n hi (n + 1) (λ j. not (j == n)) m (λ k p t. ground arith) b)

pub advance-IsValid :
    {r : PieceReassembler} {c : Complete}
    → IsValid r
    → lookup r.next_emit r.complete ≡ some c
    → IsValid (advance r)
advance-IsValid {r} {c} v e = record {
  partial_keys =
      Between-mono (suc r.next_emit) (window_end r) (r.next_emit + 1) (window_end (advance r))
        r.partial (omega arith) (omega arith)
        (Between-suc r.next_emit (window_end r) r.partial v.partial_keys (v.apart r.next_emit c e));
  complete_keys =
      after_remove r.next_emit (window_end r) (window_end (advance r)) r.complete (omega arith)
        v.complete_keys;
  apart = λ k d h. ground (arith, lookup-remove r.next_emit k r.complete, v.apart k d);
  partials = v.partials;
  completes = λ k d h. ground (arith, lookup-remove r.next_emit k r.complete, v.completes k d);
  trailer = v.trailer;
}

-- Nothing leaves, and nothing changes, while the piece at the cursor is not complete.
pub take_ready_piece_waits :
    (r : PieceReassembler) → lookup r.next_emit r.complete ≡ none → take_ready_piece r ≡ (r, none)
unfolding take_ready_piece
take_ready_piece_waits r e = elim (Bool-cases (ltb (r.next_emit + 1) u64_mod)) [
  | inl c ↦ rw (c, e, take_ready_piece)
  | inr c ↦ rw (c, take_ready_piece)
]

pub take_ready_piece_moves :
    {r : PieceReassembler} {c : Complete}
    → IsValid r
    → lookup r.next_emit r.complete ≡ some c
    → take_ready_piece r ≡ (advance r, some (record { index = r.next_emit; bytes = media r c.buf }))
unfolding take_ready_piece
take_ready_piece_moves {r} {c} v e =
    let fits : ltb (r.next_emit + 1) u64_mod ≡ true =
      ground (arith, cursor-lt {r = r} {c = c} v e) in
    rw (fits, e, take_ready_piece)

pub take_ready_piece-IsValid : {r : PieceReassembler} → IsValid r → IsValid (take_ready_piece r).0
take_ready_piece-IsValid {r} v = elim (Option-cases (lookup r.next_emit r.complete)) [
  | inl e ↦ rw (take_ready_piece_waits r e) v
  | inr (c, e) ↦ rw (take_ready_piece_moves v e) (advance-IsValid v e)
]

pub skip_to-IsValid : {r : PieceReassembler} (piece : ℕ) → IsValid r → IsValid (skip_to r piece)
unfolding skip_to
skip_to-IsValid {r} piece v =
    if-elim IsValid (leb piece r.next_emit) (λ c. v)
      λ ahead. record {
        partial_keys =
            Between-mono piece (window_end r) piece (saturating_add piece r.max_ahead)
              (retain (λ idx. leb piece idx) r.partial) (omega arith) (ground arith)
              (retain-Between r.next_emit (window_end r) piece (λ idx. leb piece idx) r.partial
                (λ k p t. ground arith) v.partial_keys);
        complete_keys =
            Between-mono piece (window_end r) piece (saturating_add piece r.max_ahead)
              (retain (λ idx. leb piece idx) r.complete) (omega arith) (ground arith)
              (retain-Between r.next_emit (window_end r) piece (λ idx. leb piece idx) r.complete
                (λ k p t. ground arith) v.complete_keys);
        apart = λ k d h. ground (
          arith,
          lookup-retain (λ idx. leb piece idx) k r.complete,
          lookup-retain (λ idx. leb piece idx) k r.partial,
          v.apart k d,
        );
        partials = λ k p h.
            ground (arith, lookup-retain (λ idx. leb piece idx) k r.partial, v.partials k p);
        completes = λ k d h.
            ground (arith, lookup-retain (λ idx. leb piece idx) k r.complete, v.completes k d);
        trailer = v.trailer;
      }

-- One round of the loop of `take_ready`.
pub take_ready_loop_step :
    (fuel : ℕ) {r : PieceReassembler} {c : Complete} (out : List ℕ)
    → IsValid r
    → lookup r.next_emit r.complete ≡ some c
    → take_ready_loop (suc fuel) r out ≡ take_ready_loop fuel (advance r) (out ++ media r c.buf)
unfolding take_ready_loop
take_ready_loop_step fuel {r} {c} out v e =
    let small : (r.next_emit + 1) % u64_mod ≡ r.next_emit + 1 =
      omega (arith, cursor-lt {r = r} {c = c} v e) in
    rw (e, small, take_ready_loop)

pub take_ready_loop_end :
    (fuel : ℕ) (r : PieceReassembler) (out : List ℕ)
    → lookup r.next_emit r.complete ≡ none
    → take_ready_loop fuel r out ≡ (r, out)
unfolding take_ready_loop
take_ready_loop_end zero r out e = refl
take_ready_loop_end (suc fuel) r out e = rw (e, take_ready_loop)

-- What `take_ready` promises: the state stays valid, the cursor stands at a piece that is not
-- complete, and it has moved over complete pieces only.
abbrev pub Drained : PieceReassembler → PieceReassembler × List ℕ → Type 0
Drained r s =
    IsValid s.0
    × (lookup s.0.next_emit s.0.complete ≡ none)
    × (r.next_emit ≤ s.0.next_emit)
    × ((k : ℕ)
        → r.next_emit ≤ k
        → k < s.0.next_emit
        → (c : Complete) × (lookup k r.complete ≡ some c))

passed_over :
    (r : PieceReassembler) {c : Complete} (last : ℕ)
    → lookup r.next_emit r.complete ≡ some c
    → ((k : ℕ)
        → r.next_emit + 1 ≤ k
        → k < last
        → (d : Complete) × (lookup k (remove r.next_emit r.complete) ≡ some d))
    → (k : ℕ) → r.next_emit ≤ k
    → k < last
    → (d : Complete) × (lookup k r.complete ≡ some d)
passed_over r {c} last e rest k p q = elim (Bool-cases (k == r.next_emit)) [
  | inl here ↦ (c, ground arith)
  | inr later ↦
      let (d, found) = rest k (ground arith) q in
      (d, ground (arith, lookup-remove r.next_emit k r.complete))
]

take_ready_loop_drains :
    (fuel : ℕ) {r : PieceReassembler} (out : List ℕ)
    → IsValid r
    → length r.complete ≤ fuel
    → Drained r (take_ready_loop fuel r out)
take_ready_loop_drains zero {r} out v h =
    let e = lookup_of_empty r.next_emit r.complete h in
    rw (take_ready_loop_end zero r out e) (v, e, omega arith, λ k p q. absurd (omega arith))
take_ready_loop_drains (suc fuel) {r} out v h =
    elim (Option-cases (lookup r.next_emit r.complete)) [
      | inl e ↦
          rw (take_ready_loop_end (suc fuel) r out e)
            (v, e, omega arith, λ k p q. absurd (omega arith))
      | inr (c, e) ↦
          let shorter = length-remove-lt r.next_emit r.complete e in
          let (valid, stopped, moved, over) =
            take_ready_loop_drains fuel (out ++ media r c.buf) (advance-IsValid v e)
              (omega arith) in
          rw (take_ready_loop_step fuel out v e)
            (valid, stopped, omega arith, passed_over r _ e over)
    ]

-- `take_ready` hands out every contiguous complete piece: on a valid state it ends at a piece
-- that is not complete, having passed over complete ones only, and the state stays valid.
pub take_ready_drains : {r : PieceReassembler} → IsValid r → Drained r (take_ready r)
unfolding take_ready
take_ready_drains {r} v = take_ready_loop_drains (length r.complete) [] v (omega arith)

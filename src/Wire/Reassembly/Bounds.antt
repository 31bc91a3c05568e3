-- ===== src/Wire/Reassembly/Bounds.antt =====
-- crates/ace-wire/src/reassembly.rs: the memory that a peer can make a reassembler hold.
use outpace.Prelude.{
  ℕ, suc, ◌+◌, ◌*◌, ◌≤◌, ◌≡◌, refl, ◌∙◌, subst, List, none, some, Option-cases, inl, inr, [], ◌∷◌,
  length, arith,
}
use outpace.Prelude.Maps.{Map, lookup, Between}
use outpace.Prelude.Disjoint.{length_apart, head_found, tail_found}
use outpace.Wire.LiveAuth.{RsaCrate}
use outpace.Wire.Reassembly
use outpace.Wire.Reassembly.{PieceReassembler, ReadyPiece, Partial, Complete}
use outpace.Wire.Reassembly.Emit.{take_ready_piece, skip_to}
use outpace.Wire.Reassembly.LiveState.{add_live_chunk-IsValid, add_live_chunk_keeps, set_live_keeps}
use outpace.Wire.Reassembly.Invariant.{
  IsValid, window_end, add_block_cases, add_block_with_contribution-IsValid,
  discard_partial-IsValid,
}
use outpace.Wire.Reassembly.Emission.{
  take_ready_piece_waits, take_ready_piece_moves, skip_to-IsValid, advance-IsValid,
}
use outpace.Wire.Reassembly.Guarded.{Step, Run}

module _ {V : Type 0} (size : V → ℕ) where
  abbrev pub total : Map V → ℕ
  total [] = 0
  total ((k, v) ∷ m) = size v + total m

  total_uniform :
      (n lo hi : ℕ) (m : Map V)
      → Between lo hi m
      → ((k : ℕ) (v : V) → lookup k m ≡ some v → size v ≡ n)
      → total m ≡ length m * n
  total_uniform n lo hi [] b h = omega arith
  total_uniform n lo hi ((k, v) ∷ m) b h = omega (
    arith,
    h k v (head_found k v m),
    total_uniform n (suc k) hi m b.2
        (λ q w e. h q w (tail_found (suc k) hi k q v m b.2 (omega arith) e)),
  )

times_mono : (a b n : ℕ) → a ≤ b → a * n ≤ b * n
times_mono a b n h = grind arith

partial-not-complete :
    {r : PieceReassembler} (v : IsValid r) (k : ℕ) {p : Partial}
    → lookup k r.partial ≡ some p
    → lookup k r.complete ≡ none
partial-not-complete {r} v k e = elim (Option-cases (lookup k r.complete)) [
  | inl none_there ↦ none_there
  | inr (c, found) ↦ absurd (let clash = v.apart k c found in cc)
]

-- The bytes of all the buffers.
abbrev pub held_bytes : PieceReassembler → ℕ
held_bytes r =
    total (λ (p : Partial). length p.buf) r.partial
    + total (λ (c : Complete). length c.buf) r.complete

held_bytes-le :
    {r : PieceReassembler}
    → IsValid r
    → (length r.partial + length r.complete ≤ r.max_ahead)
      × (held_bytes r ≤ r.max_ahead * r.piece_length)
held_bytes-le {r} v =
    let hi = window_end r in
    let apart : (k : ℕ) (p : Partial) → lookup k r.partial ≡ some p → lookup k r.complete ≡ none =
      λ k p e. partial-not-complete v k e in
    let room =
      length_apart r.next_emit hi r.partial r.complete v.partial_keys v.complete_keys apart in
    let few : length r.partial + length r.complete ≤ r.max_ahead = omega arith in
    let ps =
      total_uniform (λ (p : Partial). length p.buf) r.piece_length r.next_emit hi r.partial
        v.partial_keys (λ k p e. (v.partials k p e).0) in
    let cs =
      total_uniform (λ (c : Complete). length c.buf) r.piece_length r.next_emit hi r.complete
        v.complete_keys v.completes in
    (
      few,
      rw (ps, cs)
          (omega (
            arith,
            times_mono (length r.partial + length r.complete) r.max_ahead r.piece_length few,
          )),
    )

abbrev pub Limits : PieceReassembler → PieceReassembler → Type 0
Limits r s = (s.max_ahead ≡ r.max_ahead) × (s.piece_length ≡ r.piece_length)

module _ (rsa : RsaCrate) (key : List ℕ) where
  write_block-Limits :
      (r : PieceReassembler) (index begin : ℕ) (block : List ℕ)
      → Limits r (Reassembly.write_block rsa r index begin block).0
  unfolding Reassembly.write_block Reassembly.finish_piece
  write_block-Limits r index begin block = (ground arith, ground arith)

  add_block-Limits :
      (r : PieceReassembler) (index begin : ℕ) (block : List ℕ)
      → Limits r (Reassembly.add_block_with_contribution rsa r index begin block).0
  add_block-Limits r index begin block = elim (add_block_cases rsa r index begin block) [
    | inl (_, e) ↦ rw e (refl, refl)
    | inr (_, _, _, e) ↦ rw e (write_block-Limits r index begin block)
  ]

  emit-Limits : (r : PieceReassembler) → IsValid r → Limits r (take_ready_piece r).0
  emit-Limits r v = elim (Option-cases (lookup r.next_emit r.complete)) [
    | inl e ↦ rw (take_ready_piece_waits r e) (refl, refl)
    | inr (c, e) ↦ rw (take_ready_piece_moves v e) (refl, refl)
  ]

  emit-IsValid : (r : PieceReassembler) → IsValid r → IsValid (take_ready_piece r).0
  emit-IsValid r v = elim (Option-cases (lookup r.next_emit r.complete)) [
    | inl e ↦ rw (take_ready_piece_waits r e) v
    | inr (c, e) ↦ rw (take_ready_piece_moves v e) (advance-IsValid v e)
  ]

  Step-Limits :
      {r s : PieceReassembler} {out : List ReadyPiece}
      → IsValid r
      → Step rsa key r out s
      → IsValid s × Limits r s
  Step-Limits {r} v (Step.block index begin bytes) = (
    add_block_with_contribution-IsValid rsa index begin bytes v,
    add_block-Limits r index begin bytes,
  )
  Step-Limits {r} v (Step.live index chunk chunk_length header bytes) = (
    add_live_chunk-IsValid rsa index chunk chunk_length header bytes v,
    add_live_chunk_keeps rsa (Limits r) r index chunk chunk_length header bytes (refl, refl)
        (add_block-Limits r index (chunk * chunk_length) bytes)
        (λ s m w. set_live_keeps (Limits r) s index m w (λ c e. w) (λ p f e. w)),
  )
  Step-Limits {r} v (Step.discard index) =
      (discard_partial-IsValid index v, unfold Reassembly.discard_partial in (refl, refl))
  Step-Limits {r} v (Step.skip piece) =
      (skip_to-IsValid piece v, unfold skip_to in (ground arith, ground arith))
  Step-Limits {r} v Step.emit = (emit-IsValid r v, emit-Limits r v)

  Run-Limits :
      {r s : PieceReassembler} {out : List ReadyPiece}
      → IsValid r
      → Run rsa key r out s
      → IsValid s × Limits r s
  Run-Limits v Run.here = (v, (refl, refl))
  Run-Limits v (Run.next run step) =
      let (w, (a, b)) = Run-Limits v run in
      let (u, (c, d)) = Step-Limits w step in (u, (c ∙ a, d ∙ b))

  -- Whatever calls are made on a valid reassembler, with whatever bytes: it holds at most `max_ahead`
  -- pieces, partial and complete ones together, and so at most `max_ahead` times the piece length in
  -- buffers, with the limits that it was set up with.
  pub Run-held_bytes :
      {r s : PieceReassembler} {out : List ReadyPiece}
      → IsValid r
      → Run rsa key r out s
      → (length s.partial + length s.complete ≤ r.max_ahead)
        × (held_bytes s ≤ r.max_ahead * r.piece_length)
  Run-held_bytes {r} {s} v run =
      let (w, (ahead, size)) = Run-Limits v run in
      let (few, bytes) = held_bytes-le w in
      (omega (arith, ahead), subst (λ n. held_bytes s ≤ n) (cc (ahead, size)) bytes)

-- ===== src/Wire/Reassembly/Preview.antt =====
-- crates/ace-wire/src/reassembly.rs: `ready_chunks` against `take_ready`.
use outpace.Prelude.{
  ℕ, zero, suc, ◌+◌, ◌≤◌, ◌<◌, ◌≡◌, refl, sym, ◌∙◌, true, none, some, List, [], ◌∷◌, ◌++◌,
  append_assoc, append-nil, length, arith, ltb, u64_mod, u64_max, inl, inr, Option-cases,
}
use mathlib.Core.List.{flatten}
use outpace.Prelude.Maps.{lookup, lookup-remove}
use outpace.Wire.Reassembly.{PieceReassembler, Complete}
use outpace.Wire.Reassembly.Emit.{media, ready_from, ready_chunks, take_ready_loop, take_ready}
use outpace.Wire.Reassembly.Invariant.{IsValid}
use outpace.Wire.Reassembly.Emission.{
  advance, advance-IsValid, cursor-lt, take_ready_loop_end, take_ready_loop_step,
}

ready_from_end :
    (fuel : ℕ) (r : PieceReassembler) (next : ℕ)
    → lookup next r.complete ≡ none
    → ready_from fuel r next ≡ []
unfolding ready_from
ready_from_end zero r next e = refl
ready_from_end (suc fuel) r next e = rw (e, ready_from)

ready_from_step :
    (fuel : ℕ) (r : PieceReassembler) (next : ℕ) {c : Complete}
    → lookup next r.complete ≡ some c
    → next < u64_max
    → ready_from (suc fuel) r next ≡ media r c.buf ∷ ready_from fuel r (next + 1)
unfolding ready_from
ready_from_step fuel r next e h =
    let fits : ltb (next + 1) u64_mod ≡ true = ground arith in rw (e, fits, ready_from)

-- From the cursor of `r` on, both states hold the same complete pieces.
abbrev SameAhead : PieceReassembler → PieceReassembler → Type 0
SameAhead r₀ r =
    (r.piece_trailer ≡ r₀.piece_trailer)
    × ((k : ℕ) → r.next_emit ≤ k → lookup k r.complete ≡ lookup k r₀.complete)

advance-SameAhead : (r₀ r : PieceReassembler) → SameAhead r₀ r → SameAhead r₀ (advance r)
advance-SameAhead r₀ r (t, same) =
    (t, λ k h. ground (arith, lookup-remove r.next_emit k r.complete, same k (omega arith)))

take_ready_loop-ready_from :
    (fuel : ℕ) (r₀ r : PieceReassembler) (out : List ℕ)
    → IsValid r
    → SameAhead r₀ r
    → (take_ready_loop fuel r out).1 ≡ out ++ flatten (ready_from fuel r₀ r.next_emit)
unfolding flatten
take_ready_loop-ready_from zero r₀ r out v same =
    unfold take_ready_loop ready_from in sym (append-nil out)
take_ready_loop-ready_from (suc fuel) r₀ r out v same =
    elim (Option-cases (lookup r.next_emit r.complete)) [
      | inl e ↦
          rw
            (
              take_ready_loop_end (suc fuel) r out e,
              ready_from_end (suc fuel) r₀ r.next_emit (sym (same.1 r.next_emit (omega arith)) ∙ e),
            )
            (sym (append-nil out))
      | inr (c, e) ↦
          let e₀ = sym (same.1 r.next_emit (omega arith)) ∙ e in
          let same_media : media r c.buf ≡ media r₀ c.buf = unfold media in rw same.0 in
          rw
            (
              take_ready_loop_step fuel out v e,
              ready_from_step fuel r₀ r.next_emit e₀ (cursor-lt {r = r} v e),
            )
            (take_ready_loop-ready_from fuel r₀ (advance r) (out ++ media r c.buf)
                (advance-IsValid v e) (advance-SameAhead r₀ r same)
              ∙ rw (same_media) (append_assoc out (media r₀ c.buf) _))
    ]

-- `ready_chunks` shows, without consuming it, exactly what `take_ready` then hands out.
pub take_ready-ready_chunks :
    {r : PieceReassembler} → IsValid r → (take_ready r).1 ≡ flatten (ready_chunks r)
unfolding take_ready ready_chunks
take_ready-ready_chunks {r} v =
    take_ready_loop-ready_from (length r.complete) r r [] v (refl, λ k h. refl)

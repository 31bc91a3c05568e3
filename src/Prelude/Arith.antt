-- ===== src/Prelude/Arith.antt =====
-- Cancellation of a common factor, and the chunks that a range of bytes meets.
use Prim.Native.Nat.{ℕ, suc, ◌+◌, ◌-◌, ◌*◌, ◌/◌, ◌%◌, ◌≤◌, ◌<◌}
use mathlib.Core.Path.{◌≡◌, sym, ap, ◌∙◌}
use native.Mathlib.Omega.{arith}
use native.Mathlib.Decide.{dec_lt}
use native.Mathlib.Nat.{div-add-mod', mod-lt}

pub mul_lt_cancel : (a b c : ℕ) → a * c < b * c → a < b
mul_lt_cancel a b c h = elim (dec_lt a b) [ yes p ↦ p | no p ↦ absurd (grind arith) ]

pub mul_le_cancel : (a b c : ℕ) → 0 < c → a * c ≤ b * c → a ≤ b
mul_le_cancel a b c pos h = elim (dec_lt b a) [ no p ↦ omega arith | yes p ↦ absurd (grind arith) ]

pub mul_le_mono : (a b c : ℕ) → a ≤ b → a * c ≤ b * c
mul_le_mono a b c h = grind arith

-- The chunks from that of the first byte to that behind the last one.
pub record Span (begin len cl count : ℕ) (first last : ℕ) : Type 0 where
  pub ascending : first ≤ last
  pub inside : last ≤ count
  pub start : first * cl + begin % cl ≡ begin
  pub wide : begin % cl + len ≤ (last - first) * cl

pub div_ceil-Span :
    (begin len cl count : ℕ)
    → 0 < cl
    → begin + len ≤ count * cl
    → Span begin len cl count (begin / cl) ((begin + len + (cl - 1)) / cl)
div_ceil-Span begin len cl count pos fits =
    let first = begin / cl in
    let last = (begin + len + (cl - 1)) / cl in
    let start : first * cl + begin % cl ≡ begin = div-add-mod' begin cl in
    let rest : begin % cl < cl = mod-lt begin pos in
    let ends : last * cl + (begin + len + (cl - 1)) % cl ≡ begin + len + (cl - 1) =
      div-add-mod' (begin + len + (cl - 1)) cl in
    let more : (begin + len + (cl - 1)) % cl < cl = mod-lt (begin + len + (cl - 1)) pos in
    let next : suc count * cl ≡ count * cl + cl = omega arith in
    let above : last < suc count = mul_lt_cancel last (suc count) cl (omega arith) in
    let up : first ≤ last = mul_le_cancel first last cl pos (omega arith) in
    let apart : first * cl + (last - first) * cl ≡ last * cl = mul-split first last cl up in
    record { ascending = up; inside = omega arith; start = start; wide = omega arith }
  where
    mul-split : (a b c : ℕ) → a ≤ b → a * c + (b - a) * c ≡ b * c
    mul-split a b c h =
        let whole : b ≡ a + (b - a) = omega arith in
        let both : a * c + (b - a) * c ≡ (a + (b - a)) * c = omega arith in
        both ∙ ap (λ k. k * c) (sym whole)

-- ===== src/Wire/Live/Picking.antt =====
-- crates/ace-wire/src/live.rs: the pieces that a picker hands out while the window slides.
use outpace.Prelude.{
  ℕ, ◌+◌, ◌%◌, ◌≤◌, ◌<◌, ◌≡◌, none, some, List, [], ◌∷◌, ltb, if◌then◌else◌, u64_mod, arith, inl,
  inr, max, Bool-cases, refl, ◌∙◌,
}
use native.Mathlib.Nat.{mod-eq_of_lt}
use outpace.Wire.Live
use outpace.Wire.Live.{LiveWindow, LivePicker}

-- The pieces handed out for one window after another.
unfoldable pub pick_all : LivePicker → List LiveWindow → List ℕ
pick_all p [] = []
pick_all p (w ∷ ws) =
    let (p', piece) = Live.next_request p w in
    let rest = pick_all p' ws in elim piece [ none ↦ rest | some n ↦ n ∷ rest ]

-- The pieces ascend from `lo` on, without a repetition.
abbrev pub Ascend : ℕ → List ℕ → Type 0
Ascend lo [] = Unit {0}
Ascend lo (n ∷ ns) = (lo ≤ n) × Ascend (n + 1) ns

Ascend-mono : (lo hi : ℕ) (ns : List ℕ) → lo ≤ hi → Ascend hi ns → Ascend lo ns
Ascend-mono lo hi [] h a = tt
Ascend-mono lo hi (n ∷ ns) h a = (omega arith, a.1)

-- All windows end below 2 ^ 64 - 1.
abbrev pub Bounded : List LiveWindow → Type 0
Bounded [] = Unit {0}
Bounded (w ∷ ws) = (w.max_piece + 1 < u64_mod) × Bounded ws

-- For a window that ends below 2 ^ 64 - 1, a request is the picker's own piece or the window's first
-- one, whichever is later, if the window has it; if not, the picker has caught up, and waits there.
pub next_request_lem :
    (p : LivePicker) (w : LiveWindow)
    → w.max_piece + 1 < u64_mod
    → let n = max p.next w.min_piece in
      Live.next_request p w ≡ (
        if ltb w.max_piece n
        then (record { next = n }, none)
        else (record { next = n + 1 }, some n))
unfolding Live.next_request
next_request_lem p w h =
    let same : Live.caught_up p w ≡ max p.next w.min_piece = ground arith in
    rw same (elim (Bool-cases (ltb w.max_piece (max p.next w.min_piece))) [
      | inl behind ↦ rw behind refl
      | inr inside ↦
          let next : (max p.next w.min_piece + 1) % u64_mod ≡ max p.next w.min_piece + 1 =
            mod-eq_of_lt (ground arith) in
          rw (inside, next) refl
    ])

pick_none :
    (p : LivePicker) (w : LiveWindow) (ws : List LiveWindow) {q : LivePicker}
    → Live.next_request p w ≡ (q, none)
    → pick_all p (w ∷ ws) ≡ pick_all q ws
unfolding pick_all
pick_none p w ws e = ground arith

pick_some :
    (p : LivePicker) (w : LiveWindow) (ws : List LiveWindow) {q : LivePicker} {n : ℕ}
    → Live.next_request p w ≡ (q, some n)
    → pick_all p (w ∷ ws) ≡ n ∷ pick_all q ws
unfolding pick_all
pick_some p w ws e = ground arith

-- Over any sequence of windows that end below 2 ^ 64 - 1, the pieces that the picker hands out
-- strictly ascend from its own piece on.
pub pick_all-Ascend :
    (p : LivePicker) (ws : List LiveWindow) → Bounded ws → Ascend p.next (pick_all p ws)
pick_all-Ascend p [] h = unfold pick_all in tt
pick_all-Ascend p (w ∷ ws) h =
    let n = max p.next w.min_piece in
    let turn = next_request_lem p w h.0 in
    elim (Bool-cases (ltb w.max_piece n)) [
      | inl behind ↦
          let rest = pick_all-Ascend (record { next = n }) ws h.1 in
          let waits : Live.next_request p w ≡ (record { next = n }, none) = turn ∙ rw behind refl in
          rw (pick_none p w ws waits) (Ascend-mono p.next n _ (omega arith) rest)
      | inr inside ↦
          let rest = pick_all-Ascend (record { next = n + 1 }) ws h.1 in
          let asks : Live.next_request p w ≡ (record { next = n + 1 }, some n) =
            turn ∙ rw inside refl in
          rw (pick_some p w ws asks) (omega arith, rest)
    ]

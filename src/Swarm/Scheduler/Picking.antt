-- ===== src/Swarm/Scheduler/Picking.antt =====
-- crates/ace-swarm/src/scheduler.rs: the slot that serves a piece.
use outpace.Prelude.{
  ℕ, ◌+◌, ◌≡◌, refl, Bool, true, ◌&&◌, Option, none, some, List, [], ◌∷◌, ltb, ◌==◌, if◌then◌else◌,
  if-elim, ap, Option-cases, inl, inr, ◌⊎◌, arith,
}
use outpace.Swarm.Scheduler
use outpace.Swarm.Scheduler.{PeerView, Slot}

-- Some peer of the list has this id and covers the piece.
abbrev pub Covered : ℕ → ℕ → List PeerView → Type 0
Covered id piece [] = ⊥
Covered id piece (p ∷ ps) = ((p.id ≡ id) × (Scheduler.covers p piece ≡ true)) ⊎ Covered id piece ps

abbrev pub views : List Slot → List PeerView
views [] = []
views (s ∷ cap) = s.view ∷ views cap

abbrev pub count_if : Bool → ℕ → ℕ
count_if b n = if b then n else 0

-- The capacity that the slots of one peer id have left, by their spare requests and by their credits.
abbrev pub spare_of : ℕ → List Slot → ℕ
spare_of id [] = 0
spare_of id (s ∷ cap) = count_if (s.view.id == id) s.spare + spare_of id cap

abbrev pub credit_of : ℕ → List Slot → ℕ
credit_of id [] = 0
credit_of id (s ∷ cap) = count_if (s.view.id == id) s.slots + credit_of id cap

-- The views do not change, one request is charged to the peer that was picked and to no other, and
-- that peer is one that covers the piece.
pub record Picks (piece : ℕ) (cap : List Slot) (t : Slot) (cap' : List Slot) : Type 0 where
  pub same : views cap' ≡ views cap
  pub covered : Covered t.view.id piece (views cap)
  pub spare : (id : ℕ) → spare_of id cap' + count_if (t.view.id == id) 1 ≡ spare_of id cap
  pub credit : (id : ℕ) → credit_of id cap' + count_if (t.view.id == id) 1 ≡ credit_of id cap

abbrev PicksIf : ℕ → List Slot → Option (Slot × List Slot) → Type 0
PicksIf piece cap none = Unit {0}
PicksIf piece cap (some (t, cap')) = Picks piece cap t cap'

spend-Picks :
    (piece : ℕ) (s : Slot) (cap : List Slot)
    → Scheduler.eligible piece s ≡ true
    → Picks piece (s ∷ cap) s (Scheduler.spend s ∷ cap)
unfolding Scheduler.eligible
spend-Picks piece s cap ok = record {
  same = refl;
  covered = inl (refl, ground arith);
  spare = λ id. ground arith;
  credit = λ id. ground arith;
}

keep-Picks :
    (piece : ℕ) (s : Slot) (cap : List Slot) (t : Slot) (cap' : List Slot)
    → Picks piece cap t cap'
    → Picks piece (s ∷ cap) t (s ∷ cap')
keep-Picks piece s cap t cap' h = record {
  same = ap (◌∷◌ s.view) h.same;
  covered = inr h.covered;
  spare = λ id. omega (arith, h.spare id);
  credit = λ id. omega (arith, h.credit id);
}

pick-PicksIf : (piece : ℕ) (cap : List Slot) → PicksIf piece cap (Scheduler.pick piece cap)
unfolding Scheduler.pick
pick-PicksIf piece [] = tt
pick-PicksIf piece (s ∷ cap) = elim (Option-cases (Scheduler.pick piece cap)) [
  | inl e ↦
      rw (e, Scheduler.pick)
        (if-elim (PicksIf piece (s ∷ cap)) (Scheduler.eligible piece s)
          (λ ok. spend-Picks piece s cap ok) (λ no_slot. tt))
  | inr ((t, cap'), e) ↦
      let h : Picks piece cap t cap' = rw e at (pick-PicksIf piece cap) in
      rw (e, Scheduler.pick)
        (if-elim (PicksIf piece (s ∷ cap)) (Scheduler.eligible piece s && ltb t.spare s.spare)
          (λ better. spend-Picks piece s cap (ground arith))
          (λ worse. keep-Picks piece s cap t cap' h))
]

pub pick-Picks :
    (piece : ℕ) (cap : List Slot) {t : Slot} {cap' : List Slot}
    → Scheduler.pick piece cap ≡ some (t, cap')
    → Picks piece cap t cap'
pick-Picks piece cap e = rw e at (pick-PicksIf piece cap)

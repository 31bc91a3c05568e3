-- ===== src/Swarm/Scheduler/Scanning.antt =====
-- crates/ace-swarm/src/scheduler.rs: the loop of `assign_inner`.
use outpace.Prelude.{
  ℕ, zero, suc, ◌+◌, ◌%◌, ◌≤◌, ◌<◌, min, ◌≡◌, refl, ◌∙◌, subst, Bool, false, ◌||◌, some, List, [],
  ◌∷◌, ◌++◌, leb, ◌==◌, if-elim, Bool-cases, Option-cases, inl, inr, arith, saturating_add, u64_mod,
  u64_max,
}
use outpace.Prelude.Maps.{Set, insert, contains_key, contains_key-insert}
use outpace.Swarm.Scheduler
use outpace.Swarm.Scheduler.{PeerView, Slot, Scan}
use outpace.Swarm.Scheduler.Picking.{
  Covered, views, count_if, spare_of, credit_of, Picks, pick-Picks,
}

-- How many requests of a batch go to a peer id, and whether a piece is in the batch.
abbrev pub count_of : ℕ → List (ℕ × ℕ) → ℕ
count_of id [] = 0
count_of id ((i, pc) ∷ out) = count_if (i == id) 1 + count_of id out

abbrev pub assigned : ℕ → List (ℕ × ℕ) → Bool
assigned q [] = false
assigned q ((i, pc) ∷ out) = pc == q || assigned q out

-- The pieces of the batch ascend strictly from `lo` on and below `hi`, none of them was requested
-- before, and each goes to a peer that covers it.
abbrev pub Batch : Set → List PeerView → ℕ → ℕ → ℕ → List (ℕ × ℕ) → Type 0
Batch old ps limit lo hi [] = lo ≤ hi
Batch old ps limit lo hi ((id, pc) ∷ out) =
    (lo ≤ pc)
    × (pc ≤ limit)
    × (contains_key pc old ≡ false)
    × Covered id pc ps
    × Batch old ps limit (suc pc) hi out

Batch-mono :
    (old : Set) (ps : List PeerView) (limit lo hi hi' : ℕ) (out : List (ℕ × ℕ))
    → hi ≤ hi'
    → Batch old ps limit lo hi out
    → Batch old ps limit lo hi' out
Batch-mono old ps limit lo hi hi' [] h b = omega arith
Batch-mono old ps limit lo hi hi' ((id, pc) ∷ out) h b =
    (b.0, b.1, b.2, b.3, Batch-mono old ps limit (suc pc) hi hi' out h b.4)

Batch-snoc :
    (old : Set) (ps : List PeerView) (limit lo id pc : ℕ) (out : List (ℕ × ℕ))
    → pc ≤ limit
    → contains_key pc old ≡ false
    → Covered id pc ps
    → Batch old ps limit lo pc out
    → Batch old ps limit lo (suc pc) (out ++ (id, pc) ∷ [])
Batch-snoc old ps limit lo id pc [] inside fresh cov b = (b, inside, fresh, cov, omega arith)
Batch-snoc old ps limit lo id pc ((i, q) ∷ out) inside fresh cov b =
    (b.0, b.1, b.2, b.3, Batch-snoc old ps limit (suc q) id pc out inside fresh cov b.4)

count_of-snoc :
    (id i pc : ℕ) (out : List (ℕ × ℕ))
    → count_of id (out ++ (i, pc) ∷ []) ≡ count_of id out + count_if (i == id) 1
count_of-snoc id i pc [] = omega arith
count_of-snoc id i pc ((j, q) ∷ out) = omega (arith, count_of-snoc id i pc out)

assigned-snoc :
    (q i pc : ℕ) (out : List (ℕ × ℕ))
    → assigned q (out ++ (i, pc) ∷ []) ≡ (pc == q || assigned q out)
assigned-snoc q i pc [] = refl
assigned-snoc q i pc ((j, r) ∷ out) = ground (arith, assigned-snoc q i pc out)

module _ (old : Set) (cap₀ : List Slot) (next limit : ℕ) where
  -- What the loop keeps, from a request set `old`, slots `cap₀` and a first piece `next` on: capacity
  -- is spent on the batch only, and the request set grows by the batch only.
  pub record Scanned (s : Scan) : Type 0 where
    pub ceiling : s.ceiling ≤ limit
    pub same : views s.cap ≡ views cap₀
    pub spare : (id : ℕ) → spare_of id s.cap + count_of id s.out ≡ spare_of id cap₀
    pub credit : (id : ℕ) → credit_of id s.cap + count_of id s.out ≡ credit_of id cap₀
    pub batch : Batch old (views cap₀) limit next s.piece s.out
    pub recorded : (q : ℕ) → contains_key q s.requested ≡ (assigned q s.out || contains_key q old)

  module _ (no_wrap : limit < u64_max) where
    skip_piece :
        {s : Scan} (ceiling : ℕ)
        → ceiling ≤ limit
        → s.piece ≤ limit
        → Scanned s
        → Scanned (record s { ceiling = ceiling; piece = (s.piece + 1) % u64_mod })
    skip_piece {s} ceiling below inside h = record {
      ceiling = below;
      same = h.same;
      spare = h.spare;
      credit = h.credit;
      batch =
          Batch-mono old (views cap₀) limit next s.piece ((s.piece + 1) % u64_mod) s.out
            (omega arith) h.batch;
      recorded = h.recorded;
    }

    take_piece :
        {s : Scan} {t : Slot} {cap : List Slot}
        → s.piece ≤ limit
        → contains_key s.piece s.requested ≡ false
        → Picks s.piece s.cap t cap
        → Scanned s
        → Scanned (record s {
          piece = (s.piece + 1) % u64_mod;
          requested = insert s.piece tt s.requested;
          cap = cap;
          out = s.out ++ (t.view.id, s.piece) ∷ [];
        })
    take_piece {s} {t} {cap} inside fresh k h = record {
      ceiling = h.ceiling;
      same = k.same ∙ h.same;
      spare = λ id. omega (arith, k.spare id, h.spare id, count_of-snoc id t.view.id s.piece s.out);
      credit =
          λ id. omega (arith, k.credit id, h.credit id, count_of-snoc id t.view.id s.piece s.out);
      batch =
          let next_piece : (s.piece + 1) % u64_mod ≡ suc s.piece = omega arith in
          let unseen : contains_key s.piece old ≡ false = ground (arith, h.recorded s.piece) in
          rw next_piece (
            Batch-snoc old (views cap₀) limit next t.view.id s.piece s.out inside unseen
              (subst (λ vs. Covered t.view.id s.piece vs) h.same k.covered) h.batch);
      recorded = λ q. ground (
        arith,
        contains_key-insert q s.piece tt s.requested,
        assigned-snoc q t.view.id s.piece s.out,
        h.recorded q,
      );
    }

    scan_step-Scanned :
        {s : Scan} → s.piece ≤ s.ceiling → Scanned s → Scanned (Scheduler.scan_step limit s)
    unfolding Scheduler.scan_step
    scan_step-Scanned {s} inside h =
        if-elim Scanned (contains_key s.piece s.requested)
          (λ old_one.
            skip_piece (min (saturating_add s.ceiling 1) limit) (omega arith)
              (omega (arith, h.ceiling)) h)
          (λ new_one. elim (Option-cases (Scheduler.pick s.piece s.cap)) [
            | inl e ↦ rw e (skip_piece s.ceiling h.ceiling (omega (arith, h.ceiling)) h)
            | inr ((t, cap), e) ↦
                rw e (take_piece (omega (arith, h.ceiling)) new_one (pick-Picks s.piece s.cap e) h)
          ])

    scan_step-piece :
        (s : Scan) → s.piece ≤ limit → (Scheduler.scan_step limit s).piece ≡ s.piece + 1
    unfolding Scheduler.scan_step
    scan_step-piece s inside = ground arith

    -- With fuel for every piece up to the limit the loop returns, and keeps what it keeps.
    pub scan-returns :
        (fuel : ℕ) {s : Scan}
        → 0 < fuel
        → limit + 1 < fuel + s.piece
        → Scanned s
        → (t : Scan) × (Scheduler.scan fuel limit s ≡ some t) × Scanned t × (t.ceiling < t.piece)
    unfolding Scheduler.scan
    scan-returns zero {s} some_fuel enough h = absurd (omega arith)
    scan-returns (suc fuel) {s} some_fuel enough h = elim (Bool-cases (leb s.piece s.ceiling)) [
      | inr done ↦ (s, rw (done, Scheduler.scan), h, ground arith)
      | inl more ↦
          let inside : s.piece ≤ s.ceiling = ground arith in
          let below : s.piece ≤ limit = omega (arith, h.ceiling) in
          let moved = scan_step-piece s below in
          let (t, e, ht, last) =
            scan-returns fuel (omega arith) (omega arith) (scan_step-Scanned inside h) in
          (t, rw (more, Scheduler.scan) e, ht, last)
    ]

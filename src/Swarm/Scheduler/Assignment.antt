-- ===== src/Swarm/Scheduler/Assignment.antt =====
-- crates/ace-swarm/src/scheduler.rs: what a batch of assignments promises, in terms of the peers.
use outpace.Prelude.{
  ℕ, suc, ◌+◌, ◌-◌, ◌≤◌, ◌<◌, min, ◌≡◌, refl, Bool, true, false, ◌||◌, ◌&&◌, Option, none, some,
  get_or, List, [], ◌∷◌, leb, ◌==◌, if-elim, inl, inr, ◌⊎◌, arith, saturating_add, u64_max,
}
use outpace.Prelude.Maps.{Map, Set, lookup, retain, contains_key, lookup-retain}
use outpace.Swarm.Scheduler
use outpace.Swarm.Scheduler.{PeerView, Slot, Scan, Scheduler}
use outpace.Swarm.Scheduler.Picking.{Covered, views, count_if, spare_of, credit_of}
use outpace.Swarm.Scheduler.Scanning.{Batch, count_of, assigned, Scanned, scan-returns}

-- Some unchoked peer of the list has this id and covers the piece.
abbrev pub Offers : ℕ → ℕ → List PeerView → Type 0
Offers id piece [] = ⊥
Offers id piece (p ∷ ps) =
    ((p.unchoked ≡ true) × (p.id ≡ id) × (Scheduler.covers p piece ≡ true)) ⊎ Offers id piece ps

-- The requests that the unchoked peers of one id can still take under the in-flight cap.
abbrev pub capacity_of : ℕ → ℕ → List PeerView → ℕ
capacity_of max_in_flight id [] = 0
capacity_of max_in_flight id (p ∷ ps) =
    count_if (p.unchoked && p.id == id) (max_in_flight - p.in_flight)
    + capacity_of max_in_flight id ps

-- And under the queue credits.
abbrev pub credits_of : Map ℕ → ℕ → List PeerView → ℕ
credits_of credits id [] = 0
credits_of credits id (p ∷ ps) =
    count_if (p.unchoked && p.id == id) (get_or (lookup p.id credits) 0) + credits_of credits id ps

spare_of-slots_from :
    (m id : ℕ) (q : Option (Map ℕ)) (ps : List PeerView)
    → spare_of id (Scheduler.slots_from m q ps) ≡ capacity_of m id ps
unfolding Scheduler.slots_from
spare_of-slots_from m id q [] = refl
spare_of-slots_from m id q (p ∷ ps) = ground (arith, spare_of-slots_from m id q ps)

credit_of-slots_from :
    (m id : ℕ) (credits : Map ℕ) (ps : List PeerView)
    → credit_of id (Scheduler.slots_from m (some credits) ps) ≡ credits_of credits id ps
unfolding Scheduler.slots_from
credit_of-slots_from m id credits [] = refl
credit_of-slots_from m id credits (p ∷ ps) = ground (arith, credit_of-slots_from m id credits ps)

Covered-Offers :
    (m id piece : ℕ) (q : Option (Map ℕ)) (ps : List PeerView)
    → Covered id piece (views (Scheduler.slots_from m q ps))
    → Offers id piece ps
unfolding Scheduler.slots_from
Covered-Offers m id piece q [] = λ c. c
Covered-Offers m id piece q (p ∷ ps) =
    let later = Covered-Offers m id piece q ps in
    if-elim (λ cap. Covered id piece (views cap) → Offers id piece (p ∷ ps)) p.unchoked
      (λ unchoked c. elim c [ inl (i, h) ↦ inl (unchoked, i, h) | inr rest ↦ inr (later rest) ])
      (λ choked c. inr (later c))

-- Every slot of `cap` has at most `m` requests to spare.
abbrev SpareLe : ℕ → List Slot → Type 0
SpareLe m [] = Unit {0}
SpareLe m (s ∷ cap) = (s.spare ≤ m) × SpareLe m cap

slots_from-SpareLe :
    (m : ℕ) (q : Option (Map ℕ)) (ps : List PeerView) → SpareLe m (Scheduler.slots_from m q ps)
unfolding Scheduler.slots_from
slots_from-SpareLe m q [] = tt
slots_from-SpareLe m q (p ∷ ps) =
    if-elim (SpareLe m) p.unchoked (λ c. (omega arith, slots_from-SpareLe m q ps))
      (λ c. slots_from-SpareLe m q ps)

policy_horizon-ge :
    (m acc : ℕ) (cap : List Slot)
    → SpareLe m cap
    → min (acc + Scheduler.total_spare cap) u64_max ≤ Scheduler.policy_horizon m acc cap
unfolding Scheduler.total_spare Scheduler.policy_horizon
policy_horizon-ge m acc [] h = omega arith
policy_horizon-ge m acc (s ∷ cap) h =
    omega (arith, policy_horizon-ge m (saturating_add acc m) cap h.1)

-- The first ceiling is inside the scan.
total_spare-le-scan_slots :
    (m : ℕ) (q : Option (Map ℕ)) (cap : List Slot)
    → SpareLe m cap
    → min (Scheduler.total_spare cap) u64_max ≤ Scheduler.scan_slots m q cap
unfolding Scheduler.scan_slots
total_spare-le-scan_slots m none cap h = omega arith
total_spare-le-scan_slots m (some _) cap h = omega (arith, policy_horizon-ge m 0 cap h)

scan_start-Scanned :
    (s : Scheduler) (next head : ℕ) (ps : List PeerView) (q : Option (Map ℕ))
    → let cap = Scheduler.slots_from s.max_in_flight q ps in
      Scanned
        (retain (λ p. leb next p) s.requested)
        cap
        next
        (Scheduler.scan_end s next head q cap)
        (Scheduler.scan_start s next head cap)
unfolding Scheduler.scan_start Scheduler.scan_end
scan_start-Scanned s next head ps q =
    let cap = Scheduler.slots_from s.max_in_flight q ps in
    record {
      ceiling = omega (
        arith,
        total_spare-le-scan_slots s.max_in_flight q cap (slots_from-SpareLe s.max_in_flight q ps),
      );
      same = refl;
      spare = λ id. omega arith;
      credit = λ id. omega arith;
      batch = omega arith;
      recorded = λ k. refl;
    }

-- The batch, in terms of the peers: pieces ascend strictly from `lo` on and end at `head`; none was
-- already requested; each goes to an unchoked peer that covers it.
abbrev pub Requests : Set → List PeerView → ℕ → ℕ → List (ℕ × ℕ) → Type 0
Requests requested ps head lo [] = Unit {0}
Requests requested ps head lo ((id, pc) ∷ out) =
    (lo ≤ pc)
    × (pc ≤ head)
    × (contains_key pc requested ≡ false)
    × Offers id pc ps
    × Requests requested ps head (suc pc) out

contains_key-retain :
    (p : ℕ → Bool) (q : ℕ) (m : Set) → contains_key q (retain p m) ≡ (p q && contains_key q m)
unfolding contains_key
contains_key-retain p q m = ground (arith, lookup-retain p q m)

Batch-Requests :
    (requested : Set) (m : ℕ) (q : Option (Map ℕ)) (ps : List PeerView) (next limit head lo hi : ℕ)
    (out : List (ℕ × ℕ))
    → limit ≤ head
    → next ≤ lo
    → Batch
        (retain (λ p. leb next p) requested)
        (views (Scheduler.slots_from m q ps))
        limit
        lo
        hi
        out
    → Requests requested ps head lo out
Batch-Requests requested m q ps next limit head lo hi [] below from b = tt
Batch-Requests requested m q ps next limit head lo hi ((id, pc) ∷ out) below from b = (
  b.0,
  omega arith,
  ground (arith, contains_key-retain (λ p. leb next p) pc requested),
  Covered-Offers m id pc q ps b.3,
  Batch-Requests requested m q ps next limit head (suc pc) hi out below (omega arith) b.4,
)

-- What a call of `assign_inner` promises of its new scheduler and its batch.
pub record Assigns (s : Scheduler) (next head : ℕ) (ps : List PeerView) (q : Option (Map ℕ))
    (s' : Scheduler) (out : List (ℕ × ℕ)) : Type 0 where
  pub cap : s'.max_in_flight ≡ s.max_in_flight
  pub requests : Requests s.requested ps head next out
  pub spare : (id : ℕ) → count_of id out ≤ capacity_of s.max_in_flight id ps
  pub credit :
      (id : ℕ) (credits : Map ℕ) → q ≡ some credits → count_of id out ≤ credits_of credits id ps
  pub recorded :
      (k : ℕ)
      → contains_key k s'.requested ≡ (assigned k out || (leb next k && contains_key k s.requested))

limit-le-head :
    (s : Scheduler) (next head : ℕ) (q : Option (Map ℕ)) (cap : List Slot)
    → Scheduler.scan_end s next head q cap ≤ head
unfolding Scheduler.scan_end
limit-le-head s next head q cap = omega arith

credit-le :
    (m id : ℕ) (q : Option (Map ℕ)) (ps : List PeerView) (credits : Map ℕ)
    → q ≡ some credits
    → (cap : List Slot) (out : List (ℕ × ℕ))
    → credit_of id cap + count_of id out ≡ credit_of id (Scheduler.slots_from m q ps)
    → count_of id out ≤ credits_of credits id ps
credit-le m id q ps credits e cap out h =
    let same : credit_of id (Scheduler.slots_from m q ps) ≡ credits_of credits id ps =
      rw e (credit_of-slots_from m id credits ps) in
    omega arith

-- Where the scan does not reach `u64::MAX`, `assign_inner` returns; its batch holds strictly
-- ascending pieces of the wanted range, none requested before, each for an unchoked peer that covers
-- it; no peer gets more than its spare in-flight capacity, nor more than its queue credits; and
-- exactly the batch is added to the request set, which forgets the pieces before the cursor.
pub assign_inner_returns :
    (s : Scheduler) (next head : ℕ) (ps : List PeerView) (q : Option (Map ℕ))
    → Scheduler.scan_end s next head q (Scheduler.slots_from s.max_in_flight q ps) < u64_max
    → (s' : Scheduler) × (out : List (ℕ × ℕ)) × (Scheduler.assign_inner s next head ps q
        ≡ some (s', out))
      × Assigns s next head ps q s' out
assign_inner_returns s next head ps q no_wrap =
    let cap = Scheduler.slots_from s.max_in_flight q ps in
    let limit = Scheduler.scan_end s next head q cap in
    let old = retain (λ p. leb next p) s.requested in
    let (t, e, h, last) =
      scan-returns old cap next limit no_wrap (suc (limit + 1 - next))
        {s = Scheduler.scan_start s next head cap} (omega arith)
        (unfold Scheduler.scan_start in omega arith) (scan_start-Scanned s next head ps q) in
    (
      record s { requested = t.requested },
      t.out,
      unfold Scheduler.assign_inner in rw (e, Scheduler.assign_inner),
      record {
        cap = refl;
        requests =
            Batch-Requests s.requested s.max_in_flight q ps next limit head next t.piece t.out
              (limit-le-head s next head q cap) (omega arith) h.batch;
        spare = λ id. omega (arith, h.spare id, spare_of-slots_from s.max_in_flight id q ps);
        credit =
            λ id credits e. credit-le s.max_in_flight id q ps credits e t.cap t.out (h.credit id);
        recorded =
            λ k. ground (arith, h.recorded k, contains_key-retain (λ p. leb next p) k s.requested);
      },
    )

-- ===== src/Swarm/ActivePeers/InFlight.antt =====
-- crates/ace-swarm/src/scheduler.rs: no peer ever has more pieces in flight than the cap.
use outpace.Prelude.{
  ℕ, suc, ◌+◌, ◌-◌, ◌≤◌, ◌<◌, ◌≡◌, refl, ◌∙◌, Option, none, some, List, [], ◌∷◌, length, ◌==◌,
  u64_mod, u64_max, inl, inr, Bool-cases, Option-cases, arith,
}
use outpace.Prelude.Maps.{
  Map, Set, lookup, insert, lookup-insert, Between, insert-Between, lookup-Between,
  length-insert-le,
}
use outpace.Swarm.Scheduler
use outpace.Swarm.Scheduler.{Scheduler, PeerView}
use outpace.Swarm.Scheduler.Scanning.{count_of}
use outpace.Swarm.Scheduler.Assignment.{capacity_of, Assigns, assign_inner_returns}
use outpace.Swarm.ActivePeers
use outpace.Swarm.ActivePeers.{ActivePeer, ActivePeers, LivePosition, PeerAssignment}

-- The peers are in order of their ids, and each has at most `cap` pieces in flight.
pub record IsCapped (cap : ℕ) (a : ActivePeers) : Type 0 where
  pub ids : Between 0 u64_mod a.peers
  pub capped : (id : ℕ) (p : ActivePeer) → lookup id a.peers ≡ some p → length p.in_flight ≤ cap

module _ (cap : ℕ) where
  pub insert-IsCapped :
      {a : ActivePeers} (id : ℕ) (p : ActivePeer)
      → id < u64_mod
      → length p.in_flight ≤ cap
      → IsCapped cap a
      → IsCapped cap (record { peers = insert id p a.peers })
  insert-IsCapped {a} id p h few c = record {
    ids = insert-Between 0 u64_mod id p a.peers (omega arith) h c.ids;
    capped = λ k q e. ground (arith, lookup-insert k id p a.peers, c.capped k q);
  }

  -- A change of a known peer that puts nothing in flight.
  pub with_peer-IsCapped :
      {a : ActivePeers} (id : ℕ) (change : ActivePeer → ActivePeer)
      → ((p : ActivePeer) → length (change p).in_flight ≤ length p.in_flight)
      → IsCapped cap a
      → IsCapped cap (ActivePeers.with_peer a id change)
  unfolding ActivePeers.with_peer
  with_peer-IsCapped {a} id change fewer c = elim (Option-cases (lookup id a.peers)) [
    | inl e ↦ rw (e, ActivePeers.with_peer) c
    | inr (p, e) ↦
        rw (e, ActivePeers.with_peer)
          (insert-IsCapped id (change p) (lookup-Between 0 u64_mod id a.peers c.ids e).1
            (omega (arith, fewer p, c.capped id p e)) c)
  ]

  lookup-each_in_flight :
      (change : Set → Set) (id : ℕ) (m : Map ActivePeer) {q : ActivePeer}
      → lookup id (ActivePeers.each_in_flight change m) ≡ some q
      → (p : ActivePeer) × (lookup id m ≡ some p) × (q.in_flight ≡ change p.in_flight)
  unfolding ActivePeers.each_in_flight lookup
  lookup-each_in_flight change id [] e = absurd (cc e)
  lookup-each_in_flight change id ((j, p) ∷ m) {q} e = elim (Bool-cases (j == id)) [
    | inl here ↦ (p, rw here refl, ground arith)
    | inr later ↦
        let (p', found, same) = lookup-each_in_flight change id m {q = q} (ground arith) in
        (p', rw later found, same)
  ]

  each_in_flight-Between :
      (change : Set → Set) (lo hi : ℕ) (m : Map ActivePeer)
      → Between lo hi m
      → Between lo hi (ActivePeers.each_in_flight change m)
  unfolding ActivePeers.each_in_flight
  each_in_flight-Between change lo hi [] b = tt
  each_in_flight-Between change lo hi ((j, p) ∷ m) b =
      (b.0, b.1, each_in_flight-Between change (suc j) hi m b.2)

  pub each_in_flight-IsCapped :
      {a : ActivePeers} (change : Set → Set)
      → ((s : Set) → length (change s) ≤ length s)
      → IsCapped cap a
      → IsCapped cap (record { peers = ActivePeers.each_in_flight change a.peers })
  each_in_flight-IsCapped {a} change fewer c = record {
    ids = each_in_flight-Between change 0 u64_mod a.peers c.ids;
    capped = λ id q e.
        let (p, found, same) = lookup-each_in_flight change id a.peers e in
        rw same (omega (arith, fewer p.in_flight, c.capped id p found));
  }

  -- The batch is recorded piece by piece; there is room for it under the cap.
  record_batch-IsCapped :
      (batch : List (ℕ × ℕ)) (a : ActivePeers) (s : Scheduler)
      → Between 0 u64_mod a.peers
      → ((id : ℕ) (p : ActivePeer)
          → lookup id a.peers ≡ some p
          → length p.in_flight + count_of id batch ≤ cap)
      → IsCapped cap (ActivePeers.record_batch batch a s).0
  unfolding ActivePeers.record_batch
  record_batch-IsCapped [] a s b room = record {
    ids = b;
    capped = λ id p e. omega (arith, room id p e);
  }
  record_batch-IsCapped ((id, pc) ∷ batch) a s b room = elim (Option-cases (lookup id a.peers)) [
    | inl e ↦
        rw (e, ActivePeers.record_batch)
          (record_batch-IsCapped batch a (Scheduler.on_drop s pc) b
            (λ k p f. omega (arith, room k p f)))
    | inr (p, e) ↦
        let joined = record p { in_flight = insert pc tt p.in_flight } in
        let a' : ActivePeers = record { peers = insert id joined a.peers } in
        rw (e, ActivePeers.record_batch)
          (record_batch-IsCapped batch a' s
            (insert-Between 0 u64_mod id joined a.peers (omega arith)
              (lookup-Between 0 u64_mod id a.peers b e).1 b)
            (λ k q f. ground (
              arith,
              lookup-insert k id joined a.peers,
              length-insert-le pc tt p.in_flight,
              room k q,
              room id p e,
            )))
  ]

-- An id below all others has no capacity, since it has no view.
capacity_of_below :
    (cap id lo hi : ℕ) (m : Map ActivePeer)
    → Between lo hi m
    → id < lo
    → capacity_of cap id (ActivePeers.peer_views m) ≡ 0
unfolding ActivePeers.peer_views
capacity_of_below cap id lo hi [] b h = refl
capacity_of_below cap id lo hi ((j, p) ∷ m) b h =
    ground (arith, capacity_of_below cap id (suc j) hi m b.2 (omega arith))

capacity_of-peer_views :
    (cap id lo hi : ℕ) (m : Map ActivePeer) {p : ActivePeer}
    → Between lo hi m
    → lookup id m ≡ some p
    → capacity_of cap id (ActivePeers.peer_views m) ≤ cap - length p.in_flight
unfolding ActivePeers.peer_views lookup
capacity_of-peer_views cap id lo hi [] b e = absurd (cc e)
capacity_of-peer_views cap id lo hi ((j, q) ∷ m) {p} b e = ground (
  arith,
  capacity_of_below cap id (suc j) hi m b.2,
  capacity_of-peer_views cap id (suc j) hi m {p = p} b.2,
)

admit-assign_inner :
    (a : ActivePeers) (s : Scheduler) (next head : ℕ) (q : Option (Map ℕ))
    → ActivePeers.admit a s next head q
      ≡ Scheduler.assign_inner s next head (ActivePeers.peer_views a.peers) q
unfolding ActivePeers.admit Scheduler.assign Scheduler.assign_with_queue_slots
admit-assign_inner a s next head none = refl
admit-assign_inner a s next head (some slots) = refl

-- Where the scheduler's scan ends, in front of `u64::MAX`.
abbrev pub Ends : ActivePeers → Scheduler → ℕ → ℕ → Option (Map ℕ) → Type 0
Ends a s next head q =
    Scheduler.scan_end s next head q
      (Scheduler.slots_from s.max_in_flight q (ActivePeers.peer_views a.peers))
    < u64_max

-- `assign_inner` returns, with every peer still under the cap, and with the scheduler's batch for
-- the current views recorded.
pub assign_inner-IsCapped :
    {a : ActivePeers} (s : Scheduler) (next head : ℕ) (q : Option (Map ℕ))
    → Ends a s next head q
    → IsCapped s.max_in_flight a
    → (t : Scheduler) × (batch : List (ℕ × ℕ)) × (Assigns s next head
        (ActivePeers.peer_views a.peers)
        q
        t
        batch)
      × (ActivePeers.assign_inner a s next head q ≡ some (ActivePeers.record_batch batch a t))
      × IsCapped s.max_in_flight (ActivePeers.record_batch batch a t).0
unfolding ActivePeers.assign_inner
assign_inner-IsCapped {a} s next head q ends c =
    let (t, batch, e, h) =
      assign_inner_returns s next head (ActivePeers.peer_views a.peers) q ends in
    let admitted = admit-assign_inner a s next head q ∙ e in
    (
      t,
      batch,
      h,
      rw (admitted, ActivePeers.assign_inner) refl,
      record_batch-IsCapped s.max_in_flight batch a t c.ids (λ id p f. omega (
        arith,
        h.spare id,
        c.capped id p f,
        capacity_of-peer_views s.max_in_flight id 0 u64_mod a.peers c.ids f,
      )),
    )

-- ===== src/Swarm/ActivePeers/Requests.antt =====
-- crates/ace-swarm/src/scheduler.rs: what a call of `ActivePeers::assign` hands out and records.
use outpace.Prelude.{
  ℕ, ◌≡◌, refl, sym, ◌∙◌, true, Option, some, List, [], ◌∷◌, map, ap, subst, ◌==◌, Bool-cases,
  Option-cases, inl, inr, arith,
}
use outpace.Prelude.Maps.{
  Map, Set, lookup, insert, contains_key, contains_key-insert, lookup-insert,
}
use outpace.Swarm.Scheduler.{Scheduler}
use outpace.Swarm.Scheduler.Assignment.{Assigns, Offers, Requests}
use outpace.Swarm.ActivePeers
use outpace.Swarm.ActivePeers.{ActivePeer, ActivePeers, PeerAssignment}
use outpace.Swarm.ActivePeers.InFlight.{IsCapped, Ends, assign_inner-IsCapped}

-- Each request of the batch is for a peer that is there.
abbrev AllKnown : ActivePeers → List (ℕ × ℕ) → Type 0
AllKnown a [] = Unit {0}
AllKnown a ((id, pc) ∷ batch) = (contains_key id a.peers ≡ true) × AllKnown a batch

offered-known :
    (id piece : ℕ) (m : Map ActivePeer)
    → Offers id piece (ActivePeers.peer_views m)
    → contains_key id m ≡ true
unfolding ActivePeers.peer_views ActivePeers.view_of contains_key lookup
offered-known id piece [] o = absurd o
offered-known id piece ((j, p) ∷ m) (inl (u, e, c)) = ground arith
offered-known id piece ((j, p) ∷ m) (inr rest) = ground (arith, offered-known id piece m rest)

Requests-AllKnown :
    (requested : Set) (a : ActivePeers) (head lo : ℕ) (batch : List (ℕ × ℕ))
    → Requests requested (ActivePeers.peer_views a.peers) head lo batch
    → AllKnown a batch
Requests-AllKnown requested a head lo [] r = tt
Requests-AllKnown requested a head lo ((id, pc) ∷ batch) r =
    (offered-known id pc a.peers r.3, Requests-AllKnown requested a head _ batch r.4)

insert-AllKnown :
    (a : ActivePeers) (id : ℕ) (p : ActivePeer) (batch : List (ℕ × ℕ))
    → AllKnown a batch
    → AllKnown (record { peers = insert id p a.peers }) batch
insert-AllKnown a id p [] k = tt
insert-AllKnown a id p ((j, pc) ∷ batch) k =
    (ground (arith, contains_key-insert j id p a.peers), insert-AllKnown a id p batch k.1)

-- The request as it leaves the active peers.
abbrev pub assignment_of : ℕ × ℕ → PeerAssignment
assignment_of (id, pc) = record { peer_id = id; piece = pc }

-- The peer has the piece in flight.
abbrev pub InFlight : ActivePeers → ℕ → ℕ → Type 0
InFlight a id pc =
    (p : ActivePeer) × (lookup id a.peers ≡ some p) × (contains_key pc p.in_flight ≡ true)

insert-InFlight :
    (a : ActivePeers) (id pc : ℕ) {q : ActivePeer} (j r : ℕ)
    → lookup id a.peers ≡ some q
    → InFlight a j r
    → InFlight
        (record { peers = insert id (record q { in_flight = insert pc tt q.in_flight }) a.peers })
        j
        r
insert-InFlight a id pc {q} j r e (p, f, h) =
    let q' = record q { in_flight = insert pc tt q.in_flight } in
    elim (Bool-cases (id == j)) [
      | inl same ↦ (
        q',
        ground (arith, lookup-insert j id q' a.peers),
        ground (arith, contains_key-insert r pc tt q.in_flight),
      )
      | inr other ↦ (p, ground (arith, lookup-insert j id q' a.peers), h)
    ]

-- What was in flight stays so while a batch is recorded.
record_batch-keeps :
    (batch : List (ℕ × ℕ)) (a : ActivePeers) (s : Scheduler) (j r : ℕ)
    → InFlight a j r
    → InFlight (ActivePeers.record_batch batch a s).0 j r
unfolding ActivePeers.record_batch
record_batch-keeps [] a s j r h = h
record_batch-keeps ((id, pc) ∷ batch) a s j r h = elim (Option-cases (lookup id a.peers)) [
  | inl e ↦ rw (e, ActivePeers.record_batch) (record_batch-keeps batch a _ j r h)
  | inr (p, e) ↦
      rw (e, ActivePeers.record_batch)
        (record_batch-keeps batch _ s j r (insert-InFlight a id pc j r e h))
]

abbrev pub AllInFlight : ActivePeers → List (ℕ × ℕ) → Type 0
AllInFlight a [] = Unit {0}
AllInFlight a ((id, pc) ∷ batch) = InFlight a id pc × AllInFlight a batch

record_batch_step :
    (id pc : ℕ) (batch : List (ℕ × ℕ)) (a : ActivePeers) (s : Scheduler) {p : ActivePeer}
    → lookup id a.peers ≡ some p
    → let joined = record p { in_flight = insert pc tt p.in_flight } in
      let rest = ActivePeers.record_batch batch (record { peers = insert id joined a.peers }) s in
      ActivePeers.record_batch ((id, pc) ∷ batch) a s
      ≡ (rest.0, rest.1, record { peer_id = id; piece = pc } ∷ rest.2)
unfolding ActivePeers.record_batch
record_batch_step id pc batch a s e = rw (e, ActivePeers.record_batch) refl

record_batch-known :
    (batch : List (ℕ × ℕ)) (a : ActivePeers) (s : Scheduler)
    → AllKnown a batch
    → ((ActivePeers.record_batch batch a s).1 ≡ s)
      × ((ActivePeers.record_batch batch a s).2 ≡ map assignment_of batch)
      × AllInFlight (ActivePeers.record_batch batch a s).0 batch
unfolding contains_key
record_batch-known [] a s k = unfold ActivePeers.record_batch in (refl, refl, tt)
record_batch-known ((id, pc) ∷ batch) a s k = elim (Option-cases (lookup id a.peers)) [
  | inl e ↦ absurd (ground arith)
  | inr (p, e) ↦
      let joined = record p { in_flight = insert pc tt p.in_flight } in
      let a' : ActivePeers = record { peers = insert id joined a.peers } in
      let now : InFlight a' id pc = (
        joined,
        ground (arith, lookup-insert id id joined a.peers),
        ground (arith, contains_key-insert pc pc tt p.in_flight),
      ) in
      let (kept, out, rest) =
        record_batch-known batch a' s (insert-AllKnown a id joined batch k.1) in
      rw (record_batch_step id pc batch a s e) (
        kept,
        ap (λ os. record { peer_id = id; piece = pc } ∷ os) out,
        (
          record_batch-keeps batch a' s id pc now,
          subst (λ x. AllInFlight x.0 batch) (sym (record_batch_step id pc batch a s e)) rest,
        ),
      )
]

-- Where the scan ends in front of `u64::MAX` and no peer is over the cap, `assign_inner` returns.
-- Its requests are the scheduler's batch for the current views, none given back: strictly ascending
-- pieces of the wanted range that were not requested before, each for an unchoked peer whose window
-- covers it. Each is in its peer's flight and in the request set, and no peer is over the cap.
pub assign_inner_records :
    (a : ActivePeers) (s : Scheduler) (next head : ℕ) (q : Option (Map ℕ))
    → Ends a s next head q
    → IsCapped s.max_in_flight a
    → (a' : ActivePeers) × (s' : Scheduler) × (batch : List (ℕ × ℕ)) × (ActivePeers.assign_inner a s
          next head q
        ≡ some (a', s', map assignment_of batch))
      × Assigns s next head (ActivePeers.peer_views a.peers) q s' batch
      × AllInFlight a' batch
      × IsCapped s'.max_in_flight a'
assign_inner_records a s next head q ends c =
    let (t, batch, h, e, c') = assign_inner-IsCapped s next head q ends c in
    let (kept, out, flying) =
      record_batch-known batch a t (Requests-AllKnown s.requested a head next batch h.requests) in
    ((ActivePeers.record_batch batch a t).0, t, batch, e ∙ cc (kept, out), h, flying, rw (h.cap) c')

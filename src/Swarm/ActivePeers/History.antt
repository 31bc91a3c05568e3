-- ===== src/Swarm/ActivePeers/History.antt =====
-- crates/ace-swarm/src/scheduler.rs: runs of the active peers together with their scheduler.
use outpace.Prelude.{
  ℕ, ◌≤◌, ◌<◌, max, ◌≡◌, refl, sym, ◌∙◌, Bool, not, Option, some, List, [], ◌∷◌, leb, ◌==◌, u64_mod,
  Option-cases, inl, inr, arith, subst,
}
use outpace.Prelude.Maps.{Map, lookup, remove, lookup-remove, remove-Between, length-retain-le}
use outpace.Swarm.Scheduler
use outpace.Swarm.Scheduler.{Scheduler}
use outpace.Swarm.ActivePeers
use outpace.Swarm.ActivePeers.{ActivePeer, ActivePeers, LivePosition, PeerAssignment}
use outpace.Swarm.ActivePeers.InFlight.{
  IsCapped, insert-IsCapped, with_peer-IsCapped, each_in_flight-IsCapped, Ends,
  assign_inner-IsCapped,
}

-- Any call of the active peers or of the scheduler that serves them.
pub data Step (a : ActivePeers) (s : Scheduler) : ActivePeers → Scheduler → Type 0 where
  joins :
      (id : ℕ) (window : LivePosition)
      → id < u64_mod
      → Step a s (ActivePeers.insert_peer a id window) s
  chokes : (id : ℕ) (unchoked : Bool) → Step a s (ActivePeers.set_unchoked a id unchoked) s
  moves : (id lo hi : ℕ) → Step a s (ActivePeers.update_window a id lo hi) s
  observes :
      (id : ℕ) (bounds : Option (ℕ × ℕ)) → Step a s (ActivePeers.observe_window a id bounds) s
  assigns :
      (next head : ℕ) (q : Option (Map ℕ)) (a' : ActivePeers) (s' : Scheduler)
      (out : List PeerAssignment)
      → Ends a s next head q
      → ActivePeers.assign_inner a s next head q ≡ some (a', s', out)
      → Step a s a' s'
  cancels : (id piece : ℕ) → Step a s (ActivePeers.cancel_assignment a id piece) s
  leaves : (id : ℕ) → Step a s (ActivePeers.remove_peer a id).0 s
  completes : (piece : ℕ) → Step a s (ActivePeers.complete_everywhere a piece) s
  prunes : (floor : ℕ) → Step a s (ActivePeers.prune_below a floor) s
  frees : (piece : ℕ) → Step a s a (Scheduler.on_complete s piece)
  drops : (piece : ℕ) → Step a s a (Scheduler.on_drop s piece)
  clears : Step a s a (Scheduler.clear_in_flight s)

pub data Run (a : ActivePeers) (s : Scheduler) : ActivePeers → Scheduler → Type 0 where
  here : Run a s a s
  more : {b c : ActivePeers} {t u : Scheduler} → Run a s b t → Step b t c u → Run a s c u

record_batch-max_in_flight :
    (batch : List (ℕ × ℕ)) (a : ActivePeers) (s : Scheduler)
    → (ActivePeers.record_batch batch a s).1.max_in_flight ≡ s.max_in_flight
unfolding ActivePeers.record_batch Scheduler.on_drop
record_batch-max_in_flight [] a s = refl
record_batch-max_in_flight ((id, pc) ∷ batch) a s = elim (Option-cases (lookup id a.peers)) [
  | inl e ↦
      rw (e, ActivePeers.record_batch) (record_batch-max_in_flight batch a (Scheduler.on_drop s pc))
  | inr (p, e) ↦ rw (e, ActivePeers.record_batch) (record_batch-max_in_flight batch _ s)
]

-- What a call keeps: the cap, and that every peer is under it.
abbrev Keeps : ActivePeers → Scheduler → ℕ → Type 0
Keeps a s cap = IsCapped cap a × (s.max_in_flight ≡ cap)

remove_peer-IsCapped :
    {cap : ℕ} {a : ActivePeers} (id : ℕ)
    → IsCapped cap a
    → IsCapped cap (ActivePeers.remove_peer a id).0
unfolding ActivePeers.remove_peer
remove_peer-IsCapped {a = a} id c = record {
  ids = remove-Between 0 u64_mod id a.peers c.ids;
  capped = λ k p e. ground (arith, lookup-remove id k a.peers, c.capped k p);
}

assigns-Keeps :
    (a : ActivePeers) {a' : ActivePeers} (s : Scheduler) {s' : Scheduler} {cap : ℕ} (next head : ℕ)
    (q : Option (Map ℕ)) (out : List PeerAssignment)
    → Ends a s next head q
    → ActivePeers.assign_inner a s next head q ≡ some (a', s', out)
    → Keeps a s cap
    → Keeps a' s' cap
assigns-Keeps a {a'} s {s'} {cap} next head q out ends e (c, m) =
    let (t, batch, h, e', c') = assign_inner-IsCapped s next head q ends (rw m c) in
    let at : some (a', s', out) ≡ some (ActivePeers.record_batch batch a t) = sym e ∙ e' in
    let same : (a', s', out) ≡ ActivePeers.record_batch batch a t = cc at in
    subst (λ x. Keeps x.0 x.1 cap) (sym same)
      (
        subst (λ n. IsCapped n (ActivePeers.record_batch batch a t).0) m c',
        record_batch-max_in_flight batch a t ∙ (h.cap ∙ m),
      )

Step-Keeps :
    {a b : ActivePeers} {s t : Scheduler} {cap : ℕ} → Keeps a s cap → Step a s b t → Keeps b t cap
unfolding ActivePeers.insert_peer ActivePeers.fresh_peer ActivePeers.set_unchoked
    ActivePeers.update_window ActivePeers.observe_window ActivePeers.cancel_assignment
    ActivePeers.complete_everywhere ActivePeers.prune_below Scheduler.on_complete Scheduler.on_drop
    Scheduler.clear_in_flight remove
Step-Keeps {cap = cap} (c, m) (joins id window h) =
    (insert-IsCapped cap id (ActivePeers.fresh_peer window) h (omega arith) c, m)
Step-Keeps {cap = cap} (c, m) (chokes id unchoked) =
    (with_peer-IsCapped cap id _ (λ p. omega arith) c, m)
Step-Keeps {cap = cap} (c, m) (moves id lo hi) =
    (with_peer-IsCapped cap id _ (λ p. omega arith) c, m)
Step-Keeps {cap = cap} (c, m) (observes id bounds) =
    (with_peer-IsCapped cap id _ (λ p. omega arith) c, m)
Step-Keeps {a} {s = s} k (assigns next head q a' s' out ends e) =
    assigns-Keeps a s next head q out ends e k
Step-Keeps {cap = cap} (c, m) (cancels id piece) =
    (with_peer-IsCapped cap id _ (λ p. length-retain-le (λ j. not (j == piece)) p.in_flight) c, m)
Step-Keeps (c, m) (leaves id) = (remove_peer-IsCapped id c, m)
Step-Keeps {cap = cap} (c, m) (completes piece) =
    (each_in_flight-IsCapped cap _ (length-retain-le (λ j. not (j == piece))) c, m)
Step-Keeps {cap = cap} (c, m) (prunes floor) =
    (each_in_flight-IsCapped cap _ (length-retain-le (λ pc. leb floor pc)) c, m)
Step-Keeps k (frees piece) = k
Step-Keeps k (drops piece) = k
Step-Keeps k clears = k

Run-Keeps :
    {a : ActivePeers} {s : Scheduler} {b : ActivePeers} {t : Scheduler} {cap : ℕ}
    → Keeps a s cap
    → Run a s b t
    → Keeps b t cap
Run-Keeps k here = k
Run-Keeps k (more run step) = Step-Keeps (Run-Keeps k run) step

-- From no peers and a new scheduler, whatever calls are made, with assignments whose scan ends in
-- front of `u64::MAX`: no peer ever has more pieces in flight than the scheduler's cap, and that cap
-- stays the one it was made with, at least one.
pub Run-IsCapped :
    (max_in_flight : ℕ) {a : ActivePeers} {s : Scheduler}
    → Run ActivePeers.new (Scheduler.new max_in_flight) a s
    → (s.max_in_flight ≡ max max_in_flight 1)
      × ((id : ℕ) → ActivePeers.in_flight_count a id ≤ s.max_in_flight)
unfolding Scheduler.new ActivePeers.new lookup ActivePeers.in_flight_count
Run-IsCapped m {a} {s} run =
    let start : Keeps ActivePeers.new (Scheduler.new m) (max m 1) =
      (record { ids = tt; capped = λ id p e. absurd (cc e) }, refl) in
    let (c, e) = Run-Keeps {cap = max m 1} start run in
    (
      e,
      λ id. elim (Option-cases (lookup id a.peers)) [
        | inl f ↦ rw (f, ActivePeers.in_flight_count) (omega arith)
        | inr (p, f) ↦ rw (f, ActivePeers.in_flight_count) (omega (arith, c.capped id p f))
      ],
    )

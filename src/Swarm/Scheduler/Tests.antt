-- ===== src/Swarm/Scheduler/Tests.antt =====
-- Runs of crates/ace-swarm/src/scheduler.rs, and its theorems at concrete peers.
use outpace.Prelude.{ℕ, ◌≡◌, refl, true, some, none, List, [], ◌∷◌, u64_max, arith}
use outpace.Swarm.Scheduler
use outpace.Swarm.Scheduler.{PeerView, Scheduler, assign_inner, assign}
use outpace.Swarm.Scheduler.Assignment.{Assigns, assign_inner_returns}
use outpace.Prelude.Maps.{lookup, insert, retain, contains_key}

program : Unit {0}
unfolding assign assign_inner Scheduler.slots_from Scheduler.scan Scheduler.scan_step Scheduler.pick
    Scheduler.scan_slots lookup insert retain contains_key Scheduler.new
program = tt

abbrev peer : (id lo hi in_flight : ℕ) → PeerView
peer id lo hi in_flight = record {
  id = id;
  min_piece = lo;
  max_piece = hi;
  unchoked = true;
  in_flight = in_flight;
}

abbrev two_at_a_time : Scheduler
two_at_a_time = record { max_in_flight = 2; requested = [] }

-- The second peer has more to spare, and wins ties as the later one.
spread :
    assign two_at_a_time 0 100 (peer 1 0 100 1 ∷ peer 2 0 100 0 ∷ [])
    ≡ some (
      record { max_in_flight = 2; requested = (0, tt) ∷ (1, tt) ∷ (2, tt) ∷ [] },
      (2, 0) ∷ (2, 1) ∷ (1, 2) ∷ [],
    )
unfolding program
spread = refl

-- A far window is not scanned up to.
far : assign two_at_a_time 0 200000 (peer 1 100000 100000 0 ∷ []) ≡ some (two_at_a_time, [])
unfolding program
far = refl

assign_inner_returns_example :
    (s' : Scheduler) × (out : List (ℕ × ℕ)) × (assign_inner two_at_a_time 0 u64_max
        (peer 1 0 100 1 ∷ peer 2 0 100 0 ∷ [])
        none
      ≡ some (s', out))
    × Assigns two_at_a_time 0 u64_max (peer 1 0 100 1 ∷ peer 2 0 100 0 ∷ []) none s' out
unfolding Scheduler.scan_end Scheduler.scan_slots Scheduler.slots_from
assign_inner_returns_example =
    assign_inner_returns two_at_a_time 0 u64_max (peer 1 0 100 1 ∷ peer 2 0 100 0 ∷ []) none
      (omega arith)

-- ===== src/Swarm/ActivePeers/Tests.antt =====
-- Runs of the active peers of crates/ace-swarm/src/scheduler.rs, and their theorems at work.
use outpace.Prelude.{ℕ, ◌≤◌, ◌≡◌, refl, max, true, none, some, List, [], ◌∷◌, map, arith}
use outpace.Prelude.Ints.{pos, negsuc, try_u64, max_zero}
use outpace.Prelude.Maps.{lookup, insert, remove, retain, contains_key}
use outpace.Swarm.Scheduler
use outpace.Swarm.Scheduler.{Scheduler}
use outpace.Swarm.Scheduler.Assignment.{Assigns}
use outpace.Swarm.ActivePeers
use outpace.Swarm.ActivePeers.{ActivePeers, LivePosition}
use outpace.Swarm.ActivePeers.InFlight.{IsCapped, Ends}
use outpace.Swarm.ActivePeers.History
use outpace.Swarm.ActivePeers.History.{Run-IsCapped}
use outpace.Swarm.ActivePeers.Requests.{AllInFlight, assignment_of, assign_inner_records}

program : Unit {0}
unfolding lookup insert remove retain contains_key try_u64 max_zero Scheduler.new Scheduler.covers
    Scheduler.slots_from Scheduler.slot_of Scheduler.total_spare Scheduler.policy_horizon
    Scheduler.scan_slots Scheduler.eligible Scheduler.pick Scheduler.scan_step Scheduler.scan
    Scheduler.scan_start Scheduler.scan_end Scheduler.assign_inner Scheduler.assign
    Scheduler.assign_with_queue_slots ActivePeers.new ActivePeers.ordered_bounds ActivePeers.zip
    ActivePeers.fresh_peer ActivePeers.insert_peer ActivePeers.with_peer ActivePeers.set_unchoked
    ActivePeers.view_of ActivePeers.peer_views ActivePeers.record_batch ActivePeers.admit
    ActivePeers.assign_inner ActivePeers.assign ActivePeers.in_flight_count
    ActivePeers.coverage_bounds ActivePeers.reduce_bounds ActivePeers.lowest_covered_piece
    ActivePeers.lowest
program = tt

abbrev window : LivePosition
window = record {
  min_piece = negsuc 0;
  max_piece = pos 100;
  position = pos 100;
  distance_from_source = pos 0;
}

abbrev joined : ActivePeers
joined = ActivePeers.set_unchoked (ActivePeers.insert_peer ActivePeers.new 7 window) 7 true

abbrev scheduler : Scheduler
scheduler = Scheduler.new 2

-- A signed window is not known coverage, but its lowest piece is served from 0 on.
bounds : ActivePeers.coverage_bounds joined ≡ none
unfolding program
bounds = refl

lowest_piece : ActivePeers.lowest_covered_piece joined ≡ some 0
unfolding program
lowest_piece = refl

ends : Ends joined scheduler 5 50 none
unfolding program
ends = omega arith

joined-Run : History.Run ActivePeers.new scheduler joined scheduler
joined-Run =
    History.more (History.more History.here (History.joins 7 window (omega arith)))
      (History.chokes 7 true)

abbrev busy : ActivePeers
busy = record {
  peers =
      (
        7,
        record {
          observed_bounds = none;
          min_piece = 0;
          max_piece = 100;
          unchoked = true;
          in_flight = (5, tt) ∷ (6, tt) ∷ [];
        },
      )
      ∷ [];
}

abbrev busy_scheduler : Scheduler
busy_scheduler = record { max_in_flight = 2; requested = (5, tt) ∷ (6, tt) ∷ [] }

-- Pieces 5 and 6 are asked of the peer, which then is at its cap.
busy-Run : History.Run ActivePeers.new scheduler busy busy_scheduler
unfolding program
busy-Run = History.more joined-Run (History.assigns 5 50 none busy busy_scheduler _ ends refl)

Run-IsCapped_example :
    (busy_scheduler.max_in_flight ≡ max 2 1)
    × ((id : ℕ) → ActivePeers.in_flight_count busy id ≤ busy_scheduler.max_in_flight)
Run-IsCapped_example = Run-IsCapped 2 busy-Run

joined-IsCapped : IsCapped scheduler.max_in_flight joined
unfolding program
joined-IsCapped = record { ids = (omega arith, omega arith, tt); capped = λ id p e. ground arith }

assign_inner_records_example :
    (a' : ActivePeers) × (s' : Scheduler) × (batch : List (ℕ × ℕ)) × (ActivePeers.assign_inner
        joined scheduler 5 50 none
      ≡ some (a', s', map assignment_of batch))
    × Assigns scheduler 5 50 (ActivePeers.peer_views joined.peers) none s' batch
    × AllInFlight a' batch
    × IsCapped s'.max_in_flight a'
assign_inner_records_example = assign_inner_records joined scheduler 5 50 none ends joined-IsCapped

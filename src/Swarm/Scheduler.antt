-- ===== src/Swarm/Scheduler.antt =====
-- crates/ace-swarm/src/scheduler.rs: which piece to request from which peer. `usize` is 64 bits.
pub mod Picking
pub mod Scanning
pub mod Assignment
mod Tests
use outpace.Prelude.{
  ℕ, zero, suc, ◌+◌, ◌-◌, ◌%◌, min, max, Bool, true, false, ◌&&◌, Option, none, some, get_or, List,
  [], ◌∷◌, ◌++◌, length, ltb, leb, ◌==◌, if◌then◌else◌, u64_mod, u64_max, saturating_add,
}
use outpace.Prelude.Maps.{Map, Set, lookup, insert, remove, retain, contains_key}

pub record PeerView : Type 0 where
  pub id : ℕ
  pub min_piece : ℕ
  pub max_piece : ℕ
  pub unchoked : Bool
  pub in_flight : ℕ

unfoldable pub covers : PeerView → ℕ → Bool
covers p piece = leb p.min_piece piece && leb piece p.max_piece

pub record Scheduler : Type 0 where
  pub max_in_flight : ℕ
  pub requested : Set

unfoldable pub new : ℕ → Scheduler
new max_in_flight = record { max_in_flight = max max_in_flight 1; requested = [] }

-- An entry `(PeerView, spare, slots)` of the vector `cap`.
pub record Slot : Type 0 where
  pub view : PeerView
  pub spare : ℕ
  pub slots : ℕ

unfoldable pub slot_of : ℕ → Option (Map ℕ) → PeerView → Slot
slot_of max_in_flight queue_slots p = record {
  view = p;
  spare = max_in_flight - p.in_flight;
  slots = elim queue_slots [
    | some credits ↦ get_or (lookup p.id credits) 0
    | none ↦ max_in_flight - p.in_flight
  ];
}

-- `cap`: the unchoked peers with their remaining capacity.
unfoldable pub slots_from : ℕ → Option (Map ℕ) → List PeerView → List Slot
unfolding slot_of
slots_from max_in_flight queue_slots [] = []
slots_from max_in_flight queue_slots (p ∷ ps) =
    if p.unchoked
    then slot_of max_in_flight queue_slots p ∷ slots_from max_in_flight queue_slots ps
    else slots_from max_in_flight queue_slots ps

-- `cap.iter().map(..).sum()`, which wraps.
unfoldable pub total_spare : List Slot → ℕ
total_spare [] = 0
total_spare (s ∷ cap) = (s.spare + total_spare cap) % u64_mod

unfoldable pub policy_horizon : ℕ → ℕ → List Slot → ℕ
policy_horizon max_in_flight total [] = total
policy_horizon max_in_flight total (s ∷ cap) =
    policy_horizon max_in_flight (saturating_add total max_in_flight) cap

unfoldable pub scan_slots : ℕ → Option (Map ℕ) → List Slot → ℕ
unfolding policy_horizon total_spare
scan_slots max_in_flight queue_slots cap = elim queue_slots [
  | some _ ↦ policy_horizon max_in_flight 0 cap
  | none ↦ total_spare cap
]

unfoldable pub eligible : ℕ → Slot → Bool
unfolding covers
eligible piece s = ltb 0 s.spare && (ltb 0 s.slots && covers s.view piece)

abbrev pub spend : Slot → Slot
spend s = record s { spare = s.spare - 1; slots = s.slots - 1 }

-- `filter(..).max_by_key(..)`, the last slot with the most spare capacity, and `cap` after the slot
-- has been charged for one request.
unfoldable pub pick : ℕ → List Slot → Option (Slot × List Slot)
unfolding eligible
pick piece [] = none
pick piece (s ∷ cap) = elim (pick piece cap) [
  | none ↦ if eligible piece s then some (s, spend s ∷ cap) else none
  | some (t, cap') ↦
      if eligible piece s && ltb t.spare s.spare
      then some (s, spend s ∷ cap)
      else some (t, s ∷ cap')
]

-- The variables of the loop of `assign_inner`.
pub record Scan : Type 0 where
  pub ceiling : ℕ
  pub piece : ℕ
  pub requested : Set
  pub cap : List Slot
  pub out : List (ℕ × ℕ)

-- The body of the loop.
unfoldable pub scan_step : ℕ → Scan → Scan
scan_step scan_ceiling s =
    if contains_key s.piece s.requested
    then record s {
      ceiling = min (saturating_add s.ceiling 1) scan_ceiling;
      piece = (s.piece + 1) % u64_mod;
    }
    else elim (pick s.piece s.cap) [
      | none ↦ record s { piece = (s.piece + 1) % u64_mod }
      | some (slot, cap) ↦ record s {
        piece = (s.piece + 1) % u64_mod;
        requested = insert s.piece tt s.requested;
        cap = cap;
        out = s.out ++ (slot.view.id, s.piece) ∷ [];
      }
    ]

-- `while piece <= ceiling`; `none` means that the fuel ran out.
unfoldable pub scan : ℕ → ℕ → Scan → Option Scan
scan zero scan_ceiling s = none
scan (suc fuel) scan_ceiling s = elim (leb s.piece s.ceiling) [
  | false ↦ some s
  | true ↦ scan fuel scan_ceiling (scan_step scan_ceiling s)
]

-- The state in front of the loop.
unfoldable pub scan_start : Scheduler → ℕ → ℕ → List Slot → Scan
scan_start s next_needed head cap = record {
  ceiling = min head (saturating_add next_needed (total_spare cap));
  piece = next_needed;
  requested = retain (λ p. leb next_needed p) s.requested;
  cap = cap;
  out = [];
}

unfoldable pub scan_end : Scheduler → ℕ → ℕ → Option (Map ℕ) → List Slot → ℕ
scan_end s next_needed head queue_slots cap =
    min head (saturating_add next_needed (scan_slots s.max_in_flight queue_slots cap))

-- The loop visits each piece up to the scan ceiling at most once, so this fuel is enough where the
-- piece counter does not wrap.
unfoldable pub assign_inner :
    Scheduler → ℕ → ℕ → List PeerView → Option (Map ℕ) → Option (Scheduler × List (ℕ × ℕ))
unfolding scan_end scan_start
assign_inner s next_needed head peers queue_slots =
    let cap = slots_from s.max_in_flight queue_slots peers in
    let limit = scan_end s next_needed head queue_slots cap in
    elim (scan (suc (limit + 1 - next_needed)) limit (scan_start s next_needed head cap)) [
      | none ↦ none
      | some done ↦ some (record s { requested = done.requested }, done.out)
    ]

unfoldable pub assign : Scheduler → ℕ → ℕ → List PeerView → Option (Scheduler × List (ℕ × ℕ))
assign s next_needed head peers = assign_inner s next_needed head peers none

unfoldable pub assign_with_queue_slots :
    Scheduler → ℕ → ℕ → List PeerView → Map ℕ → Option (Scheduler × List (ℕ × ℕ))
assign_with_queue_slots s next_needed head peers queue_slots =
    assign_inner s next_needed head peers (some queue_slots)

unfoldable pub on_complete : Scheduler → ℕ → Scheduler
on_complete s piece = record s { requested = remove piece s.requested }

unfoldable pub on_drop : Scheduler → ℕ → Scheduler
on_drop s piece = record s { requested = remove piece s.requested }

unfoldable pub clear_in_flight : Scheduler → Scheduler
clear_in_flight s = record s { requested = [] }

unfoldable pub in_flight_count : Scheduler → ℕ
in_flight_count s = length s.requested

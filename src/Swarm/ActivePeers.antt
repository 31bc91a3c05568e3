-- ===== src/Swarm/ActivePeers.antt =====
-- crates/ace-swarm/src/scheduler.rs: the active peers, with their windows and the pieces that each
-- has in flight. A method on `&mut self` returns the new state.
pub mod InFlight
pub mod History
pub mod Requests
mod Tests
pub use outpace.Wire.Extended.{LivePosition}
use outpace.Prelude.{
  ℕ, min, max, Bool, true, false, not, ◌&&◌, ◌||◌, Option, none, some, List, [], ◌∷◌, length, leb,
  if◌then◌else◌,
}
use outpace.Prelude.Ints.{ℤ, try_u64, max_zero}
use outpace.Prelude.Maps.{Map, Set, keys, lookup, insert, remove, retain}
use outpace.Swarm.Scheduler
use outpace.Swarm.Scheduler.{Scheduler, PeerView}

pub record PeerAssignment : Type 0 where
  pub peer_id : ℕ
  pub piece : ℕ

pub record ActivePeer : Type 0 where
  pub observed_bounds : Option (ℕ × ℕ)
  pub min_piece : ℕ
  pub max_piece : ℕ
  pub unchoked : Bool
  pub in_flight : Set

pub record ActivePeers : Type 0 where
  pub peers : Map ActivePeer

unfoldable pub new : ActivePeers
new = record { peers = [] }

-- `.filter(|(min, max)| min <= max)`.
unfoldable pub ordered_bounds : Option (ℕ × ℕ) → Option (ℕ × ℕ)
ordered_bounds none = none
ordered_bounds (some (lo, hi)) = if leb lo hi then some (lo, hi) else none

-- `a.zip(b)` of two options.
unfoldable pub zip : Option ℕ → Option ℕ → Option (ℕ × ℕ)
zip (some x) (some y) = some (x, y)
zip _ _ = none

-- The peer that joins; its address is not used.
unfoldable pub fresh_peer : LivePosition → ActivePeer
fresh_peer window = record {
  observed_bounds = ordered_bounds (zip (try_u64 window.min_piece) (try_u64 window.max_piece));
  min_piece = max_zero window.min_piece;
  max_piece = max_zero window.max_piece;
  unchoked = false;
  in_flight = [];
}

unfoldable pub insert_peer : ActivePeers → ℕ → LivePosition → ActivePeers
unfolding fresh_peer
insert_peer a id window = record { peers = insert id (fresh_peer window) a.peers }

-- `if let Some(peer) = self.peers.get_mut(&id)`, with the change that it makes.
unfoldable pub with_peer : ActivePeers → ℕ → (ActivePeer → ActivePeer) → ActivePeers
with_peer a id change = elim (lookup id a.peers) [
  | none ↦ a
  | some p ↦ record { peers = insert id (change p) a.peers }
]

unfoldable pub set_unchoked : ActivePeers → ℕ → Bool → ActivePeers
set_unchoked a id unchoked = with_peer a id (λ p. record p { unchoked = unchoked })

unfoldable pub update_window : ActivePeers → (id min_piece max_piece : ℕ) → ActivePeers
update_window a id min_piece max_piece =
    with_peer a id (λ p. record p { min_piece = min_piece; max_piece = max max_piece min_piece })

unfoldable pub view_of : ℕ → ActivePeer → PeerView
view_of id p = record {
  id = id;
  min_piece = p.min_piece;
  max_piece = p.max_piece;
  unchoked = p.unchoked;
  in_flight = length p.in_flight;
}

unfoldable pub peer_views : Map ActivePeer → List PeerView
unfolding view_of
peer_views [] = []
peer_views ((id, p) ∷ ps) = view_of id p ∷ peer_views ps

-- The loop over the batch: each piece is recorded with its peer, or given back.
unfoldable pub record_batch :
    List (ℕ × ℕ) → ActivePeers → Scheduler → ActivePeers × Scheduler × List PeerAssignment
record_batch [] a s = (a, s, [])
record_batch ((id, pc) ∷ batch) a s = elim (lookup id a.peers) [
  | some p ↦
      let joined = record p { in_flight = insert pc tt p.in_flight } in
      let (a', s', out) = record_batch batch (record { peers = insert id joined a.peers }) s in
      (a', s', record { peer_id = id; piece = pc } ∷ out)
  | none ↦ record_batch batch a (Scheduler.on_drop s pc)
]

-- The scheduler's batch for the current views.
unfoldable pub admit :
    ActivePeers
    → Scheduler
    → (next_needed head : ℕ) → Option (Map ℕ)
    → Option (Scheduler × List (ℕ × ℕ))
unfolding Scheduler.assign Scheduler.assign_with_queue_slots
admit a s next_needed head queue_slots = elim queue_slots [
  | some slots ↦ Scheduler.assign_with_queue_slots s next_needed head (peer_views a.peers) slots
  | none ↦ Scheduler.assign s next_needed head (peer_views a.peers)
]

unfoldable pub assign_inner :
    ActivePeers
    → Scheduler
    → (next_needed head : ℕ) → Option (Map ℕ)
    → Option (ActivePeers × Scheduler × List PeerAssignment)
assign_inner a s next_needed head queue_slots = elim (admit a s next_needed head queue_slots) [
  | none ↦ none
  | some (s', batch) ↦ some (record_batch batch a s')
]

unfoldable pub assign :
    ActivePeers
    → Scheduler
    → (next_needed head : ℕ) → Option (ActivePeers × Scheduler × List PeerAssignment)
assign a s next_needed head = assign_inner a s next_needed head none

unfoldable pub assign_with_queue_slots :
    ActivePeers
    → Scheduler
    → (next_needed head : ℕ) → Map ℕ
    → Option (ActivePeers × Scheduler × List PeerAssignment)
assign_with_queue_slots a s next_needed head queue_slots =
    assign_inner a s next_needed head (some queue_slots)

unfoldable pub cancel_assignment : ActivePeers → (id piece : ℕ) → ActivePeers
cancel_assignment a id piece =
    with_peer a id (λ p. record p { in_flight = remove piece p.in_flight })

-- The peer leaves, and its pieces in flight are handed back.
unfoldable pub remove_peer : ActivePeers → ℕ → ActivePeers × List ℕ
remove_peer a id = (
  record { peers = remove id a.peers },
  elim (lookup id a.peers) [ none ↦ [] | some p ↦ keys p.in_flight ],
)

unfoldable pub in_flight_count : ActivePeers → ℕ → ℕ
in_flight_count a id = elim (lookup id a.peers) [ none ↦ 0 | some p ↦ length p.in_flight ]

-- `for peer in self.peers.values_mut()`, with the change of each peer's set.
unfoldable pub each_in_flight : (Set → Set) → Map ActivePeer → Map ActivePeer
each_in_flight change [] = []
each_in_flight change ((id, p) ∷ ps) =
    (id, record p { in_flight = change p.in_flight }) ∷ each_in_flight change ps

unfoldable pub complete_everywhere : ActivePeers → ℕ → ActivePeers
complete_everywhere a piece = record { peers = each_in_flight (remove piece) a.peers }

unfoldable pub prune_below : ActivePeers → ℕ → ActivePeers
prune_below a floor = record { peers = each_in_flight (retain (λ pc. leb floor pc)) a.peers }

-- `any` over the peers.
unfoldable pub any_covers : Map ActivePeer → ℕ → Bool
any_covers [] piece = false
any_covers ((id, p) ∷ ps) piece =
    (p.unchoked && (leb p.min_piece piece && leb piece p.max_piece)) || any_covers ps piece

unfoldable pub any_unchoked_covers : ActivePeers → ℕ → Bool
any_unchoked_covers a piece = any_covers a.peers piece

unfoldable pub observe_window : ActivePeers → ℕ → Option (ℕ × ℕ) → ActivePeers
observe_window a id bounds =
    with_peer a id (λ p. record p { observed_bounds = ordered_bounds bounds })

-- The step of `reduce`, from the bounds so far.
unfoldable pub reduce_bounds : Option (ℕ × ℕ) → Map ActivePeer → Option (ℕ × ℕ)
reduce_bounds so_far [] = so_far
reduce_bounds so_far ((id, p) ∷ ps) =
    reduce_bounds (join so_far (if p.unchoked then p.observed_bounds else none)) ps
  where
    join : Option (ℕ × ℕ) → Option (ℕ × ℕ) → Option (ℕ × ℕ)
    join so_far none = so_far
    join none (some b) = some b
    join (some (lo, hi)) (some (lo', hi')) = some (min lo lo', max hi hi')

unfoldable pub coverage_bounds : ActivePeers → Option (ℕ × ℕ)
coverage_bounds a = reduce_bounds none a.peers

-- `min` of the unchoked peers' lowest pieces.
unfoldable pub lowest : Map ActivePeer → Option ℕ
lowest [] = none
lowest ((id, p) ∷ ps) =
    let rest = lowest ps in
    if p.unchoked
    then elim rest [ none ↦ some p.min_piece | some lo ↦ some (min p.min_piece lo) ]
    else rest

unfoldable pub lowest_covered_piece : ActivePeers → Option ℕ
lowest_covered_piece a = lowest a.peers

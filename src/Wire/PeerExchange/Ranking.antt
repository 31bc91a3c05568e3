-- ===== src/Wire/PeerExchange/Ranking.antt =====
-- crates/ace-wire/src/peer_exchange.rs: the order in which gossiped peers are tried.
use outpace.Prelude.{
  ℕ, zero, suc, ◌≤◌, ◌<◌, ◌≡◌, refl, subst, sym, ap, ◌∙◌, Option, none, some, List, [], ◌∷◌, ◌++◌,
  map, ◌==◌, if◌then◌else◌, Bool-cases, Option-cases, inl, inr, append-nil, append_assoc, arith,
}
use mathlib.Core.List.{map-append}
use outpace.Prelude.Net.{SocketAddrV4}
use outpace.Wire.PeerExchange
use outpace.Wire.PeerExchange.{PexPeer, PieceWindow}

module _ (next : ℕ) where
  -- The group of a peer: its window covers the piece, it has none, it does not cover the piece.
  abbrev pub group_of : Option PieceWindow → ℕ
  group_of none = 1
  group_of (some w) = if PeerExchange.covers w next then 0 else 2

  -- The peers of one group, in their order.
  abbrev pub select : ℕ → List PexPeer → List PexPeer
  select k [] = []
  select k (p ∷ ps) = if group_of p.window == k then p ∷ select k ps else select k ps

  -- The groups of the peers ascend from `lo` on.
  abbrev pub GroupsAscend : ℕ → List PexPeer → Type 0
  GroupsAscend lo [] = Unit {0}
  GroupsAscend lo (p ∷ ps) = (lo ≤ group_of p.window) × GroupsAscend (group_of p.window) ps

  GroupsAscend-mono :
      (lo k : ℕ) (ps : List PexPeer) → lo ≤ k → GroupsAscend k ps → GroupsAscend lo ps
  GroupsAscend-mono lo k [] h g = tt
  GroupsAscend-mono lo k (p ∷ ps) h g = (omega arith, g.1)

  -- The peers in the order of some addresses: group by group, each group in its old order.
  pub record Ranked (peers : List PexPeer) (out : List SocketAddrV4) : Type 0 where
    pub order : List PexPeer
    pub addresses : map (λ p. p.addr) order ≡ out
    pub ascending : GroupsAscend 0 order
    pub stable : (k : ℕ) → select k order ≡ select k peers

  abbrev addrs : ℕ → List PexPeer → List SocketAddrV4
  addrs k ps = map (λ p. p.addr) (select k ps)

  rank_groups-addrs :
      (ps : List PexPeer) (cs us ns : List SocketAddrV4)
      → PeerExchange.rank_groups next ps cs us ns
        ≡ (cs ++ addrs 0 ps, us ++ addrs 1 ps, ns ++ addrs 2 ps)
  unfolding PeerExchange.rank_groups
  rank_groups-addrs [] cs us ns = rw (append-nil cs, append-nil us, append-nil ns) refl
  rank_groups-addrs (p ∷ ps) cs us ns = elim (Option-cases p.window) [
    | inl e ↦
        let later = rank_groups-addrs ps cs (us ++ (p.addr ∷ [])) ns in
        ground (arith, append_assoc us (p.addr ∷ []) (addrs 1 ps))
    | inr (w, e) ↦ elim (Bool-cases (PeerExchange.covers w next)) [
      | inl there ↦
          let later = rank_groups-addrs ps (cs ++ (p.addr ∷ [])) us ns in
          ground (arith, append_assoc cs (p.addr ∷ []) (addrs 0 ps))
      | inr away ↦
          let later = rank_groups-addrs ps cs us (ns ++ (p.addr ∷ [])) in
          ground (arith, append_assoc ns (p.addr ∷ []) (addrs 2 ps))
    ]
  ]

  group_of-lt : (w : Option PieceWindow) → group_of w < 3
  group_of-lt none = omega arith
  group_of-lt (some w) = ground arith

  select-select :
      (k j : ℕ) (ps : List PexPeer) → select k (select j ps) ≡ (if j == k then select k ps else [])
  select-select k j [] = ground arith
  select-select k j (p ∷ ps) = ground (arith, select-select k j ps)

  select-append : (k : ℕ) (ps qs : List PexPeer) → select k (ps ++ qs) ≡ select k ps ++ select k qs
  select-append k [] qs = refl
  select-append k (p ∷ ps) qs = ground (arith, select-append k ps qs)

  select_beyond : (k : ℕ) (ps : List PexPeer) → 3 ≤ k → select k ps ≡ []
  select_beyond k [] h = refl
  select_beyond k (p ∷ ps) h = ground (arith, select_beyond k ps h, group_of-lt p.window)

  select-GroupsAscend :
      (lo k : ℕ) (ps qs : List PexPeer)
      → lo ≤ k
      → GroupsAscend k qs
      → GroupsAscend lo (select k ps ++ qs)
  select-GroupsAscend lo k [] qs h g = GroupsAscend-mono lo k qs h g
  select-GroupsAscend lo k (p ∷ ps) qs h g = elim (Bool-cases (group_of p.window == k)) [
    | inl here ↦
        let same : group_of p.window ≡ k = ground arith in
        let rest = select-GroupsAscend k k ps qs (omega arith) g in
        rw here (omega arith, subst (λ j. GroupsAscend j (select k ps ++ qs)) (sym same) rest)
    | inr other ↦ rw other (select-GroupsAscend lo k ps qs h g)
  ]

  -- The three groups of some peers, one after another.
  abbrev grouped : List PexPeer → List PexPeer
  grouped ps = select 0 ps ++ (select 1 ps ++ select 2 ps)

  grouped-stable : (k : ℕ) (ps : List PexPeer) → select k (grouped ps) ≡ select k ps
  grouped-stable k ps =
      let split =
        select-append k (select 0 ps) (select 1 ps ++ select 2 ps)
        ∙ ap (λ xs. select k (select 0 ps) ++ xs) (select-append k (select 1 ps) (select 2 ps)) in
      rw (split, select-select k 0 ps, select-select k 1 ps, select-select k 2 ps) (one_group k ps)
    where
      one_group :
          (k : ℕ) (ps : List PexPeer)
          → (if 0 == k then select k ps else [])
              ++ ((if 1 == k then select k ps else []) ++ (if 2 == k then select k ps else []))
            ≡ select k ps
      one_group zero ps = append-nil (select 0 ps)
      one_group (suc zero) ps = append-nil (select 1 ps)
      one_group (suc (suc zero)) ps = refl
      one_group (suc (suc (suc k))) ps =
          let none_left = select_beyond (suc (suc (suc k))) ps (omega arith) in ground arith

  -- Gossiped peers are all tried, in three groups and within a group in the order of the message: those
  -- whose window covers the needed piece, those without a window, those whose window does not cover it.
  pub rank_by_window_coverage-Ranked :
      (peers : List PexPeer) → Ranked peers (PeerExchange.rank_by_window_coverage peers next)
  unfolding PeerExchange.rank_by_window_coverage
  rank_by_window_coverage-Ranked peers = record {
    order = grouped peers;
    addresses =
        map-append (λ p. p.addr) (select 0 peers) (select 1 peers ++ select 2 peers)
        ∙ ap (λ xs. addrs 0 peers ++ xs)
            (map-append (λ p. p.addr) (select 1 peers) (select 2 peers))
        ∙ rw (rank_groups-addrs peers [] [] []) refl;
    ascending = select-GroupsAscend 0 0 peers _ (omega arith) (
        select-GroupsAscend 0 1 peers _ (omega arith)
          (rw⁻¹ (append-nil (select 2 peers)) (select-GroupsAscend 1 2 peers [] (omega arith) tt)));
    stable = λ k. grouped-stable k peers;
  }

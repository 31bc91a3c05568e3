-- ===== src/Wire/PeerExchange/Tests.antt =====
-- Runs of crates/ace-wire/src/peer_exchange.rs, and its theorems at concrete messages.
use outpace.Prelude.{
  ℕ, ◌*◌, ◌-◌, ◌≤◌, ◌≡◌, refl, none, some, List, [], ◌∷◌, ◌++◌, length, replicate, All, arith,
}
use mathlib.Core.List.{Memᴰ}
use outpace.Prelude.Bytes.{u16_at, u32_at}
use outpace.Prelude.Net.{SocketAddrV4}
use outpace.Wire.PeerExchange
use outpace.Wire.PeerExchange.{PexPeer}
use outpace.Wire.PeerExchange.Ranking.{Ranked, rank_by_window_coverage-Ranked}
use outpace.Wire.PeerExchange.Records.{
  IsUsable, peer_of, record_at, parse_peer_exchange_detailed-All, parse_peer_exchange_detailed-Mem,
}

program : Unit {0}
unfolding PeerExchange.covers PeerExchange.window_of PeerExchange.parse_window
    PeerExchange.parse_records PeerExchange.parse_peer_exchange_detailed
    PeerExchange.parse_peer_exchange PeerExchange.rank_groups PeerExchange.rank_by_window_coverage
    PeerExchange.parse_peer_announce
program = tt

abbrev address : (a b c d port : ℕ) → SocketAddrV4
address a b c d port = record { ip = record { a = a; b = b; c = c; d = d }; port = port }

-- Two records of seventeen bytes, the second without an address.
abbrev two_records : List ℕ
two_records =
    0
    ∷ 0
    ∷ 2
    ∷ 0
    ∷ 0
    ∷ 0
    ∷ 17
    ∷ 0
    ∷ 0
    ∷ 0
    ∷ 17
    ∷ 0
    ∷ 0
    ∷ 0
    ∷ 0
    ∷ 0
    ∷ (replicate 11 0 ++ (5 ∷ 231 ∷ 25 ∷ 139 ∷ 39 ∷ 42 ∷ replicate 17 0))

two_records_parsed : PeerExchange.parse_peer_exchange two_records ≡ address 5 231 25 139 10026 ∷ []
unfolding program
two_records_parsed = refl

sentinels :
    (PeerExchange.window_of 0 9 ≡ none)
    × (PeerExchange.window_of 9 0xffffffff ≡ none)
    × (PeerExchange.window_of 9 8 ≡ none)
    × (PeerExchange.window_of 8 9 ≡ some (record { min = 8; max = 9 }))
unfolding program
sentinels = (refl, refl, refl, refl)

announce :
    PeerExchange.parse_peer_announce (replicate 8 0 ++ (5 ∷ 231 ∷ 25 ∷ 139 ∷ 39 ∷ 42 ∷ []))
    ≡ some (address 5 231 25 139 10026)
unfolding program
announce = refl

abbrev candidates : List PexPeer
candidates =
    record { addr = address 1 0 0 1 1; window = some (record { min = 1; max = 9 }) }
    ∷ record { addr = address 1 0 0 2 1; window = none }
    ∷ record { addr = address 1 0 0 3 1; window = some (record { min = 5; max = 20 }) }
    ∷ []

ranked :
    PeerExchange.rank_by_window_coverage candidates 15
    ≡ address 1 0 0 3 1 ∷ address 1 0 0 2 1 ∷ address 1 0 0 1 1 ∷ []
unfolding program
ranked = refl

rank_by_window_coverage-Ranked_example :
    Ranked 15 candidates (PeerExchange.rank_by_window_coverage candidates 15)
rank_by_window_coverage-Ranked_example = rank_by_window_coverage-Ranked 15 candidates

parse_peer_exchange_detailed-All_example :
    let peers = PeerExchange.parse_peer_exchange_detailed two_records in
    All IsUsable peers
    × (length peers ≤ u16_at two_records PeerExchange.count_offset)
    × (length peers * u32_at two_records PeerExchange.record_size_offset
        ≤ length two_records - PeerExchange.header_len)
parse_peer_exchange_detailed-All_example = parse_peer_exchange_detailed-All two_records

parse_peer_exchange_detailed-Mem_example :
    Memᴰ (peer_of (record_at two_records 0)) (PeerExchange.parse_peer_exchange_detailed two_records)
parse_peer_exchange_detailed-Mem_example =
    parse_peer_exchange_detailed-Mem two_records 0 (omega arith) (omega arith) (omega arith) refl

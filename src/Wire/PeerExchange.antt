-- ===== src/Wire/PeerExchange.antt =====
-- crates/ace-wire/src/peer_exchange.rs: the addresses that a peer gossips, with their live windows,
-- and the order in which they are tried.
pub mod Ranking
pub mod Records
mod Tests
use outpace.Prelude.{
  ℕ, zero, suc, ◌+◌, ◌-◌, ◌/◌, min, Bool, true, false, ◌&&◌, ◌||◌, Option, none, some, List, [],
  ◌∷◌, ◌++◌, length, take, drop, map, ltb, leb, ◌==◌, if◌then◌else◌, u32_mod, get_elem?, get_or,
}
use outpace.Prelude.Bytes.{u16_at, u32_at}
use outpace.Prelude.Net.{Ipv4Addr, SocketAddrV4, is_unspecified}

abbrev pub header_len : ℕ
header_len = 16

abbrev pub count_offset : ℕ
count_offset = 1

abbrev pub record_size_offset : ℕ
record_size_offset = 7

abbrev pub ip_offset_in_record : ℕ
ip_offset_in_record = 11

abbrev pub min_piece_offset_in_record : ℕ
min_piece_offset_in_record = 27

abbrev pub position_offset_in_record : ℕ
position_offset_in_record = 83

abbrev pub window_end_in_record : ℕ
window_end_in_record = position_offset_in_record + 4

pub record PieceWindow : Type 0 where
  pub min : ℕ
  pub max : ℕ

unfoldable pub covers : PieceWindow → ℕ → Bool
covers w piece = leb w.min piece && leb piece w.max

pub record PexPeer : Type 0 where
  pub addr : SocketAddrV4
  pub window : Option PieceWindow

-- `v == 0 || v == u32::MAX`.
abbrev pub is_unknown : ℕ → Bool
is_unknown v = (v == 0) || (v == u32_mod - 1)

-- The window of the two positions of a record.
unfoldable pub window_of : (min max : ℕ) → Option PieceWindow
window_of min max =
    if is_unknown min || (is_unknown max || ltb max min)
    then none
    else some (record { min = min; max = max })

unfoldable pub parse_window : List ℕ → Option PieceWindow
unfolding window_of
parse_window bytes =
    if ltb (length bytes) window_end_in_record
    then none
    else window_of (u32_at bytes min_piece_offset_in_record)
        (u32_at bytes position_offset_in_record)

-- A byte behind the test of the length.
abbrev byte_at : List ℕ → ℕ → ℕ
byte_at buf i = get_or (get_elem? buf i) 0

-- The address at an offset.
abbrev pub addr_at : List ℕ → ℕ → SocketAddrV4
addr_at buf base = record {
  ip = record {
    a = byte_at buf base;
    b = byte_at buf (base + 1);
    c = byte_at buf (base + 2);
    d = byte_at buf (base + 3);
  };
  port = u16_at buf (base + 4);
}

-- `ip.is_unspecified() || port == 0`.
abbrev pub is_unusable : SocketAddrV4 → Bool
is_unusable addr = is_unspecified addr.ip || (addr.port == 0)

-- The loop over `n` records, on the bytes from the first of them on.
unfoldable pub parse_records : ℕ → (record_size : ℕ) → List ℕ → List PexPeer
unfolding parse_window
parse_records zero record_size bytes = []
parse_records (suc n) record_size bytes =
    let rest = parse_records n record_size (drop record_size bytes) in
    let entry = take record_size bytes in
    let addr = addr_at entry ip_offset_in_record in
    if is_unusable addr then rest else record { addr = addr; window = parse_window entry } ∷ rest

unfoldable pub parse_peer_exchange_detailed : List ℕ → List PexPeer
unfolding parse_records
parse_peer_exchange_detailed payload =
    if ltb (length payload) header_len
    then []
    else (let count = u16_at payload count_offset in
        let record_size = u32_at payload record_size_offset in
        if ltb record_size (ip_offset_in_record + 6)
        then []
        else parse_records (min count ((length payload - header_len) / record_size)) record_size
            (drop header_len payload))

unfoldable pub parse_peer_exchange : List ℕ → List SocketAddrV4
unfolding parse_peer_exchange_detailed
parse_peer_exchange payload = map (λ p. p.addr) (parse_peer_exchange_detailed payload)

-- The loop that sorts the peers into the three groups.
unfoldable pub rank_groups :
    (next_needed : ℕ)
    → List PexPeer
    → (covering unknown not_covering : List SocketAddrV4)
    → List SocketAddrV4 × List SocketAddrV4 × List SocketAddrV4
unfolding covers
rank_groups next_needed [] covering unknown not_covering = (covering, unknown, not_covering)
rank_groups next_needed (p ∷ ps) covering unknown not_covering = elim p.window [
  | none ↦ rank_groups next_needed ps covering (unknown ++ (p.addr ∷ [])) not_covering
  | some w ↦ elim (covers w next_needed) [
    | true ↦ rank_groups next_needed ps (covering ++ (p.addr ∷ [])) unknown not_covering
    | false ↦ rank_groups next_needed ps covering unknown (not_covering ++ (p.addr ∷ []))
  ]
]

unfoldable pub rank_by_window_coverage : List PexPeer → (next_needed : ℕ) → List SocketAddrV4
unfolding rank_groups
rank_by_window_coverage peers next_needed =
    let (covering, unknown, not_covering) = rank_groups next_needed peers [] [] [] in
    covering ++ (unknown ++ not_covering)

abbrev pub announce_ip_offset : ℕ
announce_ip_offset = 8

unfoldable pub parse_peer_announce : List ℕ → Option SocketAddrV4
parse_peer_announce payload =
    if ltb (length payload) (announce_ip_offset + 6)
    then none
    else (let addr = addr_at payload announce_ip_offset in
        if is_unusable addr then none else some addr)

-- ===== src/Media/Inserts.antt =====
-- crates/ace-media/src/mpegts.rs: what a gate puts into a client's stream of its own, which is the tables in
-- front of a packet and the mark of a discontinuity.
use outpace.Prelude.{
  ℕ, zero, suc, ◌+◌, ◌*◌, ◌/◌, ◌%◌, ◌==◌, ◌&&◌, not, Bool, true, false, Option, none, some, get_or,
  List, [], ◌∷◌, ◌++◌, length, take, drop, replicate, leb, if◌then◌else◌,
}
use outpace.Media.{ts_sync, ts_packet_len, byte_at}
use outpace.Media.Packet
use outpace.Media.Access
use outpace.Media.Access.{VideoAccessPointState}
use outpace.Media.Sdt.{sdt_pid}

-- `packet[i] = b`.
unfoldable pub set_byte : (i b : ℕ) → List ℕ → List ℕ
set_byte i b [] = []
set_byte zero b (x ∷ xs) = b ∷ xs
set_byte (suc i) b (x ∷ xs) = x ∷ set_byte i b xs

-- A packet of the tables with the next continuity counter, where it is a service description.
unfoldable pub number_packet : (counter : ℕ) → List ℕ → List ℕ × ℕ
number_packet counter packet =
    if Packet.ts_pid packet == sdt_pid
    then (set_byte 3 (byte_at packet 3 / 16 * 16 + counter) packet, (counter + 1) % 16)
    else (packet, counter)

-- The whole packets of the prefix, of which there are `packets`.
unfoldable pub number_packets : (packets counter : ℕ) → List ℕ → List ℕ × ℕ
number_packets zero counter prefix = (prefix, counter)
number_packets (suc packets) counter prefix =
    let (packet, counter') = number_packet counter (take ts_packet_len prefix) in
    let (rest, counter'') = number_packets packets counter' (drop ts_packet_len prefix) in
    (packet ++ rest, counter'')

-- The tables to put out, and the next counter.
unfoldable pub gate_tables : VideoAccessPointState → (counter : ℕ) → List ℕ × ℕ
gate_tables access counter = elim (Access.table_prefix access) [
  | none ↦ ([], counter)
  | some prefix ↦ number_packets (length prefix / ts_packet_len) counter prefix
]

unfoldable pub discontinuity_packet : (pid continuity_counter : ℕ) → List ℕ
discontinuity_packet pid continuity_counter =
    ts_sync
    ∷ (pid / 256 % 32)
    ∷ (pid % 256)
    ∷ (0x20 + continuity_counter)
    ∷ 183
    ∷ 0x80
    ∷ replicate 182 0xff

-- The packet with its discontinuity bit set, where it has room for one.
unfoldable pub set_discontinuity_indicator : List ℕ → List ℕ × Bool
set_discontinuity_indicator packet =
    if leb 2 (Packet.adaptation_control packet) && leb 1 (byte_at packet 4)
    then (set_byte 5 (byte_at packet 5 % 128 + 128) packet, true)
    else (packet, false)

unfoldable pub resumed_packet : (mark : Bool) → Option ℕ → List ℕ → List ℕ
resumed_packet mark marker_pid packet =
    let pid = get_or marker_pid (Packet.ts_pid packet) in
    let counter = byte_at packet 3 % 16 in
    let (marked, set) = set_discontinuity_indicator packet in
    if not mark
    then packet
    else if not (pid == Packet.ts_pid packet)
    then discontinuity_packet pid counter ++ packet
    else if set
    then marked
    else discontinuity_packet (Packet.ts_pid packet) counter ++ marked

-- ===== src/Media/Sync.antt =====
-- crates/ace-media/src/mpegts.rs: finding the alignment of a buffer.
pub mod Offset
mod Tests
use outpace.Prelude.{
  ℕ, zero, suc, ◌+◌, ◌/◌, ◌%◌, ◌==◌, ◌&&◌, not, Bool, true, false, Option, none, some, List,
  is_empty, length, drop, ltb, if◌then◌else◌,
}
use outpace.Media.{ts_sync, ts_packet_len, byte_at}

-- Up to `checks` packets from `pos` on begin with the sync byte, as far as the buffer goes.
unfoldable pub probe : (checks : ℕ) → List ℕ → (pos : ℕ) → Bool
probe zero buf pos = true
probe (suc checks) buf pos =
    let rest = probe checks buf (pos + ts_packet_len) in
    if not (ltb pos (length buf)) then true else if byte_at buf pos == ts_sync then rest else false

-- The loop over the offsets from `off` on, with `turns` to go.
unfoldable pub try_offsets : (turns : ℕ) → List ℕ → (off : ℕ) → Option ℕ
try_offsets zero buf off = none
try_offsets (suc turns) buf off =
    let rest = try_offsets turns buf (suc off) in
    if not (ltb off (length buf)) then none else if probe 4 buf off then some off else rest

unfoldable pub find_sync_offset : List ℕ → Option ℕ
find_sync_offset buf = try_offsets ts_packet_len buf 0

unfoldable pub packet_count : List ℕ → ℕ
packet_count buf = length buf / ts_packet_len

-- Each of the `packets` whole packets begins with the sync byte.
unfoldable pub all_synced : (packets : ℕ) → List ℕ → Bool
all_synced zero buf = true
all_synced (suc packets) buf =
    (byte_at buf 0 == ts_sync) && all_synced packets (drop ts_packet_len buf)

unfoldable pub is_aligned : List ℕ → Bool
is_aligned buf =
    not (is_empty buf) && ((length buf % ts_packet_len == 0) && all_synced (packet_count buf) buf)

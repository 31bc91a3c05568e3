-- ===== src/Media/Packet.antt =====
-- crates/ace-media/src/mpegts.rs: the header of a transport packet and its clock reference. The
-- bits of a byte are read by division.
use outpace.Prelude.{
  ℕ, ◌+◌, ◌*◌, ◌/◌, ◌%◌, ◌^◌, ◌==◌, ◌&&◌, ◌||◌, not, Bool, false, Option, none, List, ltb, leb,
  if◌then◌else◌,
}
use outpace.Media.{ts_sync, ts_packet_len, byte_at, has_bit, then_some}

pub record TsTiming : Type 0 where
  pub pid : ℕ
  pub pcr : Option ℕ
  pub discontinuity : Bool

unfoldable pub ts_pid : List ℕ → ℕ
ts_pid pkt = byte_at pkt 1 % 32 * 256 + byte_at pkt 2

unfoldable pub ts_pusi : List ℕ → Bool
ts_pusi pkt = has_bit 0x40 (byte_at pkt 1)

-- The two bits that say whether an adaptation field and a payload follow.
unfoldable pub adaptation_control : List ℕ → ℕ
adaptation_control pkt = byte_at pkt 3 / 16 % 4

unfoldable pub ts_payload_offset : List ℕ → Option ℕ
ts_payload_offset pkt =
    let afc = adaptation_control pkt in
    if afc == 1
    then then_some (ltb 4 ts_packet_len) 4
    else if afc == 3
    then then_some (ltb (5 + byte_at pkt 4) ts_packet_len) (5 + byte_at pkt 4)
    else none

unfoldable pub ts_random_access_indicator : List ℕ → Bool
ts_random_access_indicator pkt =
    leb 2 (adaptation_control pkt) && (leb 1 (byte_at pkt 4) && has_bit 0x40 (byte_at pkt 5))

-- The 33 bits of the clock reference.
unfoldable pub pcr_base : List ℕ → ℕ
pcr_base pkt =
    byte_at pkt 6 * 2 ^ 25
    + (byte_at pkt 7 * 2 ^ 17
        + (byte_at pkt 8 * 2 ^ 9 + (byte_at pkt 9 * 2 + byte_at pkt 10 / 128)))

unfoldable pub ts_timing : List ℕ → TsTiming
ts_timing pkt =
    let length = byte_at pkt 4 in
    if not (byte_at pkt 0 == ts_sync) || not (has_bit 0x20 (byte_at pkt 3))
    then record { pid = 0; pcr = none; discontinuity = false }
    else if (length == 0) || ltb 183 length
    then record { pid = ts_pid pkt; pcr = none; discontinuity = false }
    else record {
      pid = ts_pid pkt;
      pcr = then_some (has_bit 0x10 (byte_at pkt 5) && leb 7 length) (pcr_base pkt);
      discontinuity = has_bit 0x80 (byte_at pkt 5);
    }

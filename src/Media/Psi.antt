-- ===== src/Media/Psi.antt =====
-- crates/ace-media/src/mpegts.rs: the program tables of a single packet.
use outpace.Prelude.{
  ℕ, zero, suc, ◌+◌, ◌-◌, ◌*◌, ◌%◌, ◌==◌, ◌&&◌, not, Bool, false, Option, none, some, List, length,
  ltb, leb, if◌then◌else◌,
}
use outpace.Media.{ts_packet_len, byte_at, get, has_bit, then_some, ◌>>=◌}
use outpace.Media.Packet

pub data VideoCodec : Type 0 where
  mpeg2 h264 hevc : VideoCodec

unfoldable pub psi_section_start : List ℕ → Option ℕ
psi_section_start pkt = do
  po ← Packet.ts_payload_offset pkt
  pointer ← get pkt po
  then_some (ltb (po + 1 + pointer) ts_packet_len) (po + 1 + pointer)

-- The start of a complete current section, and the end of its content, in front of the checksum.
unfoldable pub current_psi_section : List ℕ → (table_id minimum_length : ℕ) → Option (ℕ × ℕ)
current_psi_section pkt table_id minimum_length = if not (Packet.ts_pusi pkt) then none else do
  sec ← psi_section_start pkt
  id ← get pkt sec
  _ ← then_some (id == table_id) id
  flags ← get pkt (sec + 5)
  _ ← then_some (has_bit 1 flags) flags
  high ← get pkt (sec + 1)
  low ← get pkt (sec + 2)
  let size = high % 16 * 256 + low
  then_some (leb minimum_length size && leb (sec + 3 + size) (length pkt)) (sec, sec + 3 + size - 4)

-- Entries of four bytes from `pos` to `end`; a turn passes one, so `end` turns are enough.
unfoldable pub first_program : ℕ → List ℕ → (pos end : ℕ) → Option (ℕ × ℕ)
first_program zero pkt pos end = none
first_program (suc fuel) pkt pos end =
    let program = byte_at pkt pos * 256 + byte_at pkt (pos + 1) in
    let pid = byte_at pkt (pos + 2) % 32 * 256 + byte_at pkt (pos + 3) in
    let rest = first_program fuel pkt (pos + 4) end in
    if not (leb (pos + 4) end)
    then none
    else if not (program == 0)
    then some (program, pid)
    else rest

unfoldable pub parse_pat_first_program : List ℕ → Option (Option (ℕ × ℕ))
parse_pat_first_program pkt = do
  (sec, end) ← current_psi_section pkt 0x00 9
  then_some ((end - (sec + 8)) % 4 == 0) (first_program end pkt (sec + 8) end)

unfoldable pub codec_of : (stream_type : ℕ) (allow_mpeg2 : Bool) → Option VideoCodec
codec_of stream_type allow_mpeg2 =
    if (stream_type == 0x02) && allow_mpeg2
    then some mpeg2
    else if stream_type == 0x1B
    then some h264
    else if stream_type == 0x24
    then some hevc
    else none

-- The first recognized video stream: the one found already, or the one of this entry.
unfoldable pub found_video :
    Option (ℕ × VideoCodec) → List ℕ → (pos : ℕ) (allow_mpeg2 : Bool) → Option (ℕ × VideoCodec)
found_video (some v) pkt pos allow_mpeg2 = some v
found_video none pkt pos allow_mpeg2 = do
  codec ← codec_of (byte_at pkt pos) allow_mpeg2
  some (byte_at pkt (pos + 1) % 32 * 256 + byte_at pkt (pos + 2), codec)

-- The entries from `pos` on, and where they end; an entry takes at least five bytes.
unfoldable pub scan_streams :
    ℕ
    → List ℕ
    → (allow_mpeg2 : Bool) (pos end : ℕ) → Option (ℕ × VideoCodec)
    → ℕ × Option (ℕ × VideoCodec)
scan_streams zero pkt allow_mpeg2 pos end video = (pos, video)
scan_streams (suc fuel) pkt allow_mpeg2 pos end video =
    let es_info_length = byte_at pkt (pos + 3) % 16 * 256 + byte_at pkt (pos + 4) in
    let rest =
      scan_streams fuel pkt allow_mpeg2 (pos + (5 + es_info_length)) end
        (found_video video pkt pos allow_mpeg2) in
    if leb (pos + 5) end then rest else (pos, video)

unfoldable pub same_program : Option ℕ → ℕ → Bool
same_program none table_program = false
same_program (some program) table_program = program == table_program

unfoldable pub parse_pmt_video :
    List ℕ → (program : Option ℕ) (allow_mpeg2 : Bool) → Option (Option (ℕ × VideoCodec))
parse_pmt_video pkt program allow_mpeg2 = do
  (sec, end) ← current_psi_section pkt 0x02 13
  let table_program = byte_at pkt (sec + 3) * 256 + byte_at pkt (sec + 4)
  _ ← then_some (same_program program table_program) table_program
  high ← get pkt (sec + 10)
  low ← get pkt (sec + 11)
  let (pos, video) = scan_streams end pkt allow_mpeg2 (sec + 12 + (high % 16 * 256 + low)) end none
  then_some (pos == end) video

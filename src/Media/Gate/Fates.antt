-- ===== src/Media/Gate/Fates.antt =====
-- crates/ace-media/src/mpegts.rs: what becomes of each packet that a KeyframeGate is given.
use outpace.Prelude.{
  ℕ, ◌+◌, ◌%◌, ◌≤◌, ◌≡◌, Bool, true, false, ◌==◌, ◌&&◌, List, [], ◌++◌, length, take, drop,
}
use outpace.Media.{byte_at}
use outpace.Media.Packet
use outpace.Media.Access
use outpace.Media.Access.{VideoAccessPointState}
use outpace.Media.Inserts

-- The packet behind a mark of a discontinuity, where one is due: its own bit is set, where its
-- adaptation field has room for it, or a packet that only carries the mark stands in front of it.
pub data Copied (mark : Bool) (pkt : List ℕ) : List ℕ → Type 0 where
  unchanged : Copied mark pkt pkt
  marked :
      mark ≡ true
      → 2 ≤ Packet.adaptation_control pkt
      → 1 ≤ byte_at pkt 4
      → Copied mark pkt (Inserts.set_byte 5 (byte_at pkt 5 % 128 + 128) pkt)
  behind_marker :
      (pid counter : ℕ)
      → mark ≡ true
      → Copied mark pkt (Inserts.discontinuity_packet pid counter ++ pkt)

-- The tables that stand in front of a packet, where they are wanted.
abbrev pub tables_at : (wanted : Bool) → VideoAccessPointState → (counter : ℕ) → List ℕ
tables_at true access counter = (Inserts.gate_tables access counter).0
tables_at false access counter = []

abbrev pub packet_at : List ℕ → ℕ → List ℕ
packet_at buf i = take 188 (drop i buf)

-- What becomes of the packets of the first `i` bytes, for a gate that starts with what `before` has
-- learned. `Fates buf filter mark before was_open i out held put access is_open`: each packet is
-- handed on, and then it stands in `out`, or held back, of which there are `held` bytes, or it is a
-- service description that the gate leaves out; `put` is what is put out, and `access` what has
-- been learned of all packets but those. A shut gate holds back, as long as no decoder can start at
-- the packet, until it opens with one. That one may be marked, and the tables are put in front of
-- it where a decoder can start at it; an open gate hands on each packet as it is, with the tables
-- in front of it where a decoder can start at it and the gate has a title. A gate that leaves
-- service descriptions out hands none of the stream on and holds none back.
pub data Fates (buf : List ℕ) (filter mark : Bool) (before : VideoAccessPointState)
    (was_open : Bool) : ℕ → List ℕ → ℕ → List ℕ → VideoAccessPointState → Bool → Type 0 where
  none_yet : Fates buf filter mark before was_open 0 [] 0 [] before was_open
  handed_on :
      {i : ℕ} {out : List ℕ} {held : ℕ} {put : List ℕ} {access : VideoAccessPointState}
      → (counter : ℕ) → Fates buf filter mark before was_open i out held put access true
      → (filter && (Packet.ts_pid (packet_at buf i) == 0x11)) ≡ false
      → i + 188 ≤ length buf
      → Fates buf filter mark before was_open
          (i + 188)
          (out ++ packet_at buf i)
          held
          (put
            ++ (tables_at
                  (filter && (Access.observe access (packet_at buf i)).1)
                  (Access.observe access (packet_at buf i)).0
                  counter
                ++ packet_at buf i))
          (Access.observe access (packet_at buf i)).0
          true
  opened :
      {i : ℕ} {out : List ℕ} {held : ℕ} {put : List ℕ} {access : VideoAccessPointState}
      → (counter : ℕ) → (copy : List ℕ)
      → Fates buf filter mark before was_open i out held put access false
      → (filter && (Packet.ts_pid (packet_at buf i) == 0x11)) ≡ false
      → i + 188 ≤ length buf
      → Copied mark (packet_at buf i) copy
      → Fates buf filter mark before was_open
          (i + 188)
          (out ++ packet_at buf i)
          held
          (put
            ++ (tables_at
                  (Access.observe access (packet_at buf i)).1
                  (Access.observe access (packet_at buf i)).0
                  counter
                ++ copy))
          (Access.observe access (packet_at buf i)).0
          true
  held_back :
      {i : ℕ} {out : List ℕ} {held : ℕ} {put : List ℕ} {access : VideoAccessPointState}
      → Fates buf filter mark before was_open i out held put access false
      → (filter && (Packet.ts_pid (packet_at buf i) == 0x11)) ≡ false
      → (Access.observe access (packet_at buf i)).1 ≡ false
      → i + 188 ≤ length buf
      → Fates buf filter mark before was_open
          (i + 188)
          out
          (held + 188)
          put
          (Access.observe access (packet_at buf i)).0
          false
  left_out :
      {i : ℕ} {out : List ℕ} {held : ℕ} {put : List ℕ} {access : VideoAccessPointState}
      {is_open : Bool}
      → Fates buf filter mark before was_open i out held put access is_open
      → filter ≡ true
      → Packet.ts_pid (packet_at buf i) ≡ 0x11
      → i + 188 ≤ length buf
      → Fates buf filter mark before was_open (i + 188) out held put access is_open

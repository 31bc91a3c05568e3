-- ===== src/Media/Gate.antt =====
-- crates/ace-media/src/mpegts.rs: KeyframeGate, which holds a client's stream back until a packet that
-- a decoder can start at. A method on `&mut self` returns the new state beside its result.
pub mod Fates
pub mod Turns
pub mod Sorting
pub mod Report
pub mod Passing
pub mod Opening
mod Tests
use outpace.Prelude.{
  ℕ, zero, suc, ◌+◌, ◌-◌, ◌*◌, ◌/◌, ◌%◌, ◌^◌, min, ◌==◌, ◌&&◌, ◌||◌, not, Bool, true, false, Option,
  none, some, get_or, List, [], ◌∷◌, ◌++◌, length, take, drop, replicate, ltb, leb, if◌then◌else◌,
}
use outpace.Media
use outpace.Media.{ts_sync, ts_packet_len, byte_at, Range}
use outpace.Media.Packet
use outpace.Media.Access
use outpace.Media.Inserts
use outpace.Media.Access.{VideoAccessPointState}
use outpace.Media.Sdt.{sdt_pid}
use outpace.Media.Title.{Unicode}

pub record KeyframeGate : Type 0 where
  pub buf : List ℕ
  pub locked : Bool
  pub access : VideoAccessPointState
  pub scanned : ℕ
  pub max_scan_packets : ℕ
  pub filter_sdt : Bool
  pub next_sdt_counter : ℕ
  pub mark_discontinuity : Bool

pub data GateResume : Type 0 where
  at_access_point at_scan_budget : GateResume

pub record KeyframeGateOutput : Type 0 where
  pub forwarded : List Range
  pub bytes : List ℕ
  pub withheld_bytes : ℕ
  pub resumed : Option GateResume

unfoldable pub with_max_scan_packets : ℕ → KeyframeGate
with_max_scan_packets max_scan_packets = record {
  buf = [];
  locked = false;
  access = Access.new;
  scanned = 0;
  max_scan_packets = max_scan_packets;
  filter_sdt = false;
  next_sdt_counter = 0;
  mark_discontinuity = false;
}

abbrev pub default_max_scan_packets : ℕ
default_max_scan_packets = 60000

unfoldable pub new : KeyframeGate
new = with_max_scan_packets default_max_scan_packets

unfoldable pub new_passthrough : KeyframeGate
new_passthrough = record new { locked = true }

-- A gate with a title, where the text leaves one.
unfoldable pub with_service_name : Unicode → Option (List ℕ) → KeyframeGate
with_service_name u raw =
    let access = Access.with_service_name u raw in
    record new { access = access; filter_sdt = Access.has_service_name access }

unfoldable pub reset : KeyframeGate → KeyframeGate
reset g = record g {
  buf = [];
  locked = false;
  scanned = 0;
  access = Access.reset g.access;
  mark_discontinuity = false;
}

unfoldable pub reset_for_discontinuity : KeyframeGate → KeyframeGate
reset_for_discontinuity g = record (reset g) { mark_discontinuity = true }

unfoldable pub rearm_for_discontinuity : KeyframeGate → KeyframeGate
rearm_for_discontinuity g = record g {
  buf = [];
  locked = false;
  scanned = 0;
  mark_discontinuity = true;
}

-- The gate and the local variables of `push_report`, with the gate's buffer held apart.
pub record GateScan : Type 0 where
  pub gate : KeyframeGate
  pub i : ℕ
  pub forwarded : List Range
  pub bytes : List ℕ
  pub withheld_bytes : ℕ
  pub resumed : Option GateResume

unfoldable pub filter_packet : GateScan → GateScan
filter_packet s = record s {
  gate = record s.gate {
    scanned = if s.gate.locked then s.gate.scanned else min (s.gate.scanned + 1) (2 ^ 64 - 1);
  };
  i = s.i + ts_packet_len;
}

unfoldable pub pass_packet : List ℕ → GateScan → GateScan
pass_packet pkt s =
    let (access, access_point) = Access.observe s.gate.access pkt in
    let (tables, counter) =
      if s.gate.filter_sdt && access_point
      then Inserts.gate_tables access s.gate.next_sdt_counter
      else ([], s.gate.next_sdt_counter) in
    record s {
      gate = record s.gate { access = access; next_sdt_counter = counter };
      i = s.i + ts_packet_len;
      forwarded = Media.select s.i s.forwarded;
      bytes = s.bytes ++ (tables ++ pkt);
    }

-- The gate opens with a packet: its tables, then the packet, with a mark where one is due.
unfoldable pub resume :
    List ℕ
    → (access : VideoAccessPointState) (tables : List ℕ) (counter : ℕ)
    → (marker_pid : Option ℕ) (why : GateResume) → GateScan
    → GateScan
resume pkt access tables counter marker_pid why s = record s {
  gate = record s.gate {
    locked = true;
    access = access;
    scanned = s.gate.scanned + 1;
    next_sdt_counter = counter;
    mark_discontinuity = false;
  };
  i = s.i + ts_packet_len;
  forwarded = Media.select s.i s.forwarded;
  bytes = s.bytes ++ (tables ++ Inserts.resumed_packet s.gate.mark_discontinuity marker_pid pkt);
  resumed = some why;
}

unfoldable pub withhold : (access : VideoAccessPointState) → GateScan → GateScan
withhold access s = record s {
  gate = record s.gate { access = access; scanned = s.gate.scanned + 1 };
  i = s.i + ts_packet_len;
  withheld_bytes = s.withheld_bytes + ts_packet_len;
}

unfoldable pub scan_packet : List ℕ → GateScan → GateScan
scan_packet pkt s =
    let (access, access_point) = Access.observe s.gate.access pkt in
    let (tables, counter) = Inserts.gate_tables access s.gate.next_sdt_counter in
    if access_point
    then resume pkt access tables counter none at_access_point s
    else if leb s.gate.max_scan_packets (s.gate.scanned + 1)
    then resume pkt access [] s.gate.next_sdt_counter access.video_pid at_scan_budget s
    else withhold access s

unfoldable pub gate_packet : List ℕ → GateScan → GateScan
gate_packet pkt s =
    if s.gate.filter_sdt && (Packet.ts_pid pkt == sdt_pid)
    then filter_packet s
    else if s.gate.locked
    then pass_packet pkt s
    else scan_packet pkt s

-- A turn passes a packet, so that as many turns as there are bytes are enough.
unfoldable pub gate_loop : ℕ → List ℕ → GateScan → GateScan
gate_loop zero buf s = s
gate_loop (suc fuel) buf s =
    let rest = gate_loop fuel buf (gate_packet (take ts_packet_len (drop s.i buf)) s) in
    if leb (s.i + ts_packet_len) (length buf) then rest else s

unfoldable pub gate_start : KeyframeGate → GateScan
gate_start g = record {
  gate = g;
  i = 0;
  forwarded = [];
  bytes = [];
  withheld_bytes = 0;
  resumed = none;
}

unfoldable pub push_report : KeyframeGate → List ℕ → KeyframeGate × KeyframeGateOutput
push_report g bytes =
    let buf = g.buf ++ bytes in
    let s = gate_loop (length buf) buf (gate_start g) in
    (
      record s.gate { buf = drop s.i buf },
      record {
        forwarded = s.forwarded;
        bytes = s.bytes;
        withheld_bytes = s.withheld_bytes;
        resumed = s.resumed;
      },
    )

unfoldable pub push : KeyframeGate → List ℕ → KeyframeGate × List ℕ
push g bytes = let (g', o) = push_report g bytes in (g', o.bytes)

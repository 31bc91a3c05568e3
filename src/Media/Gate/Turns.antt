-- ===== src/Media/Gate/Turns.antt =====
-- crates/ace-media/src/mpegts.rs: the turns of KeyframeGate's loop.
use outpace.Prelude.{
  ℕ, zero, suc, ◌+◌, ◌≤◌, ◌<◌, ◌≡◌, refl, Bool, true, false, ◌==◌, ◌&&◌, Option, List, length, take,
  drop, leb, get_or, Bool-cases, inl, inr, arith,
}
use outpace.Media.{byte_at}
use outpace.Media.Packet
use outpace.Media.Access
use outpace.Media.Inserts
use outpace.Media.Gate.Fates.{Copied, tables_at}
use outpace.Media.Gate
use outpace.Media.Gate.{GateScan, GateResume}

pub resumed_packet-Copied :
    (mark : Bool) (marker_pid : Option ℕ) (pkt : List ℕ)
    → Copied mark pkt (Inserts.resumed_packet mark marker_pid pkt)
unfolding Inserts.resumed_packet Inserts.set_discontinuity_indicator
resumed_packet-Copied false marker_pid pkt = Copied.unchanged
resumed_packet-Copied true marker_pid pkt =
    elim (Bool-cases (get_or marker_pid (Packet.ts_pid pkt) == Packet.ts_pid pkt)) [
      | inr e ↦ rw e (Copied.behind_marker _ _ refl)
      | inl e ↦
          rw e (elim (Bool-cases (leb 2 (Packet.adaptation_control pkt) && leb 1 (byte_at pkt 4))) [
            | inl room ↦ rw room (Copied.marked refl (ground (arith, room)) (ground (arith, room)))
            | inr no_room ↦ rw no_room (Copied.behind_marker _ _ refl)
          ])
    ]

-- The turn that a packet takes.
pub data Turn (pkt : List ℕ) (s : GateScan) : GateScan → Type 0 where
  filtered : s.gate.filter_sdt ≡ true → Packet.ts_pid pkt ≡ 0x11 → Turn pkt s (Gate.filter_packet s)
  passed :
      (s.gate.filter_sdt && (Packet.ts_pid pkt == 0x11)) ≡ false
      → s.gate.locked ≡ true
      → Turn pkt s (Gate.pass_packet pkt s)
  resumed :
      (tables : List ℕ)
      → (counter : ℕ) → (marker_pid : Option ℕ) → (why : GateResume)
      → (s.gate.filter_sdt && (Packet.ts_pid pkt == 0x11)) ≡ false
      → s.gate.locked ≡ false
      → tables
        ≡ tables_at
            (Access.observe s.gate.access pkt).1
            (Access.observe s.gate.access pkt).0
            s.gate.next_sdt_counter
      → Turn pkt s
          (Gate.resume pkt (Access.observe s.gate.access pkt).0 tables counter marker_pid why s)
  withheld :
      (s.gate.filter_sdt && (Packet.ts_pid pkt == 0x11)) ≡ false
      → s.gate.locked ≡ false
      → s.gate.scanned + 1 < s.gate.max_scan_packets
      → (Access.observe s.gate.access pkt).1 ≡ false
      → Turn pkt s (Gate.withhold (Access.observe s.gate.access pkt).0 s)

pub gate_packet-Turn : (pkt : List ℕ) (s : GateScan) → Turn pkt s (Gate.gate_packet pkt s)
unfolding Gate.gate_packet Gate.scan_packet
gate_packet-Turn pkt s = elim (Bool-cases (s.gate.filter_sdt && (Packet.ts_pid pkt == 0x11))) [
  | inl e ↦ rw e (Turn.filtered (ground (arith, e)) (ground (arith, e)))
  | inr e ↦ rw e (elim (Bool-cases s.gate.locked) [
    | inl l ↦ simp l (Turn.passed e l)
    | inr l ↦ simp l (elim (Bool-cases (Access.observe s.gate.access pkt).1) [
      | inl t ↦ rw t (Turn.resumed _ _ _ _ e l (rw t refl))
      | inr t ↦ rw t (elim (Bool-cases (leb s.gate.max_scan_packets (s.gate.scanned + 1))) [
        | inl b ↦ rw b (Turn.resumed _ _ _ _ e l (rw t refl))
        | inr b ↦ rw b (Turn.withheld e l (ground arith) t)
      ])
    ])
  ])
]

Turn-moves : {pkt : List ℕ} {s s' : GateScan} → Turn pkt s s' → s'.i ≡ s.i + 188
unfolding Gate.filter_packet Gate.pass_packet Gate.resume Gate.withhold
Turn-moves (Turn.filtered e p) = refl
Turn-moves (Turn.passed e l) = refl
Turn-moves (Turn.resumed t c m w e l k) = refl
Turn-moves (Turn.withheld e l b q) = refl

-- The rule for the loop: what each turn keeps holds at its end, where less than a packet is left.
pub gate_loop_inv :
    (buf : List ℕ) (P : GateScan → Type 0)
    → ((s s' : GateScan)
        → P s
        → s.i + 188 ≤ length buf
        → Turn (take 188 (drop s.i buf)) s s'
        → P s')
    → (fuel : ℕ) (s : GateScan) → length buf ≤ s.i + fuel
    → P s
    → P (Gate.gate_loop fuel buf s) × (length buf < (Gate.gate_loop fuel buf s).i + 188)
unfolding Gate.gate_loop
gate_loop_inv buf P keep zero s h p = (p, omega arith)
gate_loop_inv buf P keep (suc fuel) s h p = elim (Bool-cases (leb (s.i + 188) (length buf))) [
  | inr e ↦ rw e (p, ground arith)
  | inl e ↦
      let t = gate_packet-Turn (take 188 (drop s.i buf)) s in
      rw e (
        gate_loop_inv buf P keep fuel (Gate.gate_packet (take 188 (drop s.i buf)) s)
          (omega (arith, h, Turn-moves t)) (keep s _ p (ground arith) t))
]

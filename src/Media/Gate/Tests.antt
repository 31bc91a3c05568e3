-- ===== src/Media/Gate/Tests.antt =====
-- Runs of crates/ace-media/src/mpegts.rs's KeyframeGate over packets of one repeated byte.
use outpace.Prelude.{
  ℕ, ◌<◌, ◌≡◌, refl, true, false, some, List, [], ◌∷◌, ◌++◌, length, replicate, arith,
}
use outpace.Media
use outpace.Media.Packet
use outpace.Media.Psi
use outpace.Media.Pes
use outpace.Media.Access
use outpace.Media.Inserts
use outpace.Media.Gate
use outpace.Media.Gate.{KeyframeGate, KeyframeGateOutput, at_access_point, at_scan_budget}
use outpace.Media.Gate.Passing.{push_report_passes}
use outpace.Media.Gate.Opening.{push_report_opens}

program : Unit {0}
unfolding Media.select Packet.ts_pid Packet.ts_pusi Packet.adaptation_control
    Packet.ts_payload_offset Packet.ts_random_access_indicator Psi.psi_section_start
    Psi.current_psi_section Psi.first_program Psi.parse_pat_first_program Psi.codec_of
    Psi.found_video Psi.scan_streams Psi.same_program Psi.parse_pmt_video Pes.payload_has_irap
    Pes.is_random_access_point Access.untaught Access.new Access.is_pid Access.same_option
    Access.first_of Access.second_of Access.learn_pat Access.learn_pmt Access.learn Access.observe
    Access.title_table Access.table_prefix Gate.with_max_scan_packets Gate.new Inserts.number_packet
    Inserts.number_packets Inserts.gate_tables Inserts.set_byte Inserts.set_discontinuity_indicator
    Inserts.discontinuity_packet Inserts.resumed_packet Gate.filter_packet Gate.pass_packet
    Gate.resume Gate.withhold Gate.scan_packet Gate.gate_packet Gate.gate_loop Gate.gate_start
    Gate.push_report
program = tt

-- A packet of PID 256 with a payload of one byte.
abbrev packet : ℕ → List ℕ
packet b = 0x47 ∷ 1 ∷ 0 ∷ 0x10 ∷ replicate 184 b

-- A program table with the one program 1, whose map has PID 0x100, and that map, with an H.264 stream of PID 0x101.
abbrev pat : List ℕ
pat =
    0x47
    ∷ 0x40
    ∷ 0
    ∷ 0x10
    ∷ 0
    ∷ 0
    ∷ 0xB0
    ∷ 13
    ∷ 0
    ∷ 1
    ∷ 0xC1
    ∷ 0
    ∷ 0
    ∷ 0
    ∷ 1
    ∷ 0xE1
    ∷ 0
    ∷ 0
    ∷ 0
    ∷ 0
    ∷ 0
    ∷ replicate 167 0xff

abbrev pmt : List ℕ
pmt =
    0x47
    ∷ 0x41
    ∷ 0
    ∷ 0x10
    ∷ 0
    ∷ 2
    ∷ 0xB0
    ∷ 18
    ∷ 0
    ∷ 1
    ∷ 0xC1
    ∷ 0
    ∷ 0
    ∷ 0xE1
    ∷ 1
    ∷ 0xF0
    ∷ 0
    ∷ 0x1B
    ∷ 0xE1
    ∷ 1
    ∷ 0xF0
    ∷ 0
    ∷ 0
    ∷ 0
    ∷ 0
    ∷ 0
    ∷ replicate 162 0xff

-- A video packet that says that decoders can start at it.
abbrev key_packet : List ℕ
key_packet = 0x47 ∷ 0x41 ∷ 1 ∷ 0x30 ∷ 1 ∷ 0x40 ∷ replicate 182 0

-- The gate opens at the key packet, with the tables in front of it.
opens_at_key :
    let o =
      (Gate.push_report Gate.new (pat ++ (packet 1 ++ (pmt ++ (key_packet ++ packet 2))))).1 in
    (o.bytes ≡ pat ++ (pmt ++ (key_packet ++ packet 2)))
    × (o.withheld_bytes ≡ 564)
    × (o.resumed ≡ some at_access_point)
    × (o.forwarded ≡ record { start = 564; end = 940 } ∷ [])
unfolding program
opens_at_key = (refl, refl, refl, refl)

-- With a budget of two packets the second one goes through.
abbrev strict : KeyframeGate
unfolding Gate.with_max_scan_packets
strict = Gate.with_max_scan_packets 2

opens_at_budget : (Gate.push_report strict (packet 1 ++ packet 2)).1 ≡ record {
  forwarded = record { start = 188; end = 376 } ∷ [];
  bytes = packet 2;
  withheld_bytes = 188;
  resumed = some at_scan_budget;
}
unfolding program
opens_at_budget = refl

abbrev ajar : KeyframeGate
unfolding Gate.with_max_scan_packets
ajar = record strict { locked = true; buf = 0x47 ∷ 1 ∷ [] }

push_report_passes_example :
    let (g', o) = Gate.push_report ajar (packet 3) in
    (o.bytes ++ g'.buf ≡ ajar.buf ++ packet 3)
    × (length g'.buf < 188)
    × (o.withheld_bytes ≡ 0)
    × (g'.locked ≡ true)
    × (g'.filter_sdt ≡ false)
unfolding Gate.with_max_scan_packets
push_report_passes_example = push_report_passes ajar (packet 3) refl refl

push_report_opens_example : (Gate.push_report strict (packet 1 ++ packet 2)).0.locked ≡ true
unfolding Gate.with_max_scan_packets
push_report_opens_example =
    push_report_opens strict (packet 1 ++ packet 2) refl (omega arith) (omega arith)

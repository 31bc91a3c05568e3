-- ===== src/Media/Gate/Passing.antt =====
-- crates/ace-media/src/mpegts.rs: a KeyframeGate that is open and has no title.
use outpace.Prelude.{
  ℕ, ◌+◌, ◌≤◌, ◌<◌, ◌≡◌, refl, ap, ◌∙◌, true, false, List, ◌++◌, length, length-drop, take, drop,
  take-append-drop, take-append_take, arith,
}
use outpace.Media.Gate
use outpace.Media.Gate.{KeyframeGate, GateScan}
use outpace.Media.Gate.Turns.{Turn, gate_loop_inv}

record Through (buf : List ℕ) (s : GateScan) : Type 0 where
  unfiltered : s.gate.filter_sdt ≡ false
  open_gate : s.gate.locked ≡ true
  bytes_are : s.bytes ≡ take s.i buf
  none_held : s.withheld_bytes ≡ 0

Turn-Through :
    (buf : List ℕ) (s s' : GateScan)
    → Through buf s
    → s.i + 188 ≤ length buf
    → Turn (take 188 (drop s.i buf)) s s'
    → Through buf s'
unfolding Gate.pass_packet
Turn-Through buf s s' p room (Turn.filtered e pid) = absurd (cc (e, p.unfiltered))
Turn-Through buf s s' p room (Turn.passed e l) = record {
  unfiltered = p.unfiltered;
  open_gate = p.open_gate;
  bytes_are =
      rw p.unfiltered
        (ap (λ t. t ++ take 188 (drop s.i buf)) p.bytes_are ∙ take-append_take s.i 188 buf);
  none_held = p.none_held;
}
Turn-Through buf s s' p room (Turn.resumed t c m w e l k) = absurd (cc (l, p.open_gate))
Turn-Through buf s s' p room (Turn.withheld e l b q) = absurd (cc (l, p.open_gate))

-- A gate without a title that is open hands on every byte as it came and in order, but for a rest of less
-- than a packet that it keeps; it holds nothing back, and stays open and without a filter.
pub push_report_passes :
    (g : KeyframeGate) (bytes : List ℕ)
    → g.locked ≡ true
    → g.filter_sdt ≡ false
    → let (g', o) = Gate.push_report g bytes in
      (o.bytes ++ g'.buf ≡ g.buf ++ bytes)
      × (length g'.buf < 188)
      × (o.withheld_bytes ≡ 0)
      × (g'.locked ≡ true)
      × (g'.filter_sdt ≡ false)
unfolding Gate.push_report Gate.gate_start
push_report_passes g bytes l f =
    let buf = g.buf ++ bytes in
    let start : Through buf (Gate.gate_start g) = record {
      unfiltered = f;
      open_gate = l;
      bytes_are = refl;
      none_held = refl;
    } in
    let (p, short) =
      gate_loop_inv buf (Through buf) (Turn-Through buf) (length buf) (Gate.gate_start g)
        (omega arith) start in
    let done = (Gate.gate_loop (length buf) buf (Gate.gate_start g)).i in
    (
      ap (λ t. t ++ drop done buf) p.bytes_are ∙ take-append-drop done buf,
      omega (arith, short, length-drop done buf),
      p.none_held,
      p.open_gate,
      p.unfiltered,
    )

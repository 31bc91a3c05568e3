-- ===== src/Media/Gate/Opening.antt =====
-- crates/ace-media/src/mpegts.rs: KeyframeGate gives up waiting for a packet to start at.
use outpace.Prelude.{
  ℕ, suc, ◌+◌, ◌*◌, ◌/◌, ◌≤◌, ◌<◌, ◌≡◌, refl, true, false, List, ◌++◌, length, inl, inr, ◌⊎◌, arith,
}
use outpace.Media.Gate
use outpace.Media.Gate.{KeyframeGate, GateScan}
use outpace.Media.Gate.Turns.{Turn, gate_loop_inv}

-- The turns so far, and that a gate that is still shut has counted them.
record Counted (g : KeyframeGate) (s : GateScan) : Type 0 where
  unfiltered : s.gate.filter_sdt ≡ false
  same_budget : s.gate.max_scan_packets ≡ g.max_scan_packets
  turns : ℕ
  at : s.i ≡ turns * 188
  count :
      (s.gate.locked ≡ true)
      ⊎ ((s.gate.scanned ≡ g.scanned + turns)
          × ((turns ≡ 0) ⊎ (s.gate.scanned < g.max_scan_packets)))

Turn-Counted :
    (g : KeyframeGate) (pkt : List ℕ) (s s' : GateScan) → Counted g s → Turn pkt s s' → Counted g s'
unfolding Gate.filter_packet Gate.pass_packet Gate.resume Gate.withhold
Turn-Counted g pkt s s' p (Turn.filtered e pid) = absurd (cc (e, p.unfiltered))
Turn-Counted g pkt s s' p (Turn.passed e l) = record {
  unfiltered = p.unfiltered;
  same_budget = p.same_budget;
  turns = suc p.turns;
  at = omega (arith, p.at);
  count = inl l;
}
Turn-Counted g pkt s s' p (Turn.resumed t c m w e l k) = record {
  unfiltered = p.unfiltered;
  same_budget = p.same_budget;
  turns = suc p.turns;
  at = omega (arith, p.at);
  count = inl refl;
}
Turn-Counted g pkt s s' p (Turn.withheld e l b q) = record {
  unfiltered = p.unfiltered;
  same_budget = p.same_budget;
  turns = suc p.turns;
  at = omega (arith, p.at);
  count = elim p.count [
    | inl o ↦ absurd (cc (l, o))
    | inr (n, h) ↦ inr (omega (arith, n), inr (omega (arith, b, p.same_budget)))
  ];
}

-- A shut gate without a title opens as soon as it has scanned its budget of packets, whatever they are.
pub push_report_opens :
    (g : KeyframeGate) (bytes : List ℕ)
    → g.filter_sdt ≡ false
    → 188 ≤ length (g.buf ++ bytes)
    → g.max_scan_packets ≤ g.scanned + length (g.buf ++ bytes) / 188
    → (Gate.push_report g bytes).0.locked ≡ true
unfolding Gate.push_report Gate.gate_start
push_report_opens g bytes f some_packet enough =
    let buf = g.buf ++ bytes in
    let start : Counted g (Gate.gate_start g) = record {
      unfiltered = f;
      same_budget = refl;
      turns = 0;
      at = refl;
      count = inr (omega arith, inl refl);
    } in
    let (p, short) =
      gate_loop_inv buf (Counted g) (λ s s' q room t. Turn-Counted g _ s s' q t) (length buf)
        (Gate.gate_start g) (omega arith) start in
    elim p.count [
      | inl o ↦ o
      | inr (n, inl z) ↦ absurd (omega (arith, p.at))
      | inr (n, inr h) ↦ absurd (omega (arith, p.at))
    ]

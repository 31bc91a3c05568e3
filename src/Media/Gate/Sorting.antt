-- ===== src/Media/Gate/Sorting.antt =====
-- crates/ace-media/src/mpegts.rs: each turn of KeyframeGate's loop gives its packet its fate.
use outpace.Prelude.{
  ℕ, ◌+◌, ◌≤◌, ◌≡◌, refl, sym, ap, ◌∙◌, subst, Bool, true, false, ◌==◌, ◌&&◌, Option, none, List,
  [], ◌++◌, length, Bool-cases, inl, inr, ◌⊎◌, arith,
}
use outpace.Media
use outpace.Media.{Range}
use outpace.Media.Packet
use outpace.Media.Access
use outpace.Media.Access.{VideoAccessPointState}
use outpace.Media.Inserts
use outpace.Media.Resync.Turns.{Ascending, Ascending-mono, select-Ascending, slices-select}
use outpace.Media.Gate
use outpace.Media.Gate.{KeyframeGate, GateScan, GateResume}
use outpace.Media.Gate.Fates.{Fates, Copied, tables_at, packet_at}
use outpace.Media.Gate.Turns.{Turn, resumed_packet-Copied}

-- A gate that is still shut has put nothing out.
abbrev pub Quiet : Bool → List Range → List ℕ → Option GateResume → Type 0
Quiet locked forwarded bytes resumed =
    (locked ≡ true) ⊎ ((forwarded ≡ []) × (bytes ≡ []) × (resumed ≡ none))

same_test : {f f' : Bool} (b : Bool) → f ≡ f' → (f && b) ≡ false → (f' && b) ≡ false
same_test b e h = cc (e, h)

pass_packet-bytes :
    (pkt : List ℕ) (s : GateScan)
    → (Gate.pass_packet pkt s).bytes
      ≡ s.bytes
        ++ (tables_at
              (s.gate.filter_sdt && (Access.observe s.gate.access pkt).1)
              (Access.observe s.gate.access pkt).0
              s.gate.next_sdt_counter
            ++ pkt)
unfolding Gate.pass_packet
pass_packet-bytes pkt s =
    elim (Bool-cases (s.gate.filter_sdt && (Access.observe s.gate.access pkt).1)) [
      | inl e ↦ rw e refl
      | inr e ↦ rw e refl
    ]

module _ (buf : List ℕ) (g : KeyframeGate) where
  -- The fates of the packets for this gate.
  abbrev pub FatesOf : ℕ → List ℕ → ℕ → List ℕ → VideoAccessPointState → Bool → Type 0
  FatesOf = Fates buf g.filter_sdt g.mark_discontinuity g.access g.locked

  pub record Sorted (s : GateScan) : Type 0 where
    pub same_filter : s.gate.filter_sdt ≡ g.filter_sdt
    pub due : (s.gate.locked ≡ true) ⊎ (s.gate.mark_discontinuity ≡ g.mark_discontinuity)
    pub fates :
        FatesOf s.i
          (Media.slices buf s.forwarded)
          s.withheld_bytes
          s.bytes
          s.gate.access
          s.gate.locked
    pub ordered : Ascending 0 s.forwarded s.i
    pub inside : s.i ≤ length buf
    pub quiet : Quiet s.gate.locked s.forwarded s.bytes s.resumed

  -- The packet at the turn's place.
  abbrev pub next_packet : GateScan → List ℕ
  next_packet s = packet_at buf s.i

  unfiltered :
      (s : GateScan)
      → Sorted s
      → (s.gate.filter_sdt && (Packet.ts_pid (next_packet s) == 0x11)) ≡ false
      → (g.filter_sdt && (Packet.ts_pid (next_packet s) == 0x11)) ≡ false
  unfiltered s p e = same_test _ p.same_filter e

  -- The range of a packet that is handed on joins the output's ranges.
  selected :
      {held : ℕ} {put : List ℕ} {access : VideoAccessPointState} {is_open : Bool} (s : GateScan)
      → Sorted s
      → FatesOf (s.i + 188) (Media.slices buf s.forwarded ++ next_packet s) held put access is_open
      → FatesOf
          (s.i + 188)
          (Media.slices buf (Media.select s.i s.forwarded))
          held
          put
          access
          is_open
  selected {held} {put} {access} {is_open} s p q =
      subst (λ out. FatesOf (s.i + 188) out held put access is_open)
        (sym (slices-select buf 0 s.i s.forwarded p.ordered)) q

  pass_on :
      (s : GateScan)
      → Sorted s
      → s.i + 188 ≤ length buf
      → (s.gate.filter_sdt && (Packet.ts_pid (next_packet s) == 0x11)) ≡ false
      → s.gate.locked ≡ true
      → FatesOf
          (s.i + 188)
          (Media.slices buf (Media.select s.i s.forwarded))
          s.withheld_bytes
          (Gate.pass_packet (next_packet s) s).bytes
          (Access.observe s.gate.access (next_packet s)).0
          s.gate.locked
  pass_on s p room e l =
      let learned = (Access.observe s.gate.access (next_packet s)).0 in
      let point = (Access.observe s.gate.access (next_packet s)).1 in
      let before =
        subst
          (λ o. FatesOf s.i (Media.slices buf s.forwarded) s.withheld_bytes s.bytes s.gate.access o)
          l p.fates in
      let after = Fates.handed_on s.gate.next_sdt_counter before (unfiltered s p e) room in
      let bytes =
        ap
          (λ f.
            s.bytes ++ (tables_at (f && point) learned s.gate.next_sdt_counter ++ next_packet s))
          (sym p.same_filter)
        ∙ sym (pass_packet-bytes (next_packet s) s) in
      subst
        (λ o.
          FatesOf (s.i + 188) (Media.slices buf (Media.select s.i s.forwarded)) s.withheld_bytes
            (Gate.pass_packet (next_packet s) s).bytes learned o)
        (sym l)
        (selected s p (
          subst
            (λ put.
              FatesOf (s.i + 188) (Media.slices buf s.forwarded ++ next_packet s) s.withheld_bytes
                put learned true)
            bytes after))

  -- The state in front of the turn of a gate that is shut.
  shut :
      (s : GateScan)
      → Sorted s
      → s.gate.locked ≡ false
      → FatesOf s.i (Media.slices buf s.forwarded) s.withheld_bytes s.bytes s.gate.access false
  shut s p l =
      subst
        (λ o. FatesOf s.i (Media.slices buf s.forwarded) s.withheld_bytes s.bytes s.gate.access o) l
        p.fates

  still_due :
      (s : GateScan)
      → Sorted s
      → s.gate.locked ≡ false
      → s.gate.mark_discontinuity ≡ g.mark_discontinuity
  still_due s p l = elim p.due [ inl o ↦ absurd (cc (o, l)) | inr m ↦ m ]

  open_with :
      (s : GateScan) (marker_pid : Option ℕ) (tables : List ℕ)
      → Sorted s
      → s.i + 188 ≤ length buf
      → (s.gate.filter_sdt && (Packet.ts_pid (next_packet s) == 0x11)) ≡ false
      → s.gate.locked ≡ false
      → tables
        ≡ tables_at
            (Access.observe s.gate.access (next_packet s)).1
            (Access.observe s.gate.access (next_packet s)).0
            s.gate.next_sdt_counter
      → FatesOf
          (s.i + 188)
          (Media.slices buf (Media.select s.i s.forwarded))
          s.withheld_bytes
          (s.bytes
            ++ (tables
                ++ Inserts.resumed_packet s.gate.mark_discontinuity marker_pid (next_packet s)))
          (Access.observe s.gate.access (next_packet s)).0
          true
  open_with s marker_pid tables p room e l k =
      let copy = Inserts.resumed_packet s.gate.mark_discontinuity marker_pid (next_packet s) in
      let copied : Copied g.mark_discontinuity (next_packet s) copy =
        subst (λ m. Copied m (next_packet s) copy) (still_due s p l)
          (resumed_packet-Copied s.gate.mark_discontinuity marker_pid (next_packet s)) in
      selected s p (
        subst
          (λ t.
            FatesOf (s.i + 188) (Media.slices buf s.forwarded ++ next_packet s) s.withheld_bytes
              (s.bytes ++ (t ++ copy)) (Access.observe s.gate.access (next_packet s)).0 true)
          (sym k)
          (Fates.opened s.gate.next_sdt_counter copy (shut s p l) (unfiltered s p e) room copied))

  pub Turn-Sorted :
      (s s' : GateScan) → Sorted s → s.i + 188 ≤ length buf → Turn (next_packet s) s s' → Sorted s'
  unfolding Gate.filter_packet Gate.pass_packet Gate.resume Gate.withhold
  Turn-Sorted s s' p room (Turn.filtered e pid) = record {
    same_filter = p.same_filter;
    due = p.due;
    fates = Fates.left_out p.fates (sym p.same_filter ∙ e) pid room;
    ordered = Ascending-mono 0 s.i (s.i + 188) s.forwarded (omega arith) p.ordered;
    inside = room;
    quiet = p.quiet;
  }
  Turn-Sorted s s' p room (Turn.passed e l) = record {
    same_filter = p.same_filter;
    due = inl l;
    fates = pass_on s p room e l;
    ordered = select-Ascending 0 s.i s.forwarded p.ordered;
    inside = room;
    quiet = inl l;
  }
  Turn-Sorted s s' p room (Turn.resumed t c m w e l k) = record {
    same_filter = p.same_filter;
    due = inl refl;
    fates = open_with s m t p room e l k;
    ordered = select-Ascending 0 s.i s.forwarded p.ordered;
    inside = room;
    quiet = inl refl;
  }
  Turn-Sorted s s' p room (Turn.withheld e l b q) = record {
    same_filter = p.same_filter;
    due = inr (still_due s p l);
    fates =
        subst
          (λ o.
            FatesOf (s.i + 188) (Media.slices buf s.forwarded) (s.withheld_bytes + 188) s.bytes
              (Access.observe s.gate.access (next_packet s)).0 o)
          (sym l) (Fates.held_back (shut s p l) (unfiltered s p e) q room);
    ordered = Ascending-mono 0 s.i (s.i + 188) s.forwarded (omega arith) p.ordered;
    inside = room;
    quiet = p.quiet;
  }

-- ===== src/Media/Gate/Report.antt =====
-- crates/ace-media/src/mpegts.rs: what KeyframeGate.push_report hands on, holds back and keeps.
use outpace.Prelude.{ℕ, ◌<◌, ◌≡◌, List, length, drop}
use outpace.Media
use outpace.Media.Resync.Turns.{Ascending}
use outpace.Media.Gate
use outpace.Media.Gate.{KeyframeGate, KeyframeGateOutput}
use outpace.Media.Gate.Fates.{Fates}
use outpace.Media.Gate.Sorting.{Quiet}

-- What a push to the gate `before` makes of the packets of the kept bytes and the new ones, `input`.
pub record Gated (before : KeyframeGate) (input : List ℕ) (g : KeyframeGate)
    (o : KeyframeGateOutput) : Type 0 where
  pub passed_over : ℕ
  pub fates :
      Fates input before.filter_sdt before.mark_discontinuity before.access before.locked
        passed_over
        (Media.slices input o.forwarded)
        o.withheld_bytes
        o.bytes
        g.access
        g.locked
  pub ordered : Ascending 0 o.forwarded passed_over
  pub kept : g.buf ≡ drop passed_over input
  pub bounded : length g.buf < 188
  pub same_filter : g.filter_sdt ≡ before.filter_sdt
  pub quiet : Quiet g.locked o.forwarded o.bytes o.resumed

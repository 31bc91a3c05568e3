-- ===== src/Media/Clock/Tests.antt =====
-- Runs of crates/ace-media/src/mpegts.rs's SelectedPcrClock, and its theorem over a wrap.
use outpace.Prelude.{ℕ, ◌+◌, ◌-◌, ◌^◌, ◌≡◌, ◌≢◌, refl, false, some, List, [], ◌∷◌, arith}
use outpace.Media.Clock
use outpace.Media.Clock.{SelectedPcrClock, ignored, advanced, reset_clock}
use outpace.Media.Clock.Ticks.{
  Tick, reading, other, silent, timings, expected, observe_all, running, observe_all-ticks,
}

program : Unit {0}
unfolding Clock.pcr_delta Clock.new Clock.elapsed Clock.other_pid Clock.jumps Clock.start_of
    Clock.observe_pcr Clock.observe observe_all
program = tt

-- The first reading selects the PID; a jump back starts anew.
selects_and_resets :
    observe_all Clock.new (
      record { pid = 7; pcr = some 1000; discontinuity = false }
      ∷ record { pid = 8; pcr = some 5; discontinuity = false }
      ∷ record { pid = 7; pcr = some 91000; discontinuity = false }
      ∷ record { pid = 7; pcr = some 90000; discontinuity = false }
      ∷ [])
    ≡ advanced 0 ∷ ignored ∷ advanced 90000 ∷ reset_clock ∷ []
unfolding program
selects_and_resets = refl

apart : ◌≢◌ {A = ℕ} 8 7
apart h = absurd (omega arith)

-- Readings that wrap behind half a second, with another PID between them.
abbrev wrapping : List (Tick 7)
wrapping = reading 45000 ∷ other 8 3 apart ∷ silent 7 ∷ reading 90000 ∷ []

observe_all-ticks_example :
    observe_all (running 7 (2 ^ 33 - 45000) 0) (timings (2 ^ 33 - 45000 + 0) wrapping)
    ≡ expected 0 wrapping
observe_all-ticks_example = observe_all-ticks 7 (2 ^ 33 - 45000) 0 wrapping (omega arith)

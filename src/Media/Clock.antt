-- ===== src/Media/Clock.antt =====
-- crates/ace-media/src/mpegts.rs: the clock of one program, read from the packets of its first PID.
-- A length of time is a number of 90 kHz ticks: `elapsed` and `observe` of the source hand out the same number,
-- made a Duration by a float division.
pub mod Ticks
mod Tests
use outpace.Prelude.{
  ℕ, ◌+◌, ◌-◌, ◌/◌, ◌%◌, ◌^◌, ◌==◌, not, Bool, true, false, Option, none, some, get_or, leb,
  if◌then◌else◌,
}
use outpace.Media.{then_some, ◌>>=◌}
use outpace.Media.Packet.{TsTiming}

abbrev pub pcr_modulus : ℕ
pcr_modulus = 2 ^ 33

unfoldable pub pcr_delta : (start end : ℕ) → Option ℕ
pcr_delta start end =
    let delta = (end + pcr_modulus - start) % pcr_modulus in
    then_some (leb delta (pcr_modulus / 2)) delta

pub data ClockObservation : Type 0 where
  ignored : ClockObservation
  advanced : (ticks : ℕ) → ClockObservation
  reset_clock : ClockObservation

pub record SelectedPcrClock : Type 0 where
  pub pid : Option ℕ
  pub start : Option ℕ
  pub last : Option ℕ

unfoldable pub new : SelectedPcrClock
new = record { pid = none; start = none; last = none }

unfoldable pub elapsed : SelectedPcrClock → Option ℕ
elapsed c = do start ← c.start; last ← c.last; pcr_delta start last

-- A packet of another PID than the selected one.
unfoldable pub other_pid : Option ℕ → ℕ → Bool
other_pid none pid = false
other_pid (some selected) pid = not (selected == pid)

unfoldable pub jumps : Option ℕ → ℕ → Bool
jumps none pcr = false
jumps (some last) pcr = elim (pcr_delta last pcr) [ none ↦ true | some _ ↦ false ]

unfoldable pub start_of : Option ℕ → ℕ → ℕ
start_of none pcr = pcr
start_of (some start) pcr = start

unfoldable pub observe_pcr : SelectedPcrClock → (pid pcr : ℕ) → SelectedPcrClock × ClockObservation
observe_pcr c pid pcr =
    let c' : SelectedPcrClock = record {
      pid = some pid;
      start = some (start_of c.start pcr);
      last = some pcr;
    } in
    if other_pid c.pid pid
    then (c, ignored)
    else if jumps c.last pcr
    then (new, reset_clock)
    else (c', advanced (get_or (elapsed c') 0))

unfoldable pub observe : SelectedPcrClock → TsTiming → SelectedPcrClock × ClockObservation
observe c t =
    if t.discontinuity
    then (new, reset_clock)
    else elim t.pcr [ none ↦ (c, ignored) | some pcr ↦ observe_pcr c t.pid pcr ]

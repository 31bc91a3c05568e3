-- ===== src/Media/Clock/Ticks.antt =====
-- crates/ace-media/src/mpegts.rs: the selected clock counts on over the wrap of its 33-bit readings.
use outpace.Prelude.{
  ℕ, ◌+◌, ◌-◌, ◌%◌, ◌^◌, ◌≤◌, ◌≡◌, ◌≢◌, ◌==◌, refl, sym, ap, ◌∙◌, false, none, some, List, [], ◌∷◌,
  arith,
}
use outpace.Media.Packet.{TsTiming}
use outpace.Media.Clock
use outpace.Media.Clock.{SelectedPcrClock, ClockObservation, ignored, advanced}

-- What a packet of the stream can be: a reading of the clock's PID `delta` ticks after the last
-- one, a reading of another PID, or a packet without a reading.
pub data Tick (pid : ℕ) : Type 0 where
  reading : (delta : ℕ) → Tick pid
  other : (other_pid pcr : ℕ) → other_pid ≢ pid → Tick pid
  silent : (silent_pid : ℕ) → Tick pid

-- The packets after a reading of `now` ticks, of which the clock shows the low 33 bits.
abbrev pub timings : {pid : ℕ} → (now : ℕ) → List (Tick pid) → List TsTiming
timings now [] = []
timings {pid} now (reading delta ∷ ts) =
    record { pid = pid; pcr = some ((now + delta) % 2 ^ 33); discontinuity = false }
    ∷ timings (now + delta) ts
timings now (other other_pid pcr apart ∷ ts) =
    record { pid = other_pid; pcr = some pcr; discontinuity = false } ∷ timings now ts
timings now (silent silent_pid ∷ ts) =
    record { pid = silent_pid; pcr = none; discontinuity = false } ∷ timings now ts

-- What the clock is to say of them, `total` ticks after its first reading.
abbrev pub expected : {pid : ℕ} → (total : ℕ) → List (Tick pid) → List ClockObservation
expected total [] = []
expected total (reading delta ∷ ts) = advanced (total + delta) ∷ expected (total + delta) ts
expected total (other other_pid pcr apart ∷ ts) = ignored ∷ expected total ts
expected total (silent silent_pid ∷ ts) = ignored ∷ expected total ts

abbrev pub ticks : {pid : ℕ} → List (Tick pid) → ℕ
ticks [] = 0
ticks (reading delta ∷ ts) = delta + ticks ts
ticks (other other_pid pcr apart ∷ ts) = ticks ts
ticks (silent silent_pid ∷ ts) = ticks ts

unfoldable pub observe_all : SelectedPcrClock → List TsTiming → List ClockObservation
observe_all c [] = []
observe_all c (t ∷ ts) = let (c', o) = Clock.observe c t in o ∷ observe_all c' ts

-- The clock that has read `first` ticks at its start and `first + total` last.
abbrev pub running : (pid first total : ℕ) → SelectedPcrClock
running pid first total = record {
  pid = some pid;
  start = some (first % 2 ^ 33);
  last = some ((first + total) % 2 ^ 33);
}

pub pcr_delta_lem :
    (first delta : ℕ)
    → delta ≤ 2 ^ 32
    → Clock.pcr_delta (first % 2 ^ 33) ((first + delta) % 2 ^ 33) ≡ some delta
unfolding Clock.pcr_delta
pcr_delta_lem first delta h =
    let d : ((first + delta) % 2 ^ 33 + 2 ^ 33 - first % 2 ^ 33) % 2 ^ 33 ≡ delta = omega arith in
    rw d (ground arith)

advance :
    (pid start last pcr delta total : ℕ)
    → Clock.pcr_delta last pcr ≡ some delta
    → Clock.pcr_delta start pcr ≡ some total
    → Clock.observe_pcr (record { pid = some pid; start = some start; last = some last }) pid pcr
      ≡ (record { pid = some pid; start = some start; last = some pcr }, advanced total)
unfolding Clock.observe_pcr Clock.other_pid Clock.jumps Clock.start_of Clock.elapsed
advance pid start last pcr delta total d t = ground (arith, d, t)

observe-reading :
    (pid first total delta : ℕ)
    → total + delta ≤ 2 ^ 32
    → Clock.observe
        (running pid first total)
        (record { pid = pid; pcr = some ((first + total + delta) % 2 ^ 33); discontinuity = false })
      ≡ (running pid first (total + delta), advanced (total + delta))
unfolding Clock.observe
observe-reading pid first total delta h =
    let place : first + (total + delta) ≡ first + total + delta = omega arith in
    let whole : Clock.pcr_delta (first % 2 ^ 33) ((first + total + delta) % 2 ^ 33)
        ≡ some (total + delta) =
      ap (λ t. Clock.pcr_delta (first % 2 ^ 33) (t % 2 ^ 33)) (sym place)
      ∙ pcr_delta_lem first (total + delta) h in
    advance pid (first % 2 ^ 33) ((first + total) % 2 ^ 33) ((first + total + delta) % 2 ^ 33) delta
      (total + delta) (pcr_delta_lem (first + total) delta (omega arith)) whole
    ∙ ap
        (λ t. (
          record { pid = some pid; start = some (first % 2 ^ 33); last = some (t % 2 ^ 33) },
          advanced (total + delta),
        ))
        (sym place)

observe-other :
    (pid first total other_pid pcr : ℕ)
    → other_pid ≢ pid
    → Clock.observe
        (running pid first total)
        (record { pid = other_pid; pcr = some pcr; discontinuity = false })
      ≡ (running pid first total, ignored)
unfolding Clock.observe Clock.observe_pcr Clock.other_pid
observe-other pid first total other_pid pcr apart =
    let differ : (pid == other_pid) ≡ false = ground (arith, apart) in
    rw (differ, Clock.observe_pcr) refl

observe-silent :
    (pid first total silent_pid : ℕ)
    → Clock.observe
        (running pid first total)
        (record { pid = silent_pid; pcr = none; discontinuity = false })
      ≡ (running pid first total, ignored)
unfolding Clock.observe
observe-silent pid first total silent_pid = refl

then_all :
    (c c' : SelectedPcrClock) (t : TsTiming) (o : ClockObservation) (ts : List TsTiming)
    (os : List ClockObservation)
    → Clock.observe c t ≡ (c', o)
    → observe_all c' ts ≡ os
    → observe_all c (t ∷ ts) ≡ o ∷ os
unfolding observe_all
then_all c c' t o ts os e h = ap (λ p. p.1 ∷ observe_all p.0 ts) e ∙ ap (◌∷◌ o) h

-- While at most 2^32 ticks have gone by since its first reading, a running clock tells all the ticks
-- since then at each reading of its own PID, also where the readings wrap, and it passes over all
-- other packets.
pub observe_all-ticks :
    (pid first total : ℕ) (ts : List (Tick pid))
    → total + ticks ts ≤ 2 ^ 32
    → observe_all (running pid first total) (timings (first + total) ts) ≡ expected total ts
observe_all-ticks pid first total [] h = unfold observe_all in refl
observe_all-ticks pid first total (reading delta ∷ ts) h =
    let place : first + total + delta ≡ first + (total + delta) = omega arith in
    then_all _ (running pid first (total + delta)) _ _ _ _
      (observe-reading pid first total delta (omega arith))
      (ap (λ t. observe_all (running pid first (total + delta)) (timings t ts)) place
        ∙ observe_all-ticks pid first (total + delta) ts (omega arith))
observe_all-ticks pid first total (other other_pid pcr apart ∷ ts) h =
    then_all _ (running pid first total) _ _ _ _ (observe-other pid first total other_pid pcr apart)
      (observe_all-ticks pid first total ts h)
observe_all-ticks pid first total (silent silent_pid ∷ ts) h =
    then_all _ (running pid first total) _ _ _ _ (observe-silent pid first total silent_pid)
      (observe_all-ticks pid first total ts h)

-- ===== src/Wire/Live/Tests.antt =====
-- Runs of crates/ace-wire/src/live.rs, and its theorems at concrete windows.
use outpace.Prelude.{ℕ, ◌≡◌, refl, some, List, [], ◌∷◌, ◌++◌, arith}
use outpace.Wire.Bencode
use outpace.Wire.Bencode.Decimal
use outpace.Wire.Live
use outpace.Wire.Live.{LiveWindow, LivePicker}
use outpace.Wire.Live.Window.{myinfo, from_myinfo_payload-myinfo}
use outpace.Wire.Live.Picking.{pick_all, Ascend, pick_all-Ascend}

program : Unit {0}
unfolding pick_all Live.next_request Live.start_piece Live.new Live.starting_at Bencode.encode
    Decimal.print_digits Decimal.print_i64
program = tt

abbrev window : (min_piece max_piece : ℕ) → LiveWindow
window min_piece max_piece = record {
  min_piece = min_piece;
  max_piece = max_piece;
  position = max_piece;
}

abbrev slides : List LiveWindow
slides = window 10 12 ∷ window 10 12 ∷ window 20 22 ∷ window 20 20 ∷ window 21 21 ∷ []

abbrev picker : LivePicker
picker = record { next = 12 }

-- It asks for the head, waits, skips what has gone, and waits again.
handed_out : pick_all picker slides ≡ 12 ∷ 20 ∷ 21 ∷ []
unfolding program
handed_out = refl

behind_the_head : Live.start_piece (window 90 100) 5 ≡ 95
unfolding program
behind_the_head = refl

pick_all-Ascend_example : Ascend 12 (pick_all picker slides)
pick_all-Ascend_example =
    pick_all-Ascend picker slides
      (omega arith, (omega arith, (omega arith, (omega arith, (omega arith, tt)))))

abbrev head_window : LiveWindow
head_window = window 90 100

abbrev message : List ℕ
message = Bencode.encode (myinfo head_window) ++ (1 ∷ 2 ∷ [])

from_myinfo_payload-myinfo_example : Live.from_myinfo_payload message ≡ some head_window
unfolding Bencode.encode Decimal.print_digits Decimal.print_i64
from_myinfo_payload-myinfo_example =
    from_myinfo_payload-myinfo head_window (1 ∷ 2 ∷ [])
      (record { low = omega arith; high = omega arith }) (omega arith) (omega arith)

recognized : Live.from_myinfo_payload message ≡ some head_window
unfolding Bencode.encode Decimal.print_digits Decimal.print_i64
recognized =
    from_myinfo_payload-myinfo head_window (1 ∷ 2 ∷ [])
      (record { low = omega arith; high = omega arith }) (omega arith) (omega arith)

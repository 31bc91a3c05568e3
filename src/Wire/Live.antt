-- ===== src/Wire/Live.antt =====
-- crates/ace-wire/src/live.rs: the window of a live stream, read from a peer's message, and the picker
-- of the piece to ask for next. A wrap of the picker's counter is written out.
pub mod Window
pub mod Picking
mod Tests
use outpace.Prelude.{
  ℕ, ◌+◌, ◌-◌, ◌%◌, min, max, Option, none, some, List, [], ◌∷◌, ltb, if◌then◌else◌, u64_mod,
  get_or,
}
use outpace.Prelude.Ints.{ℤ, pos, negsuc, try_u64, max_zero}
use outpace.Wire.{Result, ok, err}
use outpace.Wire.Bencode
use outpace.Wire.Bencode.{Bencode}

pub record LiveWindow : Type 0 where
  pub min_piece : ℕ
  pub max_piece : ℕ
  pub position : ℕ

unfoldable pub start_piece : LiveWindow → (buffer : ℕ) → ℕ
start_piece w buffer = max (w.position - buffer) w.min_piece

-- "max_piece", "min_piece", "position" and "mi".
abbrev pub max_piece_key : List ℕ
max_piece_key = 109 ∷ 97 ∷ 120 ∷ 95 ∷ 112 ∷ 105 ∷ 101 ∷ 99 ∷ 101 ∷ []

abbrev pub min_piece_key : List ℕ
min_piece_key = 109 ∷ 105 ∷ 110 ∷ 95 ∷ 112 ∷ 105 ∷ 101 ∷ 99 ∷ 101 ∷ []

abbrev pub position_key : List ℕ
position_key = 112 ∷ 111 ∷ 115 ∷ 105 ∷ 116 ∷ 105 ∷ 111 ∷ 110 ∷ []

abbrev pub mi_key : List ℕ
mi_key = 109 ∷ 105 ∷ []

-- `dict.get(key).and_then(Bencode::as_int)`.
unfoldable pub get_int : Bencode → List ℕ → Option ℤ
get_int d key = elim (Bencode.get d key) [ none ↦ none | some v ↦ Bencode.as_int v ]

-- `.map(|v| v.max(0) as u64).unwrap_or(default)`.
abbrev pub advisory : Option ℤ → ℕ → ℕ
advisory none default = default
advisory (some v) default = max_zero v

-- `clamp(low, high)`, for bounds in order.
abbrev pub clamp : (n low high : ℕ) → ℕ
clamp n low high = min (max n low) high

-- The window of a dictionary.
unfoldable pub window_of_dict : Bencode → Option LiveWindow
unfolding get_int try_u64
window_of_dict d = elim (get_int d max_piece_key) [
  | none ↦ none
  | some v ↦ elim (try_u64 v) [
    | none ↦ none
    | some head ↦
        let low = min (advisory (get_int d min_piece_key) 0) head in
        some (record {
          min_piece = low;
          max_piece = head;
          position = clamp (advisory (get_int d position_key) head) low head;
        })
  ]
]

unfoldable pub from_myinfo_payload : List ℕ → Option LiveWindow
unfolding window_of_dict
from_myinfo_payload payload = elim (Bencode.parse_prefix payload) [
  | err _ ↦ none
  | ok (root, _) ↦ elim (Bencode.get root max_piece_key) [
    | some _ ↦ window_of_dict root
    | none ↦ elim (Bencode.get root mi_key) [ none ↦ none | some mi ↦ window_of_dict mi ]
  ]
]

pub record LivePicker : Type 0 where
  pub next : ℕ

unfoldable pub starting_at : ℕ → LivePicker
starting_at piece = record { next = piece }

unfoldable pub new : LiveWindow → (buffer : ℕ) → LivePicker
unfolding start_piece
new window buffer = record { next = start_piece window buffer }

-- `if self.next < window.min_piece`.
abbrev pub caught_up : LivePicker → LiveWindow → ℕ
caught_up p window = if ltb p.next window.min_piece then window.min_piece else p.next

unfoldable pub next_request : LivePicker → LiveWindow → LivePicker × Option ℕ
next_request p window =
    let next = caught_up p window in
    if ltb window.max_piece next
    then (record { next = next }, none)
    else (record { next = (next + 1) % u64_mod }, some next)

-- ===== src/Wire/Live/Window.antt =====
-- crates/ace-wire/src/live.rs: the windows that are read from messages.
use outpace.Prelude.{
  ℕ, min, max, ◌≤◌, ◌<◌, ◌≡◌, refl, ◌∙◌, some, List, ◌++◌, length, u64_mod, arith, Option-cases,
  inl, inr,
}
use outpace.Prelude.Ints.{pos, max_zero}
use outpace.Wire.{ok, Result-cases}
use outpace.Wire.Bencode
use outpace.Wire.Bencode.{Bencode, int, dict, field, end}
use outpace.Wire.Bencode.Decimal.{i64_limit}
use outpace.Wire.Bencode.Values.{IsValue}
use outpace.Wire.Bencode.RoundTrip.{parse_prefix-encode}
use outpace.Wire.Live
use outpace.Wire.Live.{LiveWindow}

pub record IsOrdered (w : LiveWindow) : Type 0 where
  pub low : w.min_piece ≤ w.position
  pub high : w.position ≤ w.max_piece

window_of_dict-IsOrdered :
    (d : Bencode) {w : LiveWindow} → Live.window_of_dict d ≡ some w → IsOrdered w
unfolding Live.window_of_dict
window_of_dict-IsOrdered d {w} e = record { low = ground arith; high = ground arith }

-- A window that is recognized in a message has its position between its bounds.
pub from_myinfo_payload-IsOrdered :
    (payload : List ℕ) {w : LiveWindow} → Live.from_myinfo_payload payload ≡ some w → IsOrdered w
unfolding Live.from_myinfo_payload
from_myinfo_payload-IsOrdered payload {w} e = elim (Result-cases (Bencode.parse_prefix payload)) [
  | inr (x, r) ↦ absurd (ground arith)
  | inl (found, r) ↦ elim (Option-cases (Bencode.get found.0 Live.max_piece_key)) [
    | inr (v, f) ↦ window_of_dict-IsOrdered found.0 (ground arith)
    | inl f ↦ elim (Option-cases (Bencode.get found.0 Live.mi_key)) [
      | inl g ↦ absurd (ground arith)
      | inr (mi, g) ↦ window_of_dict-IsOrdered mi (ground arith)
    ]
  ]
]

-- The dictionary that a peer advertises for a window.
abbrev pub myinfo : LiveWindow → Bencode
myinfo w = dict (
    field Live.max_piece_key (int (pos w.max_piece)) (
      field Live.min_piece_key (int (pos w.min_piece))
        (field Live.position_key (int (pos w.position)) end)))

myinfo-IsValue : (w : LiveWindow) → IsOrdered w → w.max_piece < i64_limit → IsValue 32 (myinfo w)
unfolding IsValue Bencode.bytes_lt
myinfo-IsValue w o h =
    (tt, h, (refl, omega (arith, o.low, o.high), (refl, omega (arith, o.high), tt)))

window_of_dict-myinfo : (w : LiveWindow) → IsOrdered w → Live.window_of_dict (myinfo w) ≡ some w
unfolding Live.window_of_dict Bencode.get Bencode.as_int max_zero
window_of_dict-myinfo w o =
    let low : min w.min_piece w.max_piece ≡ w.min_piece = omega (arith, o.low, o.high) in
    let mid : min (max w.position w.min_piece) w.max_piece ≡ w.position =
      omega (arith, o.low, o.high) in
    ground (arith, low, mid)

read_of_prefix :
    (buf : List ℕ) (w : LiveWindow) (n : ℕ)
    → Bencode.parse_prefix buf ≡ ok (myinfo w, n)
    → Live.from_myinfo_payload buf ≡ Live.window_of_dict (myinfo w)
unfolding Live.from_myinfo_payload Bencode.get
read_of_prefix buf w n e = ground arith

-- An ordered window below 2 ^ 63, bencoded as the dictionary of its three numbers, is recognized as that
-- window, whatever bytes follow in a message below 2 ^ 64 bytes.
pub from_myinfo_payload-myinfo :
    (w : LiveWindow) (tail : List ℕ)
    → IsOrdered w
    → w.max_piece < i64_limit
    → length (Bencode.encode (myinfo w) ++ tail) < u64_mod
    → Live.from_myinfo_payload (Bencode.encode (myinfo w) ++ tail) ≡ some w
from_myinfo_payload-myinfo w tail o h small =
    read_of_prefix (Bencode.encode (myinfo w) ++ tail) w _
      (parse_prefix-encode (myinfo w) tail (myinfo-IsValue w o h) small)
    ∙ window_of_dict-myinfo w o

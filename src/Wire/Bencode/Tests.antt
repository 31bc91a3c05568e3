-- ===== src/Wire/Bencode/Tests.antt =====
-- Runs of crates/ace-wire/src/bencode.rs, and its theorem at the dictionary of the unit tests.
use outpace.Prelude.{ℕ, ◌≡◌, refl, List, [], ◌∷◌, ◌++◌, length, ◌==◌, if◌then◌else◌, arith}
use outpace.Prelude.Ints.{pos, negsuc}
use outpace.Wire.{ok, err, truncated, invalid}
use outpace.Wire.Bencode
use outpace.Wire.Bencode.{Bencode, int, bytes, list, dict, nil, cons, end, field}
use outpace.Wire.Bencode.Decimal
use outpace.Wire.Bencode.Values.{IsValue}
use outpace.Wire.Bencode.RoundTrip.{parse-encode}

program : Unit {0}
unfolding Bencode.parse Bencode.parse_prefix Bencode.parse_value Bencode.parse_int
    Bencode.parse_bytes Bencode.insert_field Bencode.bytes_lt Bencode.encode Decimal.split_at
    Decimal.utf8_from Decimal.parse_digits Decimal.parse_usize Decimal.parse_i64
    Decimal.print_digits Decimal.print_i64
program = tt

-- d3:bar4:spam3:fooi42ee
abbrev text : List ℕ
text =
    100 ∷ 51 ∷ 58 ∷ 98 ∷ 97 ∷ 114 ∷ 52 ∷ 58 ∷ 115 ∷ 112 ∷ 97 ∷ 109 ∷ 51 ∷ 58 ∷ 102 ∷ 111 ∷ 111 ∷ 105
    ∷ 52 ∷ 50 ∷ 101 ∷ 101 ∷ []

abbrev bar_foo : Bencode
bar_foo = dict (
    field (98 ∷ 97 ∷ 114 ∷ []) (bytes (115 ∷ 112 ∷ 97 ∷ 109 ∷ []))
      (field (102 ∷ 111 ∷ 111 ∷ []) (int (pos 42)) end))

simple_encoded : Bencode.encode bar_foo ≡ text
unfolding program
simple_encoded = refl

simple_parsed : Bencode.parse text ≡ ok bar_foo
unfolding program
simple_parsed = refl

-- li-3e1:ae
negative :
    Bencode.parse (108 ∷ 105 ∷ 45 ∷ 51 ∷ 101 ∷ 49 ∷ 58 ∷ 97 ∷ 101 ∷ [])
    ≡ ok (list (cons (int (negsuc 2)) (cons (bytes (97 ∷ [])) nil)))
unfolding program
negative = refl

-- i42 and 3:ab
short :
    (Bencode.parse (105 ∷ 52 ∷ 50 ∷ []) ≡ err truncated)
    × (Bencode.parse (51 ∷ 58 ∷ 97 ∷ 98 ∷ []) ≡ err truncated)
unfolding program
short = (refl, refl)

parse-encode_example :
    Bencode.parse (Bencode.encode bar_foo ++ (88 ∷ []))
    ≡ (if length {A = ℕ} (88 ∷ []) == 0 then ok bar_foo else err (invalid "trailing bytes"))
unfolding Bencode.encode IsValue Bencode.bytes_lt Decimal.print_digits Decimal.print_i64
parse-encode_example =
    parse-encode bar_foo (88 ∷ []) (tt, tt, (refl, omega arith, tt)) (omega arith)

bar_foo_prefix : Bencode.parse_prefix text ≡ ok (bar_foo, 22)
unfolding program
bar_foo_prefix = refl

-- ===== src/Wire/Bencode/Decimal.antt =====
-- What crates/ace-wire/src/bencode.rs uses of Rust's std: numbers printed in decimal, parsed back with
-- their sign and range, and the check for UTF-8.
pub mod Digits
use outpace.Prelude.{
  ℕ, zero, suc, ◌+◌, ◌-◌, ◌*◌, ◌/◌, ◌%◌, Bool, true, false, ◌&&◌, Option, none, some, List, [], ◌∷◌,
  ◌++◌, ltb, leb, ◌==◌, if◌then◌else◌, u64_mod,
}
use outpace.Prelude.Ints.{ℤ, pos, negsuc}

-- The bytes in front of the first `c`.
unfoldable pub split_at : (c : ℕ) → List ℕ → Option (List ℕ)
split_at c [] = none
split_at c (b ∷ bs) =
    let rest = split_at c bs in
    if b == c then some [] else elim rest [ none ↦ none | some s ↦ some (b ∷ s) ]

-- What a lead byte asks for: how many continuation bytes, and the range of the first.
abbrev pub lead : ℕ → Option (ℕ × ℕ × ℕ)
lead b =
    if ltb b 0x80
    then some (0, 0x80, 0xbf)
    else if ltb b 0xc2
    then none
    else if ltb b 0xe0
    then some (1, 0x80, 0xbf)
    else if b == 0xe0
    then some (2, 0xa0, 0xbf)
    else if b == 0xed
    then some (2, 0x80, 0x9f)
    else if ltb b 0xf0
    then some (2, 0x80, 0xbf)
    else if b == 0xf0
    then some (3, 0x90, 0xbf)
    else if ltb b 0xf4
    then some (3, 0x80, 0xbf)
    else if b == 0xf4
    then some (3, 0x80, 0x8f)
    else none

unfoldable pub utf8_from : (need lo hi : ℕ) → List ℕ → Bool
utf8_from need lo hi [] = need == 0
utf8_from zero lo hi (b ∷ bs) = elim (lead b) [ none ↦ false | some (n, l, h) ↦ utf8_from n l h bs ]
utf8_from (suc need) lo hi (b ∷ bs) = (leb lo b && leb b hi) && utf8_from need 0x80 0xbf bs

abbrev pub is_utf8 : List ℕ → Bool
is_utf8 s = utf8_from 0 0x80 0xbf s

-- The digits behind a value read so far.
unfoldable pub parse_digits : ℕ → List ℕ → Option ℕ
parse_digits acc [] = some acc
parse_digits acc (d ∷ ds) =
    let rest = parse_digits (acc * 10 + (d - 48)) ds in if leb 48 d && leb d 57 then rest else none

-- At least one digit.
abbrev pub parse_nat : List ℕ → Option ℕ
parse_nat [] = none
parse_nat (d ∷ ds) = parse_digits 0 (d ∷ ds)

-- Without a plus in front.
abbrev pub unsigned : List ℕ → List ℕ
unsigned [] = []
unsigned (c ∷ ds) = if c == 43 then ds else c ∷ ds

-- `parse::<usize>()`.
unfoldable pub parse_usize : List ℕ → Option ℕ
unfolding parse_digits
parse_usize s = elim (parse_nat (unsigned s)) [
  | none ↦ none
  | some n ↦ if ltb n u64_mod then some n else none
]

abbrev pub i64_limit : ℕ
i64_limit = 0x8000000000000000

-- `parse::<i64>()`.
unfoldable pub parse_i64 : List ℕ → Option ℤ
unfolding parse_digits
parse_i64 [] = none
parse_i64 (c ∷ ds) =
    if c == 45
    then elim (parse_nat ds) [
      | none ↦ none
      | some zero ↦ some (pos 0)
      | some (suc n) ↦ if ltb n i64_limit then some (negsuc n) else none
    ]
    else elim (parse_nat (unsigned (c ∷ ds))) [
      | none ↦ none
      | some n ↦ if ltb n i64_limit then some (pos n) else none
    ]

-- The digits of a number, which has at most as many as its value, and one.
unfoldable pub print_digits : ℕ → ℕ → List ℕ
print_digits zero n = []
print_digits (suc fuel) n =
    let front = print_digits fuel (n / 10) in
    (if ltb n 10 then [] else front) ++ ((48 + n % 10) ∷ [])

abbrev pub print_usize : ℕ → List ℕ
print_usize n = print_digits 20 n

-- `to_string` of an i64.
unfoldable pub print_i64 : ℤ → List ℕ
unfolding print_digits
print_i64 (pos n) = print_usize n
print_i64 (negsuc n) = 45 ∷ print_usize (suc n)

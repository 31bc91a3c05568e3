-- ===== src/Wire/Bencode/Decimal/Digits.antt =====
-- Decimal text, printed and parsed back.
use outpace.Prelude.{
  ℕ, zero, suc, ◌+◌, ◌-◌, ◌*◌, ◌/◌, ◌%◌, ◌^◌, ◌≤◌, ◌<◌, ◌≡◌, refl, ap, ◌∙◌, true, false, some, List,
  [], ◌∷◌, ◌++◌, All, ltb, ◌==◌, Bool-cases, inl, inr, u64_mod, arith,
}
use outpace.Prelude.Ints.{ℤ, pos, negsuc}
use outpace.Wire.Bencode.Decimal
use outpace.Wire.Bencode.Decimal.{
  split_at, utf8_from, is_utf8, parse_digits, parse_nat, parse_usize, parse_i64, print_digits,
  print_usize, print_i64, i64_limit,
}

abbrev pub IsDigit : ℕ → Type 0
IsDigit d = (48 ≤ d) × (d ≤ 57)

-- A digit or a minus sign.
abbrev pub IsSign : ℕ → Type 0
IsSign d = (45 ≤ d) × (d ≤ 57)

All-append : (P : ℕ → Type 0) (xs ys : List ℕ) → All P xs → All P ys → All P (xs ++ ys)
All-append P [] ys h k = k
All-append P (x ∷ xs) ys h k = (h.0, All-append P xs ys h.1 k)

print_digits-All : (fuel n : ℕ) → All IsDigit (print_digits fuel n)
unfolding print_digits
print_digits-All zero n = tt
print_digits-All (suc fuel) n = elim (Bool-cases (ltb n 10)) [
  | inl small ↦ rw small ((omega arith, omega arith), tt)
  | inr large ↦ rw large (
      All-append IsDigit (print_digits fuel (n / 10)) ((48 + n % 10) ∷ [])
        (print_digits-All fuel (n / 10)) ((omega arith, omega arith), tt))
]

-- A text with a first character is none that is empty.
pub record Digits (s : List ℕ) : Type 0 where
  pub first : ℕ
  pub others : List ℕ
  pub split : s ≡ first ∷ others
  pub is_digit : IsDigit first

append-Digits : (xs : List ℕ) (d : ℕ) → All IsDigit (xs ++ (d ∷ [])) → Digits (xs ++ (d ∷ []))
append-Digits [] d h = record { first = d; others = []; split = refl; is_digit = h.0 }
append-Digits (x ∷ xs) d h = record {
  first = x;
  others = xs ++ (d ∷ []);
  split = refl;
  is_digit = h.0;
}

print_digits-Digits : (fuel n : ℕ) → Digits (print_digits (suc fuel) n)
unfolding print_digits
print_digits-Digits fuel n = append-Digits _ (48 + n % 10) (print_digits-All (suc fuel) n)

parse_digits-append :
    (acc : ℕ) (xs ys : List ℕ) {a : ℕ}
    → parse_digits acc xs ≡ some a
    → parse_digits acc (xs ++ ys) ≡ parse_digits a ys
unfolding parse_digits
parse_digits-append acc [] ys e = ground arith
parse_digits-append acc (x ∷ xs) ys {a} e =
    ground (arith, parse_digits-append (acc * 10 + (x - 48)) xs ys {a = a})

last_digit : (m n : ℕ) → m * 10 + (48 + n % 10 - 48) ≡ m * 10 + n % 10
last_digit m n = omega arith

pub parse_digits-print_digits :
    (fuel n : ℕ) → n < 10 ^ fuel → parse_digits 0 (print_digits fuel n) ≡ some n
unfolding parse_digits print_digits
parse_digits-print_digits zero n h = ground arith
parse_digits-print_digits (suc fuel) n h =
    let wide : 10 ^ suc fuel ≡ 10 * 10 ^ fuel = omega arith in
    let value : n / 10 * 10 + (48 + n % 10 - 48) ≡ n = omega arith in
    elim (Bool-cases (ltb n 10)) [
      | inl small ↦ rw small (ground arith)
      | inr large ↦
          let front = parse_digits-print_digits fuel (n / 10) (omega arith) in
          rw large (
            parse_digits-append 0 (print_digits fuel (n / 10)) ((48 + n % 10) ∷ []) front
            ∙ ground arith)
    ]

pub split_at-text :
    (c : ℕ) (xs rest : List ℕ) → All IsSign xs → 57 < c → split_at c (xs ++ (c ∷ rest)) ≡ some xs
unfolding split_at
split_at-text c [] rest h big = ground arith
split_at-text c (x ∷ xs) rest h big = ground (arith, split_at-text c xs rest h.1 big)

pub is_utf8-text : (xs : List ℕ) → All IsSign xs → is_utf8 xs ≡ true
unfolding utf8_from
is_utf8-text [] h = refl
is_utf8-text (x ∷ xs) h = ground (arith, is_utf8-text xs h.1)

IsDigit-IsSign : (xs : List ℕ) → All IsDigit xs → All IsSign xs
IsDigit-IsSign [] h = tt
IsDigit-IsSign (x ∷ xs) h = ((omega (arith, h.0), omega (arith, h.0)), IsDigit-IsSign xs h.1)

-- The text of a length or an integer is signs and digits.
pub print_usize-All : (n : ℕ) → All IsSign (print_usize n)
print_usize-All n = IsDigit-IsSign (print_usize n) (print_digits-All 20 n)

pub print_i64-All : (i : ℤ) → All IsSign (print_i64 i)
unfolding print_i64
print_i64-All (pos n) = print_usize-All n
print_i64-All (negsuc n) = ((omega arith, omega arith), print_usize-All (suc n))

pub print_usize-Digits : (n : ℕ) → Digits (print_usize n)
print_usize-Digits n = print_digits-Digits 19 n

parse_nat-print_usize : (n : ℕ) → n < u64_mod → parse_nat (print_usize n) ≡ some n
parse_nat-print_usize n h =
    let d = print_usize-Digits n in
    let all = parse_digits-print_digits 20 n (omega arith) in shape (print_usize n) d all
  where
    shape : (s : List ℕ) → Digits s → parse_digits 0 s ≡ some n → parse_nat s ≡ some n
    shape [] d e = absurd (cc d.split)
    shape (x ∷ xs) d e = e

unsigned-Digits : (s : List ℕ) → Digits s → Decimal.unsigned s ≡ s
unsigned-Digits [] d = refl
unsigned-Digits (x ∷ xs) d =
    let same : x ≡ d.first = cc d.split in
    let other : (x == 43) ≡ false = ground (arith, d.is_digit) in rw other refl

usize_text :
    (s : List ℕ) (n : ℕ)
    → parse_nat (Decimal.unsigned s) ≡ some n
    → n < u64_mod
    → parse_usize s ≡ some n
unfolding parse_usize
usize_text s n e h = ground arith

pub parse_usize-print_usize : (n : ℕ) → n < u64_mod → parse_usize (print_usize n) ≡ some n
parse_usize-print_usize n h =
    let plain = unsigned-Digits (print_usize n) (print_usize-Digits n) in
    usize_text (print_usize n) n (ap parse_nat plain ∙ parse_nat-print_usize n h) h

-- An i64 in range.
abbrev pub IsI64 : ℤ → Type 0
IsI64 (pos n) = n < i64_limit
IsI64 (negsuc n) = n < i64_limit

positive_text :
    (s : List ℕ) (n : ℕ)
    → Digits s
    → parse_nat s ≡ some n
    → n < i64_limit
    → parse_i64 s ≡ some (pos n)
unfolding parse_i64
positive_text [] n d e h = absurd (cc d.split)
positive_text (x ∷ xs) n d e h =
    let same : x ≡ d.first = cc d.split in
    let plain : (x == 45) ≡ false = ground (arith, d.is_digit) in
    rw (plain, unsigned-Digits (x ∷ xs) d, e) (ground arith)

pub parse_i64-print_i64 : (i : ℤ) → IsI64 i → parse_i64 (print_i64 i) ≡ some i
unfolding print_i64
parse_i64-print_i64 (pos n) h =
    positive_text (print_usize n) n (print_usize-Digits n) (parse_nat-print_usize n (omega arith)) h
parse_i64-print_i64 (negsuc n) h =
    negative_text (print_usize (suc n)) n (parse_nat-print_usize (suc n) (omega arith)) h
  where
    negative_text :
        (s : List ℕ) (n : ℕ)
        → parse_nat s ≡ some (suc n)
        → n < i64_limit
        → parse_i64 (45 ∷ s) ≡ some (negsuc n)
    negative_text s n e k = unfold parse_i64 in rw e (ground arith)

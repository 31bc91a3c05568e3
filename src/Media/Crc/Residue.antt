-- ===== src/Media/Crc/Residue.antt =====
-- crates/ace-media/src/mpegts.rs: the checksum of a section that ends in its own checksum is zero, by
-- the laws of the exclusive or of binary digits.
use Prim.Native.Nat.{bit_xor, bit_xor-bitwise, differ, digits}
use outpace.Prelude.{
  ℕ, zero, suc, ◌+◌, ◌*◌, ◌/◌, ◌%◌, ◌^◌, ◌≤◌, ◌<◌, ◌≡◌, refl, ap, ◌∙◌, List, [], ◌∷◌, ◌++◌, ltb,
  Bool-cases, inl, inr, arith,
}
use outpace.Prelude.Bytes.{u32_to_be_bytes}
use outpace.Media.Crc

abbrev xor_digits : ℕ → ℕ → ℕ → ℕ
xor_digits n a b = digits (λ b. b) differ n a b

-- Fuel above the first number changes nothing.
enough_digits : (n m a b : ℕ) → a ≤ n → a ≤ m → xor_digits n a b ≡ xor_digits m a b
enough_digits zero zero a b p q = refl
enough_digits zero (suc m) zero b p q = refl
enough_digits zero (suc m) (suc a) b p q = absurd (omega arith)
enough_digits (suc n) zero zero b p q = refl
enough_digits (suc n) zero (suc a) b p q = absurd (omega arith)
enough_digits (suc n) (suc m) zero b p q = refl
enough_digits (suc n) (suc m) (suc a) b p q =
    omega (arith, enough_digits n m (suc a / 2) (b / 2) (omega arith) (omega arith))

xor_nothing : (b : ℕ) → bit_xor 0 b ≡ b
xor_nothing b = bit_xor-bitwise 0 b

lowest_digit : (a b : ℕ) → bit_xor a b ≡ bit_xor (a / 2) (b / 2) * 2 + differ (a % 2) (b % 2)
lowest_digit zero b = omega (arith, xor_nothing b, xor_nothing (b / 2))
lowest_digit (suc a) b = omega (
  arith,
  bit_xor-bitwise (suc a) b,
  bit_xor-bitwise (suc a / 2) (b / 2),
  enough_digits a (suc a / 2) (suc a / 2) (b / 2) (omega arith) (omega arith),
)

differ-zero : (x : ℕ) → differ x 0 ≡ x
differ-zero zero = refl
differ-zero (suc x) = refl

differ_self : (x : ℕ) → differ x x ≡ 0
differ_self zero = refl
differ_self (suc x) = differ_self x

differ-le : (x y : ℕ) → x < 2 → y < 2 → differ x y < 2
differ-le zero y p q = q
differ-le (suc x) zero p q = p
differ-le (suc x) (suc y) p q = omega (arith, differ-le x y (omega arith) (omega arith))

xor-self_fuel : (n a : ℕ) → a ≤ n → bit_xor a a ≡ 0
xor-self_fuel n zero h = xor_nothing 0
xor-self_fuel zero (suc a) h = absurd (omega arith)
xor-self_fuel (suc n) (suc a) h = omega (
  arith,
  lowest_digit (suc a) (suc a),
  xor-self_fuel n (suc a / 2) (omega arith),
  differ_self (suc a % 2),
)

xor_self : (a : ℕ) → bit_xor a a ≡ 0
xor_self a = xor-self_fuel a a (omega arith)

-- The low digits stay where the second number has none.
low_1 : (a b : ℕ) → bit_xor a (b * 2) ≡ bit_xor (a / 2) b * 2 + a % 2
low_1 a b =
    let half : b * 2 / 2 ≡ b = omega arith in
    let even : b * 2 % 2 ≡ 0 = omega arith in
    lowest_digit a (b * 2) ∙ rw (half, even, differ-zero (a % 2)) refl

low_2 : (a b : ℕ) → bit_xor a (b * 4) ≡ bit_xor (a / 4) b * 4 + a % 4
low_2 a b =
    let twice : b * 4 ≡ b * 2 * 2 = omega arith in
    let fold : a / 2 / 2 ≡ a / 4 = omega arith in
    let deep : bit_xor (a / 2) (b * 2) ≡ bit_xor (a / 4) b * 2 + a / 2 % 2 =
      low_1 (a / 2) b ∙ ap (λ t. bit_xor t b * 2 + a / 2 % 2) fold in
    ap (bit_xor a) twice ∙ omega (arith, low_1 a (b * 2), deep)

low_4 : (a b : ℕ) → bit_xor a (b * 16) ≡ bit_xor (a / 16) b * 16 + a % 16
low_4 a b =
    let twice : b * 16 ≡ b * 4 * 4 = omega arith in
    let fold : a / 4 / 4 ≡ a / 16 = omega arith in
    let deep : bit_xor (a / 4) (b * 4) ≡ bit_xor (a / 16) b * 4 + a / 4 % 4 =
      low_2 (a / 4) b ∙ ap (λ t. bit_xor t b * 4 + a / 4 % 4) fold in
    ap (bit_xor a) twice ∙ omega (arith, low_2 a (b * 4), deep)

low_8 : (a b : ℕ) → bit_xor a (b * 256) ≡ bit_xor (a / 256) b * 256 + a % 256
low_8 a b =
    let twice : b * 256 ≡ b * 16 * 16 = omega arith in
    let fold : a / 16 / 16 ≡ a / 256 = omega arith in
    let deep : bit_xor (a / 16) (b * 16) ≡ bit_xor (a / 256) b * 16 + a / 16 % 16 =
      low_4 (a / 16) b ∙ ap (λ t. bit_xor t b * 16 + a / 16 % 16) fold in
    ap (bit_xor a) twice ∙ omega (arith, low_4 a (b * 16), deep)

low_16 : (a b : ℕ) → bit_xor a (b * 0x10000) ≡ bit_xor (a / 0x10000) b * 0x10000 + a % 0x10000
low_16 a b =
    let twice : b * 0x10000 ≡ b * 256 * 256 = omega arith in
    let fold : a / 256 / 256 ≡ a / 0x10000 = omega arith in
    let deep : bit_xor (a / 256) (b * 256) ≡ bit_xor (a / 0x10000) b * 256 + a / 256 % 256 =
      low_8 (a / 256) b ∙ ap (λ t. bit_xor t b * 256 + a / 256 % 256) fold in
    ap (bit_xor a) twice ∙ omega (arith, low_8 a (b * 256), deep)

low_24 :
    (a b : ℕ) → bit_xor a (b * 0x1000000) ≡ bit_xor (a / 0x1000000) b * 0x1000000 + a % 0x1000000
low_24 a b =
    let twice : b * 0x1000000 ≡ b * 0x10000 * 256 = omega arith in
    let fold : a / 256 / 0x10000 ≡ a / 0x1000000 = omega arith in
    let deep : bit_xor (a / 256) (b * 0x10000)
        ≡ bit_xor (a / 0x1000000) b * 0x10000 + a / 256 % 0x10000 =
      low_16 (a / 256) b ∙ ap (λ t. bit_xor t b * 0x10000 + a / 256 % 0x10000) fold in
    ap (bit_xor a) twice ∙ omega (arith, low_8 a (b * 0x10000), deep)

abbrev two_to : ℕ → ℕ
two_to zero = 1
two_to (suc k) = two_to k * 2

xor-lt : (k a b : ℕ) → a < two_to k → b < two_to k → bit_xor a b < two_to k
xor-lt zero a b p q = let none : a ≡ 0 = omega arith in rw none (omega (arith, xor_nothing b))
xor-lt (suc k) a b p q = omega (
  arith,
  lowest_digit a b,
  xor-lt k (a / 2) (b / 2) (omega arith) (omega arith),
  differ-le (a % 2) (b % 2) (omega arith) (omega arith),
)

crc_bit-lt : (crc : ℕ) → Crc.crc_bit crc < 2 ^ 32
unfolding Crc.crc_bit
crc_bit-lt crc = elim (Bool-cases (ltb crc 0x80000000)) [
  | inl e ↦ rw e (omega arith)
  | inr e ↦ rw e (xor-lt 32 (crc * 2 % 2 ^ 32) 0x04C11DB7 (omega arith) (omega arith))
]

crc_from-lt : (bytes : List ℕ) (crc : ℕ) → crc < 2 ^ 32 → Crc.crc_from crc bytes < 2 ^ 32
unfolding Crc.crc_from Crc.crc_byte Crc.crc_bits
crc_from-lt [] crc h = h
crc_from-lt (byte ∷ bytes) crc h = crc_from-lt bytes _ (crc_bit-lt _)

two_to-pos : (n : ℕ) → 0 < two_to n
two_to-pos zero = omega arith
two_to-pos (suc n) = omega (arith, two_to-pos n)

-- The first byte of a checksum shifts it by that byte.
shift_bit : (x : ℕ) → x < 0x80000000 → Crc.crc_bit x ≡ x * 2
unfolding Crc.crc_bit
shift_bit x h = ground arith

shift_bits : (n x : ℕ) → x * two_to n < 0x100000000 → Crc.crc_bits n x ≡ x * two_to n
unfolding Crc.crc_bits
shift_bits zero x h = omega arith
shift_bits (suc n) x h =
    let some_power : 0 < two_to n = two_to-pos n in
    let small : x < 0x80000000 = grind arith in
    ap (Crc.crc_bits n) (shift_bit x small) ∙ (shift_bits n (x * 2) (omega arith) ∙ omega arith)

own_byte : (crc : ℕ) → crc < 2 ^ 32 → Crc.crc_byte crc (crc / 0x1000000) ≡ crc % 0x1000000 * 256
unfolding Crc.crc_byte
own_byte crc h =
    let low : bit_xor crc (crc / 0x1000000 * 0x1000000) ≡ crc % 0x1000000 =
      omega (arith, low_24 crc (crc / 0x1000000), xor_self (crc / 0x1000000)) in
    ap (Crc.crc_bits 8) low ∙ shift_bits 8 (crc % 0x1000000) (omega arith)

next_byte :
    (crc byte : ℕ)
    → crc < 2 ^ 32
    → byte ≡ crc / 0x1000000
    → Crc.crc_byte crc byte ≡ crc % 0x1000000 * 256
next_byte crc byte h e = ap (Crc.crc_byte crc) e ∙ own_byte crc h

own_bytes : (crc : ℕ) → crc < 2 ^ 32 → Crc.crc_from crc (u32_to_be_bytes crc) ≡ 0
unfolding Crc.crc_from
own_bytes crc h =
    let one = next_byte crc (crc / 0x1000000 % 256) h (omega arith) in
    let crc1 : ℕ = crc % 0x1000000 * 256 in
    let two = next_byte crc1 (crc / 0x10000 % 256) (omega arith) (omega arith) in
    let crc2 : ℕ = crc1 % 0x1000000 * 256 in
    let three = next_byte crc2 (crc / 0x100 % 256) (omega arith) (omega arith) in
    let crc3 : ℕ = crc2 % 0x1000000 * 256 in
    let four = next_byte crc3 (crc % 256) (omega arith) (omega arith) in
    rw (one, two, three, four) (omega arith)

crc_from-append :
    (crc : ℕ) (xs ys : List ℕ) → Crc.crc_from crc (xs ++ ys) ≡ Crc.crc_from (Crc.crc_from crc xs) ys
unfolding Crc.crc_from
crc_from-append crc [] ys = refl
crc_from-append crc (x ∷ xs) ys = crc_from-append (Crc.crc_byte crc x) xs ys

pub mpeg_crc32-residue :
    (bytes : List ℕ) → Crc.mpeg_crc32 (bytes ++ u32_to_be_bytes (Crc.mpeg_crc32 bytes)) ≡ 0
unfolding Crc.mpeg_crc32
mpeg_crc32-residue bytes =
    crc_from-append 0xFFFFFFFF bytes (u32_to_be_bytes (Crc.crc_from 0xFFFFFFFF bytes))
    ∙ own_bytes (Crc.crc_from 0xFFFFFFFF bytes) (crc_from-lt bytes 0xFFFFFFFF (omega arith))

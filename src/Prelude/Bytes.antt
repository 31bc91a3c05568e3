-- ===== src/Prelude/Bytes.antt =====
-- Bytes as numbers below 256, and the big-endian integers of the wire: `to_be_bytes` and
-- `from_be_bytes` of Rust's u16 and u32.
use Prim.Native.Nat.{ℕ, ◌+◌, ◌*◌, ◌/◌, ◌%◌, ◌^◌, ◌<◌}
use mathlib.Core.Path.{◌≡◌}
use mathlib.Core.List.{List, [], ◌∷◌, ◌++◌}
use outpace.Prelude.Lists.{drop}
use native.Mathlib.Omega.{arith}

abbrev pub IsByte : ℕ → Type 0
IsByte b = b < 256

abbrev pub IsU16 : ℕ → Type 0
IsU16 n = n < 2 ^ 16

abbrev pub IsU32 : ℕ → Type 0
IsU32 n = n < 2 ^ 32

abbrev pub u32_to_be_bytes : ℕ → List ℕ
u32_to_be_bytes n = (n / 0x1000000 % 256) ∷ (n / 0x10000 % 256) ∷ (n / 0x100 % 256) ∷ (n % 256) ∷ []

abbrev pub u32_from_be_bytes : ℕ → ℕ → ℕ → ℕ → ℕ
u32_from_be_bytes a b c d = a * 0x1000000 + b * 0x10000 + c * 0x100 + d

abbrev pub u16_to_be_bytes : ℕ → List ℕ
u16_to_be_bytes n = (n / 0x100 % 256) ∷ (n % 256) ∷ []

abbrev pub u16_from_be_bytes : ℕ → ℕ → ℕ
u16_from_be_bytes a b = a * 0x100 + b

pub u32_round_trip :
    (n : ℕ)
    → IsU32 n
    → u32_from_be_bytes (n / 0x1000000 % 256) (n / 0x10000 % 256) (n / 0x100 % 256) (n % 256) ≡ n
u32_round_trip n h = omega arith

pub u16_round_trip : (n : ℕ) → IsU16 n → u16_from_be_bytes (n / 0x100 % 256) (n % 256) ≡ n
u16_round_trip n h = omega arith

-- The four digits of a number read from four bytes are those bytes.
pub u32_digits :
    (a b c d : ℕ)
    → IsByte a
    → IsByte b
    → IsByte c
    → IsByte d
    → let n = u32_from_be_bytes a b c d in
      (n / 0x1000000 % 256 ≡ a) × (n / 0x10000 % 256 ≡ b) × (n / 0x100 % 256 ≡ c) × (n % 256 ≡ d)
u32_digits a b c d ha hb hc hd = omega arith

abbrev pub IsU64 : ℕ → Type 0
IsU64 n = n < 2 ^ 64

abbrev pub u64_to_be_bytes : ℕ → List ℕ
u64_to_be_bytes n =
    u32_to_be_bytes (n / 0x100000000 % 0x100000000) ++ u32_to_be_bytes (n % 0x100000000)

-- `u16::from_be_bytes`, `u32::from_be_bytes` and `u64::from_be_bytes` of the bytes from an offset on,
-- behind the test of the length.
abbrev first_u16 : List ℕ → ℕ
first_u16 (a ∷ b ∷ _) = u16_from_be_bytes a b
first_u16 _ = 0

abbrev first_u32 : List ℕ → ℕ
first_u32 (a ∷ b ∷ c ∷ d ∷ _) = u32_from_be_bytes a b c d
first_u32 _ = 0

abbrev pub u16_at : List ℕ → ℕ → ℕ
u16_at buf i = first_u16 (drop i buf)

abbrev pub u32_at : List ℕ → ℕ → ℕ
u32_at buf i = first_u32 (drop i buf)

abbrev pub u64_at : List ℕ → ℕ → ℕ
u64_at buf i = u32_at buf i * 0x100000000 + u32_at buf (i + 4)

pub u64_round_trip :
    (n : ℕ) → IsU64 n → (n / 0x100000000 % 0x100000000) * 0x100000000 + n % 0x100000000 ≡ n
u64_round_trip n h = omega arith

pub u64_digits : (n : ℕ) → IsU64 n → u64_at (u64_to_be_bytes n) 0 ≡ n
u64_digits n h =
    let high = u32_round_trip (n / 0x100000000 % 0x100000000) (omega arith) in
    let low = u32_round_trip (n % 0x100000000) (omega arith) in rw (high, low) (omega arith)

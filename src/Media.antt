-- ===== src/Media.antt =====
-- crates/ace-media/src/mpegts.rs: what its parts share of an MPEG transport stream, which is a
-- sequence of packets of 188 bytes that begin with the byte 0x47.
pub mod Resync
pub mod Packet
pub mod Psi
pub mod Pes
pub mod Clock
pub mod Sync
pub mod Crc
pub mod Sdt
pub mod Title
pub mod Access
pub mod Inserts
pub mod Gate
use outpace.Prelude.{
  ◌/◌, ◌%◌, Bool, true, false, Option, none, some, get_elem?, ℕ, zero, suc, ◌+◌, ◌-◌, ◌<◌, ◌≡◌,
  refl, ap, ◌==◌, if◌then◌else◌, List, [], ◌∷◌, ◌++◌, length, take, drop, drop-drop, arith,
}

abbrev pub ts_sync : ℕ
ts_sync = 0x47

abbrev pub ts_packet_len : ℕ
ts_packet_len = 188

abbrev head_byte : List ℕ → ℕ
head_byte [] = 0
head_byte (b ∷ bs) = b

-- `buf[i]`, behind the test of the length.
abbrev pub byte_at : List ℕ → ℕ → ℕ
byte_at buf i = head_byte (drop i buf)

-- `buf.get(i)`.
abbrev pub get : List ℕ → ℕ → Option ℕ
get = get_elem?

-- `b & mask != 0` for a mask of one bit.
abbrev pub has_bit : (mask b : ℕ) → Bool
has_bit mask b = b / mask % 2 == 1

-- `?` and `then_some` on options.
infixl 5 ◌>>=◌
abbrev pub ◌>>=◌ {ℓ κ} : {A : Type ℓ} {B : Type κ} → Option A → (A → Option B) → Option B
none >>= f = none
some a >>= f = f a

abbrev pub then_some {ℓ} : {A : Type ℓ} → Bool → A → Option A
then_some true a = some a
then_some false a = none

-- `std::ops::Range<usize>`.
pub record Range : Type 0 where
  pub start : ℕ
  pub end : ℕ

-- The packet at `i` joins the last range where that ends at `i`, and opens a range elsewhere.
unfoldable pub select : ℕ → List Range → List Range
select i [] = record { start = i; end = i + ts_packet_len } ∷ []
select i (r ∷ []) =
    if r.end == i
    then record r { end = r.end + ts_packet_len } ∷ []
    else r ∷ record { start = i; end = i + ts_packet_len } ∷ []
select i (r ∷ s ∷ rs) = r ∷ select i (s ∷ rs)

-- `buf[range]` for one range after another.
unfoldable pub slices : List ℕ → List Range → List ℕ
slices buf [] = []
slices buf (r ∷ rs) = take (r.end - r.start) (drop r.start buf) ++ slices buf rs

pub byte_at-append : (xs ys : List ℕ) (i : ℕ) → i < length xs → byte_at (xs ++ ys) i ≡ byte_at xs i
byte_at-append [] ys i h = absurd (omega arith)
byte_at-append (x ∷ xs) ys zero h = refl
byte_at-append (x ∷ xs) ys (suc i) h = byte_at-append xs ys i (omega arith)

pub byte_at-drop : (n i : ℕ) (xs : List ℕ) → byte_at (drop n xs) i ≡ byte_at xs (n + i)
byte_at-drop n i xs = ap head_byte (drop-drop i n xs)

-- ===== src/Media/Sync/Offset.antt =====
-- crates/ace-media/src/mpegts.rs: find_sync_offset and is_aligned against the positions of the sync byte.
use outpace.Prelude.{
  ℕ, zero, suc, ◌+◌, ◌*◌, ◌≤◌, ◌<◌, ◌≡◌, refl, subst, true, Option, none, some, List, length, ltb,
  Bool-cases, inl, inr, arith,
}
use native.Mathlib.Decide.{dec_lt}
use outpace.Media.{byte_at}
use outpace.Media.Sync

-- Every packet start from `pos` on that is among the first `checks` and inside the buffer is synced.
abbrev pub Synced : (checks : ℕ) → List ℕ → (pos : ℕ) → Type 0
Synced checks buf pos =
    (k : ℕ) → k < checks → pos + k * 188 < length buf → byte_at buf (pos + k * 188) ≡ 0x47

pub probe-Synced :
    (checks : ℕ) (buf : List ℕ) (pos : ℕ) → Sync.probe checks buf pos ≡ true → Synced checks buf pos
unfolding Sync.probe
probe-Synced zero buf pos e k h l = absurd (omega arith)
probe-Synced (suc checks) buf pos e zero h l =
    subst (λ m. byte_at buf m ≡ 0x47) {x = pos} (omega arith) (ground (arith, e, l))
probe-Synced (suc checks) buf pos e (suc k) h l =
    subst (λ m. byte_at buf m ≡ 0x47) {x = pos + 188 + k * 188} (omega arith)
      (probe-Synced checks buf (pos + 188) (ground (arith, e, l)) k (omega arith) (omega arith))

pub Synced-probe :
    (checks : ℕ) (buf : List ℕ) (pos : ℕ) → Synced checks buf pos → Sync.probe checks buf pos ≡ true
unfolding Sync.probe
Synced-probe zero buf pos s = refl
Synced-probe (suc checks) buf pos s = elim (Bool-cases (ltb pos (length buf))) [
  | inr e ↦ rw e refl
  | inl e ↦
      let here : byte_at buf pos ≡ 0x47 =
        subst (λ m. byte_at buf m ≡ 0x47) {x = pos + 0 * 188} (omega arith)
          (s 0 (omega arith) (ground arith)) in
      let later : Sync.probe checks buf (pos + 188) ≡ true =
        Synced-probe checks buf (pos + 188) (λ k h l.
          subst (λ m. byte_at buf m ≡ 0x47) {x = pos + suc k * 188} (omega arith)
            (s (suc k) (omega arith) (omega arith))) in
      ground (arith, here, later, e)
]

-- The answer of the search: the first offset that is synced, or that there is none.
pub data Found (buf : List ℕ) (from : ℕ) : Option ℕ → Type 0 where
  at :
      (off : ℕ)
      → from ≤ off
      → off < 188
      → off < length buf
      → Synced 4 buf off
      → ((o : ℕ) → from ≤ o → o < off → ¬ (Synced 4 buf o))
      → Found buf from (some off)
  nowhere :
      ((o : ℕ) → from ≤ o → o < 188 → o < length buf → ¬ (Synced 4 buf o)) → Found buf from none

Found-earlier :
    (buf : List ℕ) (off : ℕ) (r : Option ℕ)
    → ¬ (Synced 4 buf off)
    → Found buf (suc off) r
    → Found buf off r
Found-earlier buf off (some o) u (Found.at _ p q r s first) =
    Found.at o (omega arith) q r s (λ k low high. elim (dec_lt off k) [
      | yes l ↦ first k l high
      | no l ↦ λ y. u (subst (Synced 4 buf) (omega arith) y)
    ])
Found-earlier buf off none u (Found.nowhere no_later) = Found.nowhere (λ k low high r.
    elim (dec_lt off k) [
      | yes l ↦ no_later k l high r
      | no l ↦ λ y. u (subst (Synced 4 buf) (omega arith) y)
    ])

try_offsets-Found :
    (turns : ℕ) (buf : List ℕ) (off : ℕ)
    → off + turns ≡ 188
    → Found buf off (Sync.try_offsets turns buf off)
unfolding Sync.try_offsets
try_offsets-Found zero buf off e = Found.nowhere (λ o p q r. absurd (omega arith))
try_offsets-Found (suc turns) buf off e = elim (Bool-cases (ltb off (length buf))) [
  | inr l ↦ rw l (Found.nowhere (λ o p q r. absurd (ground arith)))
  | inl l ↦ elim (Bool-cases (Sync.probe 4 buf off)) [
    | inl s ↦
        rw (l, s)
          (Found.at off (omega arith) (omega arith) (ground arith) (probe-Synced 4 buf off s)
            (λ o p q. absurd (omega arith)))
    | inr s ↦
        let unsynced : ¬ (Synced 4 buf off) = λ y. cc (s, Synced-probe 4 buf off y) in
        rw (l, s)
          (Found-earlier buf off _ unsynced (try_offsets-Found turns buf (suc off) (omega arith)))
  ]
]

-- find_sync_offset gives the smallest offset below 188 at which the buffer is synced for up to four
-- packets, and gives none exactly where there is no such offset inside the buffer.
pub find_sync_offset-Found : (buf : List ℕ) → Found buf 0 (Sync.find_sync_offset buf)
unfolding Sync.find_sync_offset
find_sync_offset-Found buf = try_offsets-Found 188 buf 0 refl

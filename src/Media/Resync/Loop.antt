-- ===== src/Media/Resync/Loop.antt =====
-- crates/ace-media/src/mpegts.rs: the loops of TsResync.push_report, and the rule for its invariants.
use outpace.Prelude.{
  ℕ, zero, suc, ◌+◌, ◌≤◌, ◌<◌, ◌≡◌, subst, true, false, not, ◌&&◌, List, length, ltb, leb,
  Bool-cases, inl, inr, arith,
}
use native.Mathlib.Decide.{dec_lt}
use outpace.Media.Resync
use outpace.Media.Resync.{Scan}
use outpace.Media.Resync.Turns.{Cut, Progress}

-- The cut goes on over each byte that the scan passes.
pub reach :
    (buf : List ℕ) (bytes : List ℕ) (fuel j k : ℕ)
    → j ≤ k
    → k ≤ Resync.scan_forward fuel buf j
    → Cut buf j bytes
    → Cut buf k bytes
unfolding Resync.scan_forward Resync.is_pair
reach buf bytes zero j k l h c = subst (λ m. Cut buf m bytes) (omega arith) c
reach buf bytes (suc fuel) j k l h c = elim (dec_lt j k) [
  | no p ↦ subst (λ m. Cut buf m bytes) (omega arith) c
  | yes p ↦ elim (Bool-cases (ltb (j + 188) (length buf) && not (Resync.is_pair buf j))) [
    | inr e ↦ absurd (ground (arith, h, p, e))
    | inl e ↦
        reach buf bytes fuel (suc j) k (omega arith) (ground (arith, h, e))
          (Cut.skip c (λ r. ground (arith, r, e)) (ground (arith, e)))
  ]
]

pub scan_forward-le : (buf : List ℕ) (fuel j : ℕ) → j ≤ Resync.scan_forward fuel buf j
unfolding Resync.scan_forward
scan_forward-le buf zero j = omega arith
scan_forward-le buf (suc fuel) j = ground (arith, scan_forward-le buf fuel (suc j))

-- A turn that is not a packet passes a byte that is no confirmed start.
pub step-Cut :
    (buf : List ℕ) (s : Scan)
    → Progress buf s
    → Resync.starts_packet buf s ≡ false
    → s.i + 188 < length buf
    → Cut buf (suc s.i) s.bytes
unfolding Resync.starts_packet
step-Cut buf s p e h = Cut.skip p.cut (λ r. ground (arith, r, e)) h

-- Where the scan starts behind the turn's byte, and where it ends.
abbrev pub next_start : List ℕ → Scan → ℕ
next_start buf s = Resync.scan_forward (length buf) buf (suc s.i)

-- The rule for the loop: what the two kinds of turns keep leads to what the two ends make of it.
pub realign_inv :
    (buf : List ℕ) (P Q : Scan → Type 0)
    → ((s : Scan)
        → P s
        → s.i + 376 ≤ length buf
        → Resync.starts_packet buf s ≡ true
        → P (Resync.emit buf s))
    → ((s : Scan)
        → P s
        → s.i + 376 ≤ length buf
        → Resync.starts_packet buf s ≡ false
        → next_start buf s + 188 < length buf
        → P (Resync.lose (next_start buf s) s))
    → ((s : Scan)
        → P s
        → s.i + 376 ≤ length buf
        → Resync.starts_packet buf s ≡ false
        → length buf ≤ next_start buf s + 188
        → Q (record s { locked = false }))
    → ((s : Scan) → P s → length buf ≤ s.i + 375 → Q s)
    → (fuel : ℕ) (s : Scan) → length buf ≤ s.i + fuel
    → P s
    → Q (Resync.realign fuel buf s)
unfolding Resync.realign
realign_inv buf P Q put pass stop short zero s h p = short s p (omega arith)
realign_inv buf P Q put pass stop short (suc fuel) s h p =
    elim (Bool-cases (leb (s.i + (188 + 188)) (length buf))) [
      | inr e ↦ rw (e, Resync.realign) (short s p (ground arith))
      | inl e ↦
          let room : s.i + 376 ≤ length buf = ground arith in
          elim (Bool-cases (Resync.starts_packet buf s)) [
            | inl t ↦
                rw (e, t, Resync.realign)
                  (realign_inv buf P Q put pass stop short fuel (Resync.emit buf s)
                    (unfold Resync.emit in omega (arith, h)) (put s p room t))
            | inr t ↦
                let low : suc s.i ≤ next_start buf s = scan_forward-le buf (length buf) (suc s.i) in
                elim (Bool-cases (ltb (next_start buf s + 188) (length buf))) [
                  | inl u ↦
                      rw (e, t, u, Resync.realign)
                        (realign_inv buf P Q put pass stop short fuel
                          (Resync.lose (next_start buf s) s)
                          (unfold Resync.lose in omega (arith, h, low))
                          (pass s p room t (ground arith)))
                  | inr u ↦ rw (e, t, u, Resync.realign) (stop s p room t (ground arith))
                ]
          ]
    ]

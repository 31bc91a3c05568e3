-- ===== src/Media/Resync/Report.antt =====
-- crates/ace-media/src/mpegts.rs: what TsResync.push_report puts out, gives up and keeps.
use outpace.Prelude.{
  ℕ, suc, ◌+◌, ◌-◌, ◌%◌, ◌≤◌, ◌<◌, ◌≡◌, refl, true, false, List, ◌++◌, length, length-drop, drop,
  ltb, Bool-cases, inl, inr, ◌⊎◌, arith,
}
use outpace.Media
use outpace.Media.{ts_packet_len, byte_at, Range}
use outpace.Media.Resync
use outpace.Media.Resync.{TsResync, TsResyncOutput, Scan}
use outpace.Media.Resync.Loop.{realign_inv, next_start, reach, scan_forward-le, step-Cut}
use outpace.Media.Resync.Turns.{
  Cut, Ascending, Marks, lost, Progress, Cut-whole, emit-Progress, lose-Progress,
}

-- What is left behind the loop is short, or there is no confirmed start in it.
record Settled (buf : List ℕ) (s : Scan) : Type 0 where
  progress : Progress buf s
  rest :
      (length buf ≤ s.i + 375)
      ⊎ ((j : ℕ) × (length buf ≤ j + 188) × ((k : ℕ) → suc s.i ≤ k → k ≤ j → Cut buf k s.bytes))

starts-sync : (buf : List ℕ) (s : Scan) → Resync.starts_packet buf s ≡ true → byte_at buf s.i ≡ 0x47
unfolding Resync.starts_packet
starts-sync buf s e = ground (arith, e)

-- The bytes from the turn's byte to the end of the scan are no confirmed starts.
scanned :
    (buf : List ℕ) (s : Scan)
    → Progress buf s
    → s.i + 376 ≤ length buf
    → Resync.starts_packet buf s ≡ false
    → (k : ℕ) → suc s.i ≤ k
    → k ≤ next_start buf s
    → Cut buf k s.bytes
scanned buf s p room t k low high =
    reach buf s.bytes (length buf) (suc s.i) k low high (step-Cut buf s p t (omega arith))

realign-Settled :
    (buf : List ℕ) (s : Scan) → Progress buf s → Settled buf (Resync.realign (length buf) buf s)
realign-Settled buf s p =
    realign_inv buf (Progress buf) (Settled buf)
      (λ s p room t. emit-Progress buf s p (starts-sync buf s t) (omega arith))
      (λ s p room t u.
        let low : suc s.i ≤ next_start buf s = scan_forward-le buf (length buf) (suc s.i) in
        lose-Progress buf s (next_start buf s) p low (omega arith)
          (scanned buf s p room t (next_start buf s) low (omega arith)))
      (λ s p room t u. record {
        progress = record {
          cut = p.cut;
          inside = p.inside;
          chosen = p.chosen;
          ordered = p.ordered;
          marks = p.marks;
          total = p.total;
        };
        rest = inr (next_start buf s, u, scanned buf s p room t);
      })
      (λ s p h. record { progress = p; rest = inl h }) (length buf) s (omega arith) p

bound_tail-Progress :
    (buf : List ℕ) (s : Scan)
    → Settled buf s
    → Progress buf (Resync.bound_tail (length buf) s)
      × (length buf ≤ (Resync.bound_tail (length buf) s).i + 375)
unfolding Resync.bound_tail
bound_tail-Progress buf s d = elim (Bool-cases (ltb 375 (length buf - s.i))) [
  | inr e ↦ rw e (d.progress, ground arith)
  | inl e ↦
      let long : 375 < length buf - s.i = ground arith in
      rw e (elim d.rest [
        | inl h ↦ absurd (omega arith)
        | inr (j, u, c) ↦ (
          lose-Progress buf s (length buf - 375) d.progress (omega arith) (omega arith)
              (c (length buf - 375) (omega arith) (omega arith)),
          (unfold Resync.lose in omega arith),
        )
      ])
]

-- What a push makes of the kept bytes and the new ones, `input`.
pub record Realigned (input : List ℕ) (r : TsResync) (o : TsResyncOutput) : Type 0 where
  pub cut : Cut input o.consumed o.bytes
  pub inside : o.consumed ≤ length input
  pub kept : r.buf ≡ drop o.consumed input
  pub bounded : length r.buf ≤ 375
  pub whole : length o.bytes % 188 ≡ 0
  pub chosen : o.bytes ≡ Media.slices input o.selected
  pub ordered : Ascending 0 o.selected o.consumed
  pub marks : Marks 0 (length o.bytes) o.boundaries
  pub total : lost o.boundaries ≡ o.discarded_bytes

fresh-Progress : (buf : List ℕ) (r : TsResync) → Progress buf (Resync.scan_start r)
unfolding Resync.scan_start Media.slices
fresh-Progress buf r = record {
  cut = Cut.none_yet;
  inside = omega arith;
  chosen = refl;
  ordered = omega arith;
  marks = tt;
  total = refl;
}

pub push_report-Realigned :
    (r : TsResync) (bytes : List ℕ)
    → Realigned (r.buf ++ bytes) (Resync.push_report r bytes).0 (Resync.push_report r bytes).1
unfolding Resync.push_report
push_report-Realigned r bytes =
    let input = r.buf ++ bytes in
    let (p, short) =
      bound_tail-Progress input _ (realign-Settled input _ (fresh-Progress input r)) in
    record {
      cut = p.cut;
      inside = p.inside;
      kept = refl;
      bounded = omega (arith, short, length-drop _ input);
      whole = Cut-whole p.cut;
      chosen = p.chosen;
      ordered = p.ordered;
      marks = p.marks;
      total = p.total;
    }

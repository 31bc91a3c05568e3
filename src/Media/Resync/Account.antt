-- ===== src/Media/Resync/Account.antt =====
-- crates/ace-media/src/mpegts.rs: TsResync's account of the bytes that it gives up.
use outpace.Prelude.{
  ℕ, suc, ◌+◌, ◌-◌, ◌≤◌, ◌<◌, ◌≡◌, refl, true, List, ◌++◌, length, length-append, length-take,
  length-drop, take, drop, ltb, Bool-cases, inl, inr, arith,
}
use outpace.Media.Resync
use outpace.Media.Resync.{TsResync, Scan}
use outpace.Media.Resync.Loop.{realign_inv, next_start, scan_forward-le}

-- Each byte so far is put out or told as a loss.
record Told (buf : List ℕ) (s : Scan) : Type 0 where
  acquired : s.acquired_sync ≡ true
  inside : s.i ≤ length buf
  account : length s.bytes + s.discarded_bytes ≡ s.i

emit-Told :
    (buf : List ℕ) (s : Scan) → Told buf s → s.i + 376 ≤ length buf → Told buf (Resync.emit buf s)
unfolding Resync.emit
emit-Told buf s p room = record {
  acquired = refl;
  inside = omega arith;
  account = omega (
    arith,
    p.account,
    length-append s.bytes (take 188 (drop s.i buf)),
    length-take 188 (drop s.i buf),
    length-drop s.i buf,
  );
}

lose-Told :
    (buf : List ℕ) (s : Scan) (j : ℕ)
    → Told buf s
    → s.i ≤ j
    → j ≤ length buf
    → Told buf (Resync.lose j s)
unfolding Resync.lose Resync.report_loss
lose-Told buf s j p l h =
    rw p.acquired (record { acquired = refl; inside = h; account = omega (arith, p.account, l) })

realign-Told : (buf : List ℕ) (s : Scan) → Told buf s → Told buf (Resync.realign (length buf) buf s)
realign-Told buf s p =
    realign_inv buf (Told buf) (Told buf) (λ s p room t. emit-Told buf s p room)
      (λ s p room t u.
        lose-Told buf s (next_start buf s) p
          (omega (arith, scan_forward-le buf (length buf) (suc s.i))) (omega arith))
      (λ s p room t u. record { acquired = p.acquired; inside = p.inside; account = p.account })
      (λ s p h. p) (length buf) s (omega arith) p

bound_tail-Told :
    (buf : List ℕ) (s : Scan) → Told buf s → Told buf (Resync.bound_tail (length buf) s)
unfolding Resync.bound_tail
bound_tail-Told buf s p = elim (Bool-cases (ltb 375 (length buf - s.i))) [
  | inr e ↦ rw e p
  | inl e ↦
      let long : 375 < length buf - s.i = ground arith in
      rw e (lose-Told buf s (length buf - 375) p (omega arith) (omega arith))
]

pub push_report_accounts :
    (r : TsResync) (bytes : List ℕ)
    → r.acquired_sync ≡ true
    → let (r', o) = Resync.push_report r bytes in
      (length o.bytes + o.discarded_bytes + length r'.buf ≡ length r.buf + length bytes)
      × (r'.acquired_sync ≡ true)
unfolding Resync.push_report Resync.scan_start
push_report_accounts r bytes e =
    let input = r.buf ++ bytes in
    let p = bound_tail-Told input _ (
      realign-Told input (Resync.scan_start r)
        (record { acquired = e; inside = omega arith; account = refl })) in
    (omega (arith, p.account, p.inside, length-drop _ input, length-append r.buf bytes), p.acquired)

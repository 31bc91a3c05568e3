-- ===== src/Media/Resync/Lossless.antt =====
-- crates/ace-media/src/mpegts.rs: TsResync on a stream that is aligned already, however it is cut into
-- pushes, and its account of the bytes that it gives up.
use outpace.Prelude.{
  ℕ, suc, ◌+◌, ◌*◌, ◌≤◌, ◌<◌, ◌≡◌, refl, sym, ap, ◌∙◌, subst, true, List, [], ◌∷◌, ◌++◌,
  append_assoc, append-nil, length, length-append, length-take, length-drop, take, drop,
  take-append-drop, take-append_take, drop-length-append, arith,
}
use outpace.Media.{byte_at, byte_at-append, byte_at-drop}
use outpace.Media.Resync
use outpace.Media.Resync.{TsResync, TsResyncOutput, Scan}
use outpace.Media.Resync.Loop.{realign_inv}

-- The sync byte stands at every multiple of the packet length.
abbrev pub IsAligned : List ℕ → Type 0
IsAligned buf = (k : ℕ) → k * 188 < length buf → byte_at buf (k * 188) ≡ 0x47

record Passed (buf : List ℕ) (s : Scan) : Type 0 where
  turns : ℕ
  at : s.i ≡ turns * 188
  inside : s.i ≤ length buf
  bytes_are : s.bytes ≡ take s.i buf
  no_loss : s.discarded_bytes ≡ 0
  no_marks : s.boundaries ≡ []

starts :
    (buf : List ℕ) (s : Scan)
    → IsAligned buf
    → Passed buf s
    → s.i + 376 ≤ length buf
    → Resync.starts_packet buf s ≡ true
unfolding Resync.starts_packet
starts buf s a p room =
    let here : byte_at buf s.i ≡ 0x47 = rw p.at (a p.turns (omega (arith, p.at))) in
    let place : suc p.turns * 188 ≡ s.i + 188 = omega (arith, p.at) in
    let next : byte_at buf (s.i + 188) ≡ 0x47 =
      subst (λ k. byte_at buf k ≡ 0x47) place (a (suc p.turns) (omega (arith, p.at))) in
    ground (arith, here, next)

emit-Passed :
    (buf : List ℕ) (s : Scan)
    → Passed buf s
    → s.i + 376 ≤ length buf
    → Passed buf (Resync.emit buf s)
unfolding Resync.emit
emit-Passed buf s p room = record {
  turns = suc p.turns;
  at = omega (arith, p.at);
  inside = omega arith;
  bytes_are = ap (λ t. t ++ take 188 (drop s.i buf)) p.bytes_are ∙ take-append_take s.i 188 buf;
  no_loss = p.no_loss;
  no_marks = p.no_marks;
}

realign-Passed :
    (buf : List ℕ) (s : Scan)
    → IsAligned buf
    → Passed buf s
    → let s' = Resync.realign (length buf) buf s in Passed buf s' × (length buf ≤ s'.i + 375)
realign-Passed buf s a p =
    realign_inv buf (Passed buf) (λ s'. Passed buf s' × (length buf ≤ s'.i + 375))
      (λ s p room t. emit-Passed buf s p room)
      (λ s p room t u. absurd (cc (t, starts buf s a p room)))
      (λ s p room t u. absurd (cc (t, starts buf s a p room))) (λ s p h. (p, h)) (length buf) s
      (omega arith) p

-- What a push of an aligned input leaves: everything is put out or kept, and nothing is lost.
pub record Lossless (input : List ℕ) (r : TsResync) (o : TsResyncOutput) : Type 0 where
  pub turns : ℕ
  pub size : length o.bytes ≡ turns * 188
  pub content : o.bytes ++ r.buf ≡ input
  pub no_loss : o.discarded_bytes ≡ 0
  pub no_marks : o.boundaries ≡ []
  pub bounded : length r.buf ≤ 375

bound_tail_lem : (n : ℕ) (s : Scan) → n ≤ s.i + 375 → Resync.bound_tail n s ≡ s
unfolding Resync.bound_tail
bound_tail_lem n s h = ground arith

fresh-Passed : (buf : List ℕ) (r : TsResync) → Passed buf (Resync.scan_start r)
unfolding Resync.scan_start
fresh-Passed buf r = record {
  turns = 0;
  at = refl;
  inside = omega arith;
  bytes_are = refl;
  no_loss = refl;
  no_marks = refl;
}

pub push_report-Lossless :
    (r : TsResync) (bytes : List ℕ)
    → IsAligned (r.buf ++ bytes)
    → Lossless (r.buf ++ bytes) (Resync.push_report r bytes).0 (Resync.push_report r bytes).1
unfolding Resync.push_report
push_report-Lossless r bytes a =
    let input = r.buf ++ bytes in
    let (p, short) = realign-Passed input (Resync.scan_start r) a (fresh-Passed input r) in
    let done = Resync.realign (length input) input (Resync.scan_start r) in
    rw (bound_tail_lem (length input) done short) (record {
      turns = p.turns;
      size = ap length p.bytes_are ∙ omega (arith, length-take done.i input, p.inside, p.at);
      content = ap (λ t. t ++ drop done.i input) p.bytes_are ∙ take-append-drop done.i input;
      no_loss = p.no_loss;
      no_marks = p.no_marks;
      bounded = omega (arith, short, length-drop _ input);
    })

-- Pushes one after another, with all that they put out.
unfoldable pub push_all : TsResync → List (List ℕ) → TsResync × List ℕ
push_all r [] = (r, [])
push_all r (bytes ∷ rest) =
    let (r', out) = Resync.push r bytes in let (r'', outs) = push_all r' rest in (r'', out ++ outs)

abbrev pub joined : List (List ℕ) → List ℕ
joined [] = []
joined (bytes ∷ rest) = bytes ++ joined rest

IsAligned-front : (xs ys : List ℕ) → IsAligned (xs ++ ys) → IsAligned xs
IsAligned-front xs ys a k h =
    sym (byte_at-append xs ys (k * 188) h) ∙ a k (omega (arith, length-append xs ys))

IsAligned-drop : (n : ℕ) (xs : List ℕ) → IsAligned xs → IsAligned (drop (n * 188) xs)
IsAligned-drop n xs a k h =
    let place : (n + k) * 188 ≡ n * 188 + k * 188 = omega arith in
    byte_at-drop (n * 188) (k * 188) xs
    ∙ subst (λ m. byte_at xs m ≡ 0x47) place
        (a (n + k) (omega (arith, h, length-drop (n * 188) xs)))

-- The bytes that a cut puts out before the kept ones stand in front of all that follows.
rest-IsAligned :
    (input out kept later : List ℕ) (n : ℕ)
    → length out ≡ n * 188
    → out ++ kept ≡ input
    → IsAligned (input ++ later)
    → IsAligned (kept ++ later)
rest-IsAligned input out kept later n size e a =
    subst IsAligned
      (ap (λ k. drop k (input ++ later)) (sym size)
        ∙ (ap (λ t. drop (length out) (t ++ later)) (sym e)
            ∙ (ap (drop (length out)) (append_assoc out kept later)
                ∙ drop-length-append out (kept ++ later))))
      (IsAligned-drop n (input ++ later) a)

-- However an aligned stream is cut into pushes, the output is the stream, except for at most 375 bytes
-- at its end that are kept.
pub push_all-lossless :
    (r : TsResync) (inputs : List (List ℕ))
    → IsAligned (r.buf ++ joined inputs)
    → length r.buf ≤ 375
    → ((push_all r inputs).1 ++ (push_all r inputs).0.buf ≡ r.buf ++ joined inputs)
      × (length (push_all r inputs).0.buf ≤ 375)
unfolding push_all Resync.push
push_all-lossless r [] a h = (sym (append-nil r.buf), h)
push_all-lossless r (bytes ∷ rest) a h =
    let o = (Resync.push_report r bytes).1 in
    let r' = (Resync.push_report r bytes).0 in
    let input = r.buf ++ bytes in
    let whole : IsAligned (input ++ joined rest) =
      subst IsAligned (sym (append_assoc r.buf bytes (joined rest))) a in
    let p = push_report-Lossless r bytes (IsAligned-front input (joined rest) whole) in
    let (later, short) =
      push_all-lossless r' rest
        (rest-IsAligned input o.bytes r'.buf (joined rest) p.turns p.size p.content whole)
        p.bounded in
    (
      append_assoc o.bytes _ _
          ∙ (ap (λ t. o.bytes ++ t) later
              ∙ (sym (append_assoc o.bytes r'.buf (joined rest))
                  ∙ (ap (λ t. t ++ joined rest) p.content
                      ∙ append_assoc r.buf bytes (joined rest)))),
      short,
    )

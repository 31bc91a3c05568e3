-- ===== src/Media/Resync/Turns.antt =====
-- crates/ace-media/src/mpegts.rs: one turn of TsResync's loop, against a description of the output
-- that is independent of the loop.
use outpace.Prelude.{
  ℕ, suc, ◌+◌, ◌-◌, ◌%◌, ◌≤◌, ◌<◌, ◌≡◌, refl, sym, ap, ◌∙◌, ◌==◌, List, [], ◌∷◌, ◌++◌, append_assoc,
  append-nil, length, length-append, length-take, length-drop, take, drop, take-append_take,
  drop-drop, Bool-cases, inl, inr, arith,
}
use outpace.Media
use outpace.Media.{ts_packet_len, byte_at, Range}
use outpace.Media.Resync
use outpace.Media.Resync.{Scan, TsResyncBoundary}

-- A packet start at `i` that the byte one packet later confirms.
abbrev pub IsConfirmed : List ℕ → ℕ → Type 0
IsConfirmed buf i = (byte_at buf i ≡ 0x47) × (byte_at buf (i + 188) ≡ 0x47)

-- `Cut buf i bytes`: the first `i` bytes of `buf` are whole packets that begin with the sync byte,
-- which make up `bytes`, and single bytes between them, of which none is a confirmed start.
pub data Cut (buf : List ℕ) : ℕ → List ℕ → Type 0 where
  none_yet : Cut buf 0 []
  packet :
      {i : ℕ} {bytes : List ℕ}
      → Cut buf i bytes
      → byte_at buf i ≡ 0x47
      → i + 188 ≤ length buf
      → Cut buf (i + 188) (bytes ++ take 188 (drop i buf))
  skip :
      {i : ℕ} {bytes : List ℕ}
      → Cut buf i bytes
      → ¬ (IsConfirmed buf i)
      → i + 188 < length buf
      → Cut buf (suc i) bytes

-- Ranges in ascending order without overlap, from `lo` to `hi`.
abbrev pub Ascending : ℕ → List Range → ℕ → Type 0
Ascending lo [] hi = lo ≤ hi
Ascending lo (r ∷ rs) hi = (lo ≤ r.start) × (r.start < r.end) × Ascending r.end rs hi

-- Losses of at least a byte in strictly ascending order, at packet boundaries of the output.
abbrev pub Marks : ℕ → ℕ → List TsResyncBoundary → Type 0
Marks lo hi [] = Unit {0}
Marks lo hi (b ∷ bs) =
    (lo ≤ b.output_offset)
    × (b.output_offset ≤ hi)
    × (b.output_offset % 188 ≡ 0)
    × (0 < b.discarded_bytes)
    × Marks (suc b.output_offset) hi bs

abbrev pub lost : List TsResyncBoundary → ℕ
lost [] = 0
lost (b ∷ bs) = b.discarded_bytes + lost bs

pub record Progress (buf : List ℕ) (s : Scan) : Type 0 where
  pub cut : Cut buf s.i s.bytes
  pub inside : s.i ≤ length buf
  pub chosen : s.bytes ≡ Media.slices buf s.selected
  pub ordered : Ascending 0 s.selected s.i
  pub marks : Marks 0 (length s.bytes) s.boundaries
  pub total : lost s.boundaries ≡ s.discarded_bytes

length-packet : (buf : List ℕ) (i : ℕ) → i + 188 ≤ length buf → length (take 188 (drop i buf)) ≡ 188
length-packet buf i h = omega (arith, length-take 188 (drop i buf), length-drop i buf)

-- The output is whole packets.
pub Cut-whole : {buf : List ℕ} {i : ℕ} {bytes : List ℕ} → Cut buf i bytes → length bytes % 188 ≡ 0
Cut-whole none_yet = refl
Cut-whole {buf} (packet {i} {bytes} c e h) =
    omega (arith, Cut-whole c, length-append bytes (take 188 (drop i buf)), length-packet buf i h)
Cut-whole (skip c n h) = Cut-whole c

pub select-Ascending :
    (lo i : ℕ) (rs : List Range) → Ascending lo rs i → Ascending lo (Media.select i rs) (i + 188)
unfolding Media.select
select-Ascending lo i [] h = (h, omega arith, omega arith)
select-Ascending lo i (r ∷ []) h = ground (arith, h)
select-Ascending lo i (r ∷ s ∷ rs) h = (h.0, h.1, select-Ascending r.end i (s ∷ rs) h.2)

one_more :
    (buf : List ℕ) (s e : ℕ)
    → s ≤ e
    → take (e + 188 - s) (drop s buf) ≡ take (e - s) (drop s buf) ++ take 188 (drop e buf)
one_more buf s e h =
    let size : e + 188 - s ≡ (e - s) + 188 = omega arith in
    let place : s + (e - s) ≡ e = omega arith in
    ap (λ k. take k (drop s buf)) size
    ∙ (sym (take-append_take (e - s) 188 (drop s buf))
        ∙ ap (λ t. take (e - s) (drop s buf) ++ take 188 t)
            (drop-drop (e - s) s buf ∙ ap (λ k. drop k buf) place))

pub slices-select :
    (buf : List ℕ) (lo i : ℕ) (rs : List Range)
    → Ascending lo rs i
    → Media.slices buf (Media.select i rs) ≡ Media.slices buf rs ++ take 188 (drop i buf)
unfolding Media.select Media.slices
slices-select buf lo i [] h =
    let size : i + 188 - i ≡ 188 = omega arith in append-nil _ ∙ ap (λ k. take k (drop i buf)) size
slices-select buf lo i (r ∷ []) h = elim (Bool-cases (r.end == i)) [
  | inl e ↦
      let same : r.end ≡ i = ground arith in
      rw e (
        append-nil _
        ∙ (one_more buf r.start r.end (omega (arith, h))
            ∙ (ap (λ k. take (r.end - r.start) (drop r.start buf) ++ take 188 (drop k buf)) same
                ∙ ap (λ t. t ++ take 188 (drop i buf))
                    (sym (append-nil (take (r.end - r.start) (drop r.start buf)))))))
  | inr e ↦
      let size : i + 188 - i ≡ 188 = omega arith in
      rw e (
        ap (λ t. take (r.end - r.start) (drop r.start buf) ++ t)
          (append-nil _ ∙ ap (λ k. take k (drop i buf)) size)
        ∙ ap (λ t. t ++ take 188 (drop i buf))
            (sym (append-nil (take (r.end - r.start) (drop r.start buf)))))
]
slices-select buf lo i (r ∷ s ∷ rs) h =
    ap (λ t. take (r.end - r.start) (drop r.start buf) ++ t)
      (slices-select buf r.end i (s ∷ rs) h.2)
    ∙ sym (append_assoc (take (r.end - r.start) (drop r.start buf)) _ _)

note_loss-Marks :
    (lo hi count : ℕ) (bs : List TsResyncBoundary)
    → lo ≤ hi
    → hi % 188 ≡ 0
    → 0 < count
    → Marks lo hi bs
    → Marks lo hi (Resync.note_loss hi count bs)
unfolding Resync.note_loss
note_loss-Marks lo hi count [] l w c h = (l, omega arith, w, c, tt)
note_loss-Marks lo hi count (b ∷ []) l w c h = ground (arith, h)
note_loss-Marks lo hi count (b ∷ d ∷ bs) l w c h = (
  h.0,
  h.1,
  h.2,
  h.3,
  note_loss-Marks (suc b.output_offset) hi count (d ∷ bs) (omega (arith, h.4.0, h.4.1)) w c h.4,
)

lost-note_loss :
    (hi count : ℕ) (bs : List TsResyncBoundary)
    → lost (Resync.note_loss hi count bs) ≡ lost bs + count
unfolding Resync.note_loss
lost-note_loss hi count [] = omega arith
lost-note_loss hi count (b ∷ []) = ground arith
lost-note_loss hi count (b ∷ d ∷ bs) = omega (arith, lost-note_loss hi count (d ∷ bs))

Marks-mono :
    (lo hi hi' : ℕ) (bs : List TsResyncBoundary) → hi ≤ hi' → Marks lo hi bs → Marks lo hi' bs
Marks-mono lo hi hi' [] le h = tt
Marks-mono lo hi hi' (b ∷ bs) le h =
    (h.0, omega (arith, h.1), h.2, h.3, Marks-mono (suc b.output_offset) hi hi' bs le h.4)

pub Ascending-mono :
    (lo hi hi' : ℕ) (rs : List Range) → hi ≤ hi' → Ascending lo rs hi → Ascending lo rs hi'
Ascending-mono lo hi hi' [] le h = omega arith
Ascending-mono lo hi hi' (r ∷ rs) le h = (h.0, h.1, Ascending-mono r.end hi hi' rs le h.2)

pub emit-Progress :
    (buf : List ℕ) (s : Scan)
    → Progress buf s
    → byte_at buf s.i ≡ 0x47
    → s.i + 188 ≤ length buf
    → Progress buf (Resync.emit buf s)
unfolding Resync.emit
emit-Progress buf s p e h = record {
  cut = packet p.cut e h;
  inside = h;
  chosen =
      ap (λ t. t ++ take 188 (drop s.i buf)) p.chosen
      ∙ sym (slices-select buf 0 s.i s.selected p.ordered);
  ordered = select-Ascending 0 s.i s.selected p.ordered;
  marks =
      Marks-mono 0 (length s.bytes) _ s.boundaries
        (omega (arith, length-append s.bytes (take 188 (drop s.i buf)))) p.marks;
  total = p.total;
}

-- Giving up bytes keeps the progress where the cut goes on to `j`.
pub lose-Progress :
    (buf : List ℕ) (s : Scan) (j : ℕ)
    → Progress buf s
    → s.i < j
    → j ≤ length buf
    → Cut buf j s.bytes
    → Progress buf (Resync.lose j s)
unfolding Resync.lose Resync.report_loss
lose-Progress buf s j p l h c = elim (Bool-cases s.acquired_sync) [
  | inl e ↦ rw e (record {
    cut = c;
    inside = h;
    chosen = p.chosen;
    ordered = Ascending-mono 0 s.i j s.selected (omega arith) p.ordered;
    marks =
        note_loss-Marks 0 (length s.bytes) (j - s.i) s.boundaries (omega arith) (Cut-whole p.cut)
          (omega arith) p.marks;
    total =
        lost-note_loss (length s.bytes) (j - s.i) s.boundaries ∙ ap (λ k. k + (j - s.i)) p.total;
  })
  | inr e ↦ rw e (record {
    cut = c;
    inside = h;
    chosen = p.chosen;
    ordered = Ascending-mono 0 s.i j s.selected (omega arith) p.ordered;
    marks = p.marks;
    total = p.total;
  })
]

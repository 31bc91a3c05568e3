-- ===== src/Media/Resync.antt =====
-- crates/ace-media/src/mpegts.rs: TsResync, which finds the packets of a stream again behind bytes
-- that belong to none. A method on `&mut self` returns the new state beside its result.
pub mod Turns
pub mod Loop
pub mod Report
pub mod Lossless
pub mod Account
mod Tests
use outpace.Prelude.{
  ℕ, zero, suc, ◌+◌, ◌-◌, ◌==◌, ◌&&◌, ◌||◌, not, Bool, true, false, List, [], ◌∷◌, ◌++◌, length,
  take, drop, leb, ltb, if◌then◌else◌,
}
use outpace.Media.{ts_sync, ts_packet_len, byte_at, Range, select}

pub record TsResync : Type 0 where
  pub buf : List ℕ
  pub locked : Bool
  pub acquired_sync : Bool

pub record TsResyncBoundary : Type 0 where
  pub output_offset : ℕ
  pub discarded_bytes : ℕ

pub record TsResyncOutput : Type 0 where
  pub selected : List Range
  pub consumed : ℕ
  pub bytes : List ℕ
  pub discarded_bytes : ℕ
  pub boundaries : List TsResyncBoundary

abbrev pub max_unsynced_tail : ℕ
max_unsynced_tail = 375

unfoldable pub new : TsResync
new = record { buf = []; locked = false; acquired_sync = false }

-- The local variables of `push_report` beside the buffer, and the two flags that it sets.
pub record Scan : Type 0 where
  pub i : ℕ
  pub locked : Bool
  pub acquired_sync : Bool
  pub bytes : List ℕ
  pub selected : List Range
  pub discarded_bytes : ℕ
  pub boundaries : List TsResyncBoundary

-- The boundaries after a loss of `count` bytes in front of `offset`.
unfoldable pub note_loss : (offset count : ℕ) → List TsResyncBoundary → List TsResyncBoundary
note_loss offset count [] = record { output_offset = offset; discarded_bytes = count } ∷ []
note_loss offset count (b ∷ []) =
    if b.output_offset == offset
    then record b { discarded_bytes = b.discarded_bytes + count } ∷ []
    else b ∷ record { output_offset = offset; discarded_bytes = count } ∷ []
note_loss offset count (b ∷ c ∷ bs) = b ∷ note_loss offset count (c ∷ bs)

unfoldable pub report_loss : (offset count : ℕ) → Scan → Scan
report_loss offset count s = record s {
  discarded_bytes = s.discarded_bytes + count;
  boundaries = note_loss offset count s.boundaries;
}

unfoldable pub is_pair : List ℕ → ℕ → Bool
is_pair buf j = (byte_at buf j == ts_sync) && (byte_at buf (j + ts_packet_len) == ts_sync)

-- `while j + TS_PACKET_LEN < n && !(…)`; a turn passes one byte, so `n` turns are enough.
unfoldable pub scan_forward : ℕ → List ℕ → ℕ → ℕ
scan_forward zero buf j = j
scan_forward (suc fuel) buf j =
    let rest = scan_forward fuel buf (suc j) in
    if ltb (j + ts_packet_len) (length buf) && not (is_pair buf j) then rest else j

-- The packet at `i` is put out.
unfoldable pub emit : List ℕ → Scan → Scan
emit buf s = record {
  i = s.i + ts_packet_len;
  locked = true;
  acquired_sync = true;
  bytes = s.bytes ++ take ts_packet_len (drop s.i buf);
  selected = select s.i s.selected;
  discarded_bytes = s.discarded_bytes;
  boundaries = s.boundaries;
}

-- The bytes before `j` are given up.
unfoldable pub lose : ℕ → Scan → Scan
lose j s =
    let told = if s.acquired_sync then report_loss (length s.bytes) (j - s.i) s else s in
    record told { i = j; locked = false }

-- Whether the packet at `i` is put out, and the loop. A turn raises `i` or is the last one, so `n`
-- turns are enough.
unfoldable pub starts_packet : List ℕ → Scan → Bool
starts_packet buf s =
    (byte_at buf s.i == ts_sync) && (s.locked || (byte_at buf (s.i + ts_packet_len) == ts_sync))

unfoldable pub realign : ℕ → List ℕ → Scan → Scan
realign zero buf s = s
realign (suc fuel) buf s = elim (leb (s.i + (ts_packet_len + ts_packet_len)) (length buf)) [
  | false ↦ s
  | true ↦ elim (starts_packet buf s) [
    | true ↦ realign fuel buf (emit buf s)
    | false ↦
        let j = scan_forward (length buf) buf (suc s.i) in
        elim (ltb (j + ts_packet_len) (length buf)) [
          | true ↦ realign fuel buf (lose j s)
          | false ↦ record s { locked = false }
        ]
  ]
]

unfoldable pub scan_start : TsResync → Scan
scan_start r = record {
  i = 0;
  locked = r.locked;
  acquired_sync = r.acquired_sync;
  bytes = [];
  selected = [];
  discarded_bytes = 0;
  boundaries = [];
}

-- The bound on the tail that no push could confirm, of a buffer of `n` bytes.
unfoldable pub bound_tail : (n : ℕ) → Scan → Scan
bound_tail n s = if ltb max_unsynced_tail (n - s.i) then lose (n - max_unsynced_tail) s else s

unfoldable pub push_report : TsResync → List ℕ → TsResync × TsResyncOutput
push_report r bytes =
    let buf = r.buf ++ bytes in
    let s = bound_tail (length buf) (realign (length buf) buf (scan_start r)) in
    (
      record { buf = drop s.i buf; locked = s.locked; acquired_sync = s.acquired_sync },
      record {
        selected = s.selected;
        consumed = s.i;
        bytes = s.bytes;
        discarded_bytes = s.discarded_bytes;
        boundaries = s.boundaries;
      },
    )

unfoldable pub push : TsResync → List ℕ → TsResync × List ℕ
push r bytes = let (r', o) = push_report r bytes in (r', o.bytes)

-- ===== src/Wire/Reassembly/Content.antt =====
-- crates/ace-wire/src/reassembly.rs: a piece that completes from chunk-aligned blocks of a source
-- piece is that piece, in whatever order and how often the blocks come.
use outpace.Prelude.{
  mul_lt_cancel, mul_le_cancel, ℕ, ◌+◌, ◌-◌, ◌*◌, ◌/◌, ◌≤◌, ◌<◌, ◌≡◌, sym, ◌∙◌, true, List, ◌++◌,
  length, length-take, take, drop, get_elem?, get_elem?-append, get_elem?-take, get_elem?-drop,
  list_ext, arith, ltb, if◌then◌else◌, Bool-cases, inl, inr, u64_mod,
}
use outpace.Prelude.Maps.{
  insert, contains_key, contains_key-insert, length-insert, Between, insert-Between,
}
use native.Mathlib.Nat.{div-add-mod, mod-lt}
use outpace.Wire.Reassembly
use outpace.Wire.Reassembly.{Partial}
use outpace.Wire.Reassembly.Invariant.{length-copy_from_slice}
use outpace.Wire.Reassembly.Offsets.{Aligned, insert-Aligned, length-Aligned, full-contains}

-- A byte of the buffer after a write comes from the block inside the written range, and is the
-- old one elsewhere.
pub get_elem?-copy_from_slice :
    (buf block : List ℕ) (begin i : ℕ)
    → begin + length block ≤ length buf
    → get_elem? (Reassembly.copy_from_slice buf begin block) i ≡ (
        if ltb i begin
        then get_elem? buf i
        else if ltb i (begin + length block)
        then get_elem? block (i - begin)
        else get_elem? buf i)
unfolding Reassembly.copy_from_slice
get_elem?-copy_from_slice buf block begin i h = ground (
  arith,
  get_elem?-append (take begin buf) (block ++ drop (begin + length block) buf) i,
  length-take begin buf,
  get_elem?-append block (drop (begin + length block) buf) (i - length (take begin buf)),
  get_elem?-take begin buf i,
  get_elem?-drop (begin + length block) buf (i - length (take begin buf) - length block),
)

-- A block of a source piece, at its chunk's offset.
pub record IsChunk (chunk_length chunk : ℕ) (source block : List ℕ) : Type 0 where
  pub size : length block ≡ chunk_length
  pub content :
      (k : ℕ) → k < chunk_length → get_elem? block k ≡ get_elem? source (chunk * chunk_length + k)

module _ (chunk_length count : ℕ) (source : List ℕ) where
  -- The buffer agrees with the source at every offset that is recorded, and the bytes are counted
  -- by the recorded offsets.
  pub record Tracks (p : Partial) : Type 0 where
    pub size : length p.buf ≡ count * chunk_length
    pub ordered : Between 0 (count * chunk_length) p.filled_offsets
    pub aligned : Aligned chunk_length count 0 p.filled_offsets
    pub counted : p.filled ≡ length p.filled_offsets * chunk_length
    pub agrees :
        (j i : ℕ)
        → contains_key (j * chunk_length) p.filled_offsets ≡ true
        → j * chunk_length ≤ i
        → i < j * chunk_length + chunk_length
        → get_elem? p.buf i ≡ get_elem? source i

  module _ (pos : 0 < chunk_length) (small : count * chunk_length + chunk_length < u64_mod) where
    filled-le : (p : Partial) → Tracks p → p.filled ≤ count * chunk_length
    filled-le p t =
        let few : length p.filled_offsets ≤ count - 0 =
          length-Aligned chunk_length count 0 p.filled_offsets t.aligned in
        rw t.counted (grind arith)

    fill-counted :
        (p : Partial) (chunk : ℕ) (block : List ℕ)
        → length block ≡ chunk_length
        → Tracks p
        → (Reassembly.fill p (chunk * chunk_length) block).filled
          ≡ length (Reassembly.fill p (chunk * chunk_length) block).filled_offsets * chunk_length
    unfolding Reassembly.fill
    fill-counted p chunk block size t =
        elim (Bool-cases (contains_key (chunk * chunk_length) p.filled_offsets)) [
          | inl seen ↦
              rw
                (
                  length-insert 0 (count * chunk_length) (chunk * chunk_length) tt p.filled_offsets
                      t.ordered,
                  seen,
                )
                t.counted
          | inr fresh ↦
              rw
                (
                  length-insert 0 (count * chunk_length) (chunk * chunk_length) tt p.filled_offsets
                      t.ordered,
                  fresh,
                  size,
                )
                (omega (arith, filled-le p t))
        ]

    fill-agrees :
        (p : Partial) (chunk : ℕ) (block : List ℕ) (j i : ℕ)
        → chunk < count
        → IsChunk chunk_length chunk source block
        → chunk * chunk_length + length block ≤ length p.buf
        → Tracks p
        → contains_key (j * chunk_length) (insert (chunk * chunk_length) tt p.filled_offsets) ≡ true
        → j * chunk_length ≤ i
        → i < j * chunk_length + chunk_length
        → get_elem? (Reassembly.copy_from_slice p.buf (chunk * chunk_length) block) i
          ≡ get_elem? source i
    fill-agrees p chunk block j i inside is fits t known lo hi = ground (
      arith,
      get_elem?-copy_from_slice p.buf block (chunk * chunk_length) i fits,
      contains_key-insert (j * chunk_length) (chunk * chunk_length) tt p.filled_offsets,
      is.content (i - chunk * chunk_length),
      t.agrees j i,
    )

    -- A source chunk that is written keeps the correspondence.
    pub fill-Tracks :
        (p : Partial) (chunk : ℕ) (block : List ℕ)
        → chunk < count
        → IsChunk chunk_length chunk source block
        → Tracks p
        → Tracks (Reassembly.fill p (chunk * chunk_length) block)
    fill-Tracks p chunk block inside is t =
        let end_fits : chunk * chunk_length + chunk_length ≤ count * chunk_length = grind arith in
        let fits : chunk * chunk_length + length block ≤ length p.buf =
          omega (arith, t.size, is.size) in
        record {
          size =
              unfold Reassembly.fill in
              length-copy_from_slice p.buf block (chunk * chunk_length) fits ∙ t.size;
          ordered =
              unfold Reassembly.fill in
              insert-Between 0 (count * chunk_length) (chunk * chunk_length) tt p.filled_offsets
                (omega arith) (omega arith) t.ordered;
          aligned =
              unfold Reassembly.fill in
              insert-Aligned chunk_length count 0 chunk p.filled_offsets pos (omega arith) inside
                t.aligned;
          counted = fill-counted p chunk block is.size t;
          agrees = unfold Reassembly.fill in λ j i. fill-agrees p chunk block j i inside is fits t;
        }

    -- The piece counts as full only when it is the source piece.
    pub full-eq-source :
        (p : Partial)
        → length source ≡ count * chunk_length
        → Tracks p
        → count * chunk_length ≤ p.filled
        → p.buf ≡ source
    full-eq-source p whole t full = list_ext p.buf source (t.size ∙ sym whole) λ i h.
        let j = i / chunk_length in
        let lo : j * chunk_length ≤ i = omega (arith, div-add-mod i chunk_length) in
        let hi : i < j * chunk_length + chunk_length =
          omega (arith, div-add-mod i chunk_length, mod-lt i pos) in
        let inside : j < count = mul_lt_cancel j count chunk_length (omega (arith, t.size)) in
        let enough : count - 0 ≤ length p.filled_offsets = le_of_full in
        t.agrees j i
          (full-contains chunk_length count 0 j p.filled_offsets t.aligned enough (omega arith)
            inside)
          lo hi
      where
        le_of_full : count - 0 ≤ length p.filled_offsets
        le_of_full = omega (
          arith,
          mul_le_cancel count (length p.filled_offsets) chunk_length pos (omega (arith, t.counted)),
        )

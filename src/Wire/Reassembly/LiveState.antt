-- ===== src/Wire/Reassembly/LiveState.antt =====
-- crates/ace-wire/src/reassembly.rs: `add_live_chunk` on the state. Beyond the write of the block it
-- changes publication metadata only.
use outpace.Prelude.{
  ℕ, ◌*◌, ◌<◌, ◌≡◌, refl, ◌||◌, none, some, List, ltb, leb, if-elim, Option-cases, inl, inr,
  u64_mod, arith,
}
use outpace.Prelude.Maps.{lookup, insert, contains_key, lookup-Between}
use outpace.Wire.{Result, Result-cases}
use outpace.Wire.LiveAuth.{RsaCrate}
use outpace.Wire.Reassembly
use outpace.Wire.Reassembly.{PieceReassembler, Partial, Complete, LiveMetadata, LiveBlockOutcome}
use outpace.Wire.Reassembly.Invariant.{
  IsValid, window_end, with_partial-IsValid, with_complete-IsValid,
  add_block_with_contribution-IsValid, add_block_cases,
}
use outpace.Wire.Reassembly.LiveChunks.{set_live, add_live_chunk}
use outpace.Wire.Reassembly.Content.{IsChunk}
use outpace.Wire.Reassembly.Delivery.{
  HoldsSource, Geometry, with_partial-HoldsSource, with_complete-HoldsSource, add_block-HoldsSource,
}

-- A state property that a metadata update keeps: `set_live` writes back an entry that is there,
-- with other metadata.
pub set_live_keeps :
    (P : PieceReassembler → Type 0) (r : PieceReassembler) (index : ℕ) (m : LiveMetadata)
    → P r
    → ((c : Complete)
        → lookup index r.complete ≡ some c
        → P (record r { complete = insert index (record c { live = some m }) r.complete }))
    → ((p : Partial)
        → lookup index r.complete ≡ none
        → lookup index r.partial ≡ some p
        → P (record r { partial = insert index (record p { live = some m }) r.partial }))
    → P (set_live r index m)
unfolding set_live
set_live_keeps P r index m keep done part = elim (Option-cases (lookup index r.complete)) [
  | inr (c, e) ↦ rw (e, set_live) (done c e)
  | inl e ↦ elim (Option-cases (lookup index r.partial)) [
    | inr (p, e') ↦ rw (e, e', set_live) (part p e e')
    | inl e' ↦ rw (e, e', set_live) keep
  ]
]

set_live-IsValid :
    {r : PieceReassembler} (index : ℕ) (m : LiveMetadata) → IsValid r → IsValid (set_live r index m)
set_live-IsValid {r} index m v =
    set_live_keeps IsValid r index m v
      (λ c e.
        with_complete-IsValid index _ v
          (lookup-Between r.next_emit (window_end r) index r.complete v.complete_keys e)
          (v.apart index c e) (v.completes index c e))
      (λ p fresh e.
        with_partial-IsValid index _ v
          (lookup-Between r.next_emit (window_end r) index r.partial v.partial_keys e) fresh
          (v.partials index p e).0 (v.partials index p e).1)

set_live-HoldsSource :
    (chunk_length count : ℕ) (source : ℕ → List ℕ) {r : PieceReassembler} (index : ℕ)
    (m : LiveMetadata)
    → HoldsSource chunk_length count source r
    → HoldsSource chunk_length count source (set_live r index m)
set_live-HoldsSource chunk_length count source {r} index m f =
    set_live_keeps (HoldsSource chunk_length count source) r index m f
      (λ c e. with_complete-HoldsSource chunk_length count source index _ f (f.completes index c e))
      (λ p fresh e.
        let t = f.partials index p e in
        with_partial-HoldsSource chunk_length count source index (record p { live = some m }) f
          (record {
            size = t.size;
            ordered = t.ordered;
            aligned = t.aligned;
            counted = t.counted;
            agrees = t.agrees;
          }))

abbrev pub Fixed : PieceReassembler → PieceReassembler → Type 0
Fixed r s = (s.next_emit ≡ r.next_emit) × (s.piece_trailer ≡ r.piece_trailer)

module _ (rsa : RsaCrate) where
  pub add_live_chunk_keeps :
      (P : PieceReassembler → Type 0) (r : PieceReassembler) (index chunk chunk_length : ℕ)
      (header block : List ℕ)
      → P r
      → P (Reassembly.add_block_with_contribution rsa r index (chunk * chunk_length) block).0
      → ((s : PieceReassembler) (m : LiveMetadata) → P s → P (set_live s index m))
      → P (add_live_chunk rsa r index chunk chunk_length header block).0
  unfolding add_live_chunk
  add_live_chunk_keeps P r index chunk chunk_length header block keep write live =
      if-elim Q (ltb index r.next_emit || contains_key index r.complete) (λ c. keep)
        λ fresh.
          if-elim Q (leb u64_mod (chunk * chunk_length)) (λ c. keep)
            λ fits.
              elim (Result-cases
                (Reassembly.add_block_with_contribution rsa r index (chunk * chunk_length)
                  block).1) [ inl (c, e) ↦ rw e (live _ _ write) | inr (x, e) ↦ rw e write ]
    where
      Q : PieceReassembler × Result LiveBlockOutcome → Type 0
      Q s = P s.0

  -- Neither a block nor a live chunk moves the cursor or changes the trailer.
  pub add_block-Fixed :
      (r : PieceReassembler) (index begin : ℕ) (block : List ℕ)
      → Fixed r (Reassembly.add_block_with_contribution rsa r index begin block).0
  add_block-Fixed r index begin block = elim (add_block_cases rsa r index begin block) [
    | inl (_, e) ↦ rw e (refl, refl)
    | inr (_, _, _, e) ↦ rw e (write r index begin block)
  ]
    where
      write :
          (r : PieceReassembler) (index begin : ℕ) (block : List ℕ)
          → Fixed r (Reassembly.write_block rsa r index begin block).0
      write r index begin block =
          unfold Reassembly.write_block Reassembly.finish_piece in ground arith

  pub add_live_chunk-Fixed :
      (r : PieceReassembler) (index chunk chunk_length : ℕ) (header block : List ℕ)
      → Fixed r (add_live_chunk rsa r index chunk chunk_length header block).0
  add_live_chunk-Fixed r index chunk chunk_length header block =
      add_live_chunk_keeps (Fixed r) r index chunk chunk_length header block (refl, refl)
        (add_block-Fixed r index (chunk * chunk_length) block)
        (λ s m w. set_live_keeps (Fixed r) s index m w (λ c e. w) (λ p f e. w))

  pub add_live_chunk-IsValid :
      {r : PieceReassembler} (index chunk chunk_length : ℕ) (header block : List ℕ)
      → IsValid r
      → IsValid (add_live_chunk rsa r index chunk chunk_length header block).0
  add_live_chunk-IsValid {r} index chunk chunk_length header block v =
      add_live_chunk_keeps IsValid r index chunk chunk_length header block v
        (add_block_with_contribution-IsValid rsa index (chunk * chunk_length) block v)
        (λ s m w. set_live-IsValid index m w)

  pub add_live_chunk-HoldsSource :
      (chunk_length count : ℕ) (source : ℕ → List ℕ) {r : PieceReassembler} (index chunk : ℕ)
      (header block : List ℕ)
      → Geometry chunk_length count source
      → HoldsSource chunk_length count source r
      → chunk < count
      → IsChunk chunk_length chunk (source index) block
      → HoldsSource chunk_length count source
          (add_live_chunk rsa r index chunk chunk_length header block).0
  add_live_chunk-HoldsSource chunk_length count source {r} index chunk header block g f inside is =
      add_live_chunk_keeps (HoldsSource chunk_length count source) r index chunk chunk_length header
        block f
        (add_block-HoldsSource chunk_length count source rsa g index chunk block f inside is)
        (λ s m w. set_live-HoldsSource chunk_length count source index m w)

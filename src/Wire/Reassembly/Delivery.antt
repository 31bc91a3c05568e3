-- ===== src/Wire/Reassembly/Delivery.antt =====
-- crates/ace-wire/src/reassembly.rs: the whole reassembler against the pieces of a source. Every
-- operation keeps the stored bytes faithful to the source.
use outpace.Prelude.{
  ℕ, ◌+◌, ◌*◌, ◌<◌, ◌≡◌, ◌∙◌, Bool, not, none, some, get_or, List, length, length-replicate,
  is_empty, arith, leb, ◌==◌, if-elim, Bool-cases, Option-cases, inl, inr, u64_mod,
}
use outpace.Prelude.Maps.{lookup, insert, remove, contains_key, lookup-insert, lookup-remove}
use outpace.Wire.{Result, Result-cases}
use outpace.Wire.LiveAuth.{RsaCrate}
use outpace.Wire.Reassembly
use outpace.Wire.Reassembly.{PieceReassembler, Partial, Complete}
use outpace.Wire.Reassembly.Invariant
use outpace.Wire.Reassembly.Invariant.{IsValid, InWindow}
use outpace.Wire.Reassembly.Content.{IsChunk, Tracks, fill-Tracks, full-eq-source}

module _ (chunk_length count : ℕ) (source : ℕ → List ℕ) where
  -- The stored bytes are those of the source pieces: exactly for a complete piece, and at the
  -- recorded offsets for a partial one.
  pub record HoldsSource (r : PieceReassembler) : Type 0 where
    pub geometry : r.piece_length ≡ count * chunk_length
    pub partials :
        (k : ℕ) (p : Partial) → lookup k r.partial ≡ some p → Tracks chunk_length count (source k) p
    pub completes : (k : ℕ) (c : Complete) → lookup k r.complete ≡ some c → c.buf ≡ source k

  fresh_partial-Tracks :
      (k piece_length : ℕ)
      → piece_length ≡ count * chunk_length
      → Tracks chunk_length count (source k) (Reassembly.fresh_partial piece_length)
  unfolding Reassembly.fresh_partial contains_key lookup
  fresh_partial-Tracks k n e = record {
    size = length-replicate n 0 ∙ e;
    ordered = tt;
    aligned = tt;
    counted = omega arith;
    agrees = λ j i known lo hi. absurd (cc known);
  }

  current-Tracks :
      (r : PieceReassembler) (k : ℕ)
      → HoldsSource r
      → Tracks chunk_length count
          (source k)
          (get_or (lookup k r.partial) (Reassembly.fresh_partial r.piece_length))
  current-Tracks r k f = elim (Option-cases (lookup k r.partial)) [
    | inl e ↦ rw e (fresh_partial-Tracks k r.piece_length f.geometry)
    | inr (p, e) ↦ rw e (f.partials k p e)
  ]

  -- What is assumed of the stream: chunks are not empty, a piece has `u64` size to spare, and every
  -- source piece is a whole number of chunks.
  pub record Geometry : Type 0 where
    pub positive : 0 < chunk_length
    pub small : count * chunk_length + chunk_length < u64_mod
    pub whole : (k : ℕ) → length (source k) ≡ count * chunk_length

  pub with_partial-HoldsSource :
      {r : PieceReassembler} (index : ℕ) (p : Partial)
      → HoldsSource r
      → Tracks chunk_length count (source index) p
      → HoldsSource (record r { partial = insert index p r.partial })
  with_partial-HoldsSource {r} index p f t = record {
    geometry = f.geometry;
    partials = λ k q e. elim (Bool-cases (index == k)) [
      | inl here ↦
          let i : index ≡ k = ground arith in
          let same : p ≡ q = ground (arith, lookup-insert k index p r.partial) in rw (← i, ← same) t
      | inr other ↦ f.partials k q (ground (arith, lookup-insert k index p r.partial))
    ];
    completes = f.completes;
  }

  pub with_complete-HoldsSource :
      {r : PieceReassembler} (index : ℕ) (c : Complete)
      → HoldsSource r
      → c.buf ≡ source index
      → HoldsSource (record r { complete = insert index c r.complete })
  with_complete-HoldsSource {r} index c f same = record {
    geometry = f.geometry;
    partials = f.partials;
    completes = λ k d e. ground (arith, lookup-insert k index c r.complete, f.completes k d);
  }

  pub discard_partial-HoldsSource :
      {r : PieceReassembler} (index : ℕ)
      → HoldsSource r
      → HoldsSource (record r { partial = remove index r.partial })
  discard_partial-HoldsSource {r} index f = record {
    geometry = f.geometry;
    partials = λ k p e. f.partials k p (ground (arith, lookup-remove index k r.partial));
    completes = f.completes;
  }

  module _ (rsa : RsaCrate) (g : Geometry) where
    finish_piece-HoldsSource :
        {r : PieceReassembler} (index : ℕ) (buf : List ℕ) (contributed : Bool)
        → HoldsSource r
        → buf ≡ source index
        → HoldsSource (Reassembly.finish_piece rsa r index buf contributed).0
    unfolding Reassembly.finish_piece
    finish_piece-HoldsSource {r} index buf contributed f same =
        elim (Result-cases (Reassembly.authenticate rsa r buf)) [
          | inl (_, e) ↦
              rw (e, Reassembly.finish_piece)
                (with_complete-HoldsSource index (record { buf = buf; live = none }) f same)
          | inr (_, e) ↦ rw (e, Reassembly.finish_piece) f
        ]

    write_block-HoldsSource :
        {r : PieceReassembler} (index chunk : ℕ) (block : List ℕ)
        → HoldsSource r
        → chunk < count
        → IsChunk chunk_length chunk (source index) block
        → HoldsSource (Reassembly.write_block rsa r index (chunk * chunk_length) block).0
    unfolding Reassembly.write_block
    write_block-HoldsSource {r} index chunk block f inside is =
        if-elim P (leb r.piece_length p.filled)
          (λ full.
            finish_piece-HoldsSource index p.buf (not (is_empty block))
              (discard_partial-HoldsSource index f)
              (full-eq-source chunk_length count (source index) g.positive g.small p (g.whole index)
                t (ground (arith, f.geometry))))
          (λ more. with_partial-HoldsSource index p f t)
      where
        P : PieceReassembler × Result Bool → Type 0
        P s = HoldsSource s.0

        p : Partial
        p =
            Reassembly.fill
              (get_or (lookup index r.partial) (Reassembly.fresh_partial r.piece_length))
              (chunk * chunk_length) block

        t : Tracks chunk_length count (source index) p
        t =
            fill-Tracks chunk_length count (source index) g.positive g.small _ chunk block inside is
              (current-Tracks r index f)

    -- A call of `add_block` with a chunk of the source keeps the stored bytes faithful to it.
    pub add_block-HoldsSource :
        {r : PieceReassembler} (index chunk : ℕ) (block : List ℕ)
        → HoldsSource r
        → chunk < count
        → IsChunk chunk_length chunk (source index) block
        → HoldsSource
            (Reassembly.add_block_with_contribution rsa r index (chunk * chunk_length) block).0
    add_block-HoldsSource {r} index chunk block f inside is =
        elim (Invariant.add_block_cases rsa r index (chunk * chunk_length) block) [
          | inl (_, e) ↦ rw e f
          | inr (_, _, _, e) ↦ rw e (write_block-HoldsSource index chunk block f inside is)
        ]

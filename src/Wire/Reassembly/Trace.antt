-- ===== src/Wire/Reassembly/Trace.antt =====
-- crates/ace-wire/src/reassembly.rs: runs of a reassembler that is fed chunks of a source, in any
-- order and with duplicates, and that discards, skips and emits at any time.
use outpace.Prelude.{
  ℕ, suc, ◌*◌, ◌-◌, ◌≤◌, ◌<◌, ◌≡◌, refl, ◌∙◌, subst, Option, none, some, List, [], ◌∷◌, ◌++◌,
  length, take, leb, if-elim, Option-cases, inl, inr, arith,
}
use outpace.Prelude.Maps.{lookup, lookup-remove, lookup-retain}
use outpace.Wire.LiveAuth.{RsaCrate}
use outpace.Wire.Reassembly
use outpace.Wire.Reassembly.{PieceReassembler, ReadyPiece, Partial, Complete}
use outpace.Wire.Reassembly.Emit.{media, take_ready_piece, skip_to}
use outpace.Wire.Reassembly.LiveChunks.{add_live_chunk}
use outpace.Wire.Reassembly.LiveState.{
  add_live_chunk-IsValid, add_live_chunk-HoldsSource, add_live_chunk-Fixed, add_block-Fixed,
}
use outpace.Wire.Reassembly.Invariant.{
  IsValid, discard_partial-IsValid, add_block_with_contribution-IsValid,
}
use outpace.Wire.Reassembly.Emission.{
  take_ready_piece_waits, take_ready_piece_moves, skip_to-IsValid, advance-IsValid,
}
use outpace.Wire.Reassembly.Content.{IsChunk}
use outpace.Wire.Reassembly.Delivery.{
  HoldsSource, Geometry, add_block-HoldsSource, discard_partial-HoldsSource,
}

abbrev pub pieces : Option ReadyPiece → List ReadyPiece
pieces none = []
pieces (some p) = p ∷ []

module _ (rsa : RsaCrate) (chunk_length count : ℕ) (source : ℕ → List ℕ) where
  -- One call on the reassembler, with the pieces that it hands out.
  pub data Step (r : PieceReassembler) : List ReadyPiece → PieceReassembler → Type 0 where
    block :
        (index chunk : ℕ) (bytes : List ℕ)
        → chunk < count
        → IsChunk chunk_length chunk (source index) bytes
        → Step r []
            (Reassembly.add_block_with_contribution rsa r index (chunk * chunk_length) bytes).0
    live :
        (index chunk : ℕ) (header bytes : List ℕ)
        → chunk < count
        → IsChunk chunk_length chunk (source index) bytes
        → Step r [] (add_live_chunk rsa r index chunk chunk_length header bytes).0
    discard : (index : ℕ) → Step r [] (Reassembly.discard_partial r index)
    skip : (piece : ℕ) → Step r [] (skip_to r piece)
    emit : Step r (pieces (take_ready_piece r).1) (take_ready_piece r).0

  pub data Run (r : PieceReassembler) : List ReadyPiece → PieceReassembler → Type 0 where
    here : Run r [] r
    next :
        {out more : List ReadyPiece} {s t : PieceReassembler}
        → Run r out s
        → Step s more t
        → Run r (out ++ more) t

  -- The pieces have strictly ascending indices from `lo` on and below `hi`, and each is the media
  -- part of the source piece of its index.
  abbrev pub IsStream : ℕ → ℕ → ℕ → List ReadyPiece → Type 0
  IsStream trailer lo hi [] = lo ≤ hi
  IsStream trailer lo hi (p ∷ ps) =
      (lo ≤ p.index)
      × (p.bytes ≡ take (length (source p.index) - trailer) (source p.index))
      × IsStream trailer (suc p.index) hi ps

  IsStream-append :
      (trailer lo mid hi : ℕ) (ps qs : List ReadyPiece)
      → IsStream trailer lo mid ps
      → IsStream trailer mid hi qs
      → IsStream trailer lo hi (ps ++ qs)
  IsStream-append trailer lo mid hi [] [] a b = omega arith
  IsStream-append trailer lo mid hi [] (q ∷ qs) a b = (omega arith, b.1, b.2)
  IsStream-append trailer lo mid hi (p ∷ ps) qs a b =
      (a.0, a.1, IsStream-append trailer (suc p.index) mid hi ps qs a.2 b)

  -- What every step keeps: the state is well formed and holds bytes of the source only, and the
  -- pieces handed out are the source's, from the old cursor to the new one.
  abbrev Good : PieceReassembler → Type 0
  Good r = IsValid r × HoldsSource chunk_length count source r

  abbrev pub Emits : PieceReassembler → List ReadyPiece → PieceReassembler → Type 0
  Emits r out s =
      Good s
      × (s.piece_trailer ≡ r.piece_trailer)
      × IsStream r.piece_trailer r.next_emit s.next_emit out

  emit-Emits :
      {r : PieceReassembler}
      → Good r
      → Emits r (pieces (take_ready_piece r).1) (take_ready_piece r).0
  emit-Emits {r} g = elim (Option-cases (lookup r.next_emit r.complete)) [
    | inl e ↦ rw (take_ready_piece_waits r e) (g, refl, omega arith)
    | inr (c, e) ↦ rw (take_ready_piece_moves g.0 e) (
      (
        advance-IsValid g.0 e,
        record {
          geometry = g.1.geometry;
          partials = g.1.partials;
          completes =
              λ k d h. g.1.completes k d (ground (arith, lookup-remove r.next_emit k r.complete));
        },
      ),
      refl,
      (omega arith, unfold media in rw (g.1.completes r.next_emit c e), omega arith),
    )
  ]

  skip_to-HoldsSource :
      {r : PieceReassembler} (piece : ℕ)
      → HoldsSource chunk_length count source r
      → HoldsSource chunk_length count source (skip_to r piece)
  unfolding skip_to
  skip_to-HoldsSource {r} piece f =
      if-elim (HoldsSource chunk_length count source) (leb piece r.next_emit) (λ c. f)
        λ ahead. record {
          geometry = f.geometry;
          partials = λ k p e.
              f.partials k p (ground (arith, lookup-retain (λ idx. leb piece idx) k r.partial));
          completes = λ k c e.
              f.completes k c (ground (arith, lookup-retain (λ idx. leb piece idx) k r.complete));
        }

  skip-Emits : {r : PieceReassembler} (piece : ℕ) → Good r → Emits r [] (skip_to r piece)
  skip-Emits {r} piece g =
      ((skip_to-IsValid piece g.0, skip_to-HoldsSource piece g.1), fixed.0, fixed.1)
    where
      fixed :
          ((skip_to r piece).piece_trailer ≡ r.piece_trailer)
          × (r.next_emit ≤ (skip_to r piece).next_emit)
      fixed = unfold skip_to in ground arith

  Step-Emits :
      {r s : PieceReassembler} {out : List ReadyPiece}
      → Geometry chunk_length count source
      → Good r
      → Step r out s
      → Emits r out s
  Step-Emits {r} geo g (block index chunk bytes inside is) =
      let (same, trailer) = add_block-Fixed rsa r index (chunk * chunk_length) bytes in
      (
        (
          add_block_with_contribution-IsValid rsa index (chunk * chunk_length) bytes g.0,
          add_block-HoldsSource chunk_length count source rsa geo index chunk bytes g.1 inside is,
        ),
        trailer,
        omega arith,
      )
  Step-Emits {r} geo g (live index chunk header bytes inside is) =
      let (same, trailer) = add_live_chunk-Fixed rsa r index chunk chunk_length header bytes in
      (
        (
          add_live_chunk-IsValid rsa index chunk chunk_length header bytes g.0,
          add_live_chunk-HoldsSource rsa chunk_length count source index chunk header bytes geo g.1
              inside is,
        ),
        trailer,
        omega arith,
      )
  Step-Emits {r} geo g (discard index) = (
    (
      discard_partial-IsValid index g.0,
      unfold Reassembly.discard_partial in
          discard_partial-HoldsSource chunk_length count source index g.1,
    ),
    unfold Reassembly.discard_partial in refl,
    unfold Reassembly.discard_partial in omega arith,
  )
  Step-Emits geo g (skip piece) = skip-Emits piece g
  Step-Emits geo g emit = emit-Emits g

  -- A new reassembler, with any trailer and window, is good.
  pub new-Good :
      (start_piece trailer ahead : ℕ)
      → Good (
          Reassembly.with_max_pieces_ahead
            (Reassembly.with_piece_trailer
              (Reassembly.new (count * chunk_length) start_piece)
              trailer)
            ahead)
  unfolding Reassembly.with_max_pieces_ahead Reassembly.with_piece_trailer Reassembly.new lookup
  new-Good start trailer ahead = (
    record {
      partial_keys = tt;
      complete_keys = tt;
      apart = λ k c e. absurd (cc e);
      partials = λ k p e. absurd (cc e);
      completes = λ k c e. absurd (cc e);
      trailer = omega arith;
    },
    record {
      geometry = refl;
      partials = λ k p e. absurd (cc e);
      completes = λ k c e. absurd (cc e);
    },
  )

  -- A run from a good state stays good, and hands out nothing but the media of source pieces, each
  -- at most once and in strictly ascending order of the indices, between the two cursors.
  pub Run-Emits :
      {r s : PieceReassembler} {out : List ReadyPiece}
      → Geometry chunk_length count source
      → Good r
      → Run r out s
      → Emits r out s
  Run-Emits geo g here = (g, refl, omega arith)
  Run-Emits {r} geo g (next {out} {more} {s} {t} run step) =
      let (gs, ts, a) = Run-Emits geo g run in
      let (gt, tt', b) = Step-Emits geo gs step in
      (
        gt,
        tt' ∙ ts,
        IsStream-append r.piece_trailer r.next_emit s.next_emit t.next_emit out more a
            (subst (λ trailer. IsStream trailer s.next_emit t.next_emit more) ts b),
      )

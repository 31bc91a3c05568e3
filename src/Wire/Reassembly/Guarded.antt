-- ===== src/Wire/Reassembly/Guarded.antt =====
-- crates/ace-wire/src/reassembly.rs: runs of any calls on a reassembler with a source key.
use outpace.Prelude.{
  ℕ, ◌-◌, ◌≡◌, refl, ◌∙◌, subst, ◌++◌, some, List, [], ◌∷◌, length, take, Option-cases, inl, inr,
  arith,
}
use outpace.Prelude.Maps.{lookup, lookup-remove}
use outpace.Wire.LiveAuth
use outpace.Wire.LiveAuth.{RsaCrate}
use outpace.Wire.Reassembly
use outpace.Wire.Reassembly.{PieceReassembler, ReadyPiece, Partial, Complete, LiveMetadata}
use outpace.Wire.Reassembly.Emit.{media, take_ready_piece, skip_to}
use outpace.Wire.Reassembly.LiveChunks.{add_live_chunk}
use outpace.Wire.Reassembly.LiveState.{
  add_live_chunk-IsValid, add_live_chunk-Fixed, add_block-Fixed,
}
use outpace.Wire.Reassembly.Invariant.{
  IsValid, add_block_with_contribution-IsValid, discard_partial-IsValid,
}
use outpace.Wire.Reassembly.Emission.{
  take_ready_piece_waits, take_ready_piece_moves, skip_to-IsValid, advance-IsValid,
}
use outpace.Wire.Reassembly.Trace.{pieces}
use outpace.Wire.Reassembly.Authentic.{
  IsSigned, IsAuthentic, add_block-IsAuthentic, add_live_chunk-IsAuthentic, skip_to-IsAuthentic,
}

module _ (rsa : RsaCrate) (key : List ℕ) where
  -- Any call at all, with the pieces that it hands out.
  pub data Step (r : PieceReassembler) : List ReadyPiece → PieceReassembler → Type 0 where
    block :
        (index begin : ℕ) (bytes : List ℕ)
        → Step r [] (Reassembly.add_block_with_contribution rsa r index begin bytes).0
    live :
        (index chunk chunk_length : ℕ) (header bytes : List ℕ)
        → Step r [] (add_live_chunk rsa r index chunk chunk_length header bytes).0
    discard : (index : ℕ) → Step r [] (Reassembly.discard_partial r index)
    skip : (piece : ℕ) → Step r [] (skip_to r piece)
    emit : Step r (pieces (take_ready_piece r).1) (take_ready_piece r).0

  pub data Run (r : PieceReassembler) : List ReadyPiece → PieceReassembler → Type 0 where
    here : Run r [] r
    next :
        {out more : List ReadyPiece} {s t : PieceReassembler}
        → Run r out s
        → Step s more t
        → Run r (out ++ more) t

  -- Each piece is the payload of bytes that the source key signed.
  abbrev pub AllSigned : ℕ → List ReadyPiece → Type 0
  AllSigned trailer [] = Unit {0}
  AllSigned trailer (p ∷ ps) =
      ((wire : List ℕ) × IsSigned rsa key trailer wire
        × (p.bytes ≡ take (length wire - trailer) wire))
      × AllSigned trailer ps

  AllSigned-append :
      (trailer : ℕ) (ps qs : List ReadyPiece)
      → AllSigned trailer ps
      → AllSigned trailer qs
      → AllSigned trailer (ps ++ qs)
  AllSigned-append trailer [] qs a b = b
  AllSigned-append trailer (p ∷ ps) qs a b = (a.0, AllSigned-append trailer ps qs a.1 b)

  abbrev pub Guarded : PieceReassembler → List ReadyPiece → PieceReassembler → Type 0
  Guarded r out s =
      (IsValid s × IsAuthentic rsa key s)
      × (s.piece_trailer ≡ r.piece_trailer)
      × AllSigned r.piece_trailer out

  emit-Guarded :
      {r : PieceReassembler}
      → IsValid r × IsAuthentic rsa key r
      → Guarded r (pieces (take_ready_piece r).1) (take_ready_piece r).0
  emit-Guarded {r} g = elim (Option-cases (lookup r.next_emit r.complete)) [
    | inl e ↦ rw (take_ready_piece_waits r e) (g, refl, tt)
    | inr (c, e) ↦
        let s = g.1.signed r.next_emit c e in
        rw (take_ready_piece_moves g.0 e) (
          (
            advance-IsValid g.0 e,
            record {
              keyed = g.1.keyed;
              signed =
                  λ k d h. g.1.signed k d (ground (arith, lookup-remove r.next_emit k r.complete));
            },
          ),
          refl,
          ((c.buf, s, unfold media in refl), tt),
        )
  ]

  Step-Guarded :
      {r s : PieceReassembler} {out : List ReadyPiece}
      → IsValid r × IsAuthentic rsa key r
      → Step r out s
      → Guarded r out s
  Step-Guarded {r} g (block index begin bytes) = (
    (
      add_block_with_contribution-IsValid rsa index begin bytes g.0,
      add_block-IsAuthentic rsa key index begin bytes g.1,
    ),
    (add_block-Fixed rsa r index begin bytes).1,
    tt,
  )
  Step-Guarded {r} g (live index chunk chunk_length header bytes) = (
    (
      add_live_chunk-IsValid rsa index chunk chunk_length header bytes g.0,
      add_live_chunk-IsAuthentic rsa key index chunk chunk_length header bytes g.1,
    ),
    (add_live_chunk-Fixed rsa r index chunk chunk_length header bytes).1,
    tt,
  )
  Step-Guarded {r} g (discard index) = (
    (
      discard_partial-IsValid index g.0,
      unfold Reassembly.discard_partial in record { keyed = g.1.keyed; signed = g.1.signed },
    ),
    unfold Reassembly.discard_partial in refl,
    tt,
  )
  Step-Guarded {r} g (skip piece) = (
    (skip_to-IsValid piece g.0, skip_to-IsAuthentic rsa key piece g.1),
    unfold skip_to in ground arith,
    tt,
  )
  Step-Guarded g emit = emit-Guarded g

  -- Whatever calls are made, with whatever bytes: a reassembler with a source key stays well formed,
  -- every complete piece it holds is signed by that key, and every piece that it hands out is the
  -- payload of a wire piece that is signed by that key.
  pub Run-Guarded :
      {r s : PieceReassembler} {out : List ReadyPiece}
      → IsValid r × IsAuthentic rsa key r
      → Run r out s
      → Guarded r out s
  Run-Guarded g here = (g, refl, tt)
  Run-Guarded {r} g (next {out} {more} {s} {t} run step) =
      let (gs, ts, a) = Run-Guarded g run in
      let (gt, tt', b) = Step-Guarded gs step in
      (
        gt,
        tt' ∙ ts,
        AllSigned-append r.piece_trailer out more a
            (subst (λ trailer. AllSigned trailer more) ts b),
      )

  -- Where the reassembler is set up with a key that parses, it is guarded from the start.
  pub with_source_pubkey-Guarded :
      (piece_length start_piece ahead sig_len : ℕ)
      → LiveAuth.signature_len_from_pubkey_der rsa key ≡ some sig_len
      → let r =
          Reassembly.with_max_pieces_ahead
            (Reassembly.with_source_pubkey rsa (Reassembly.new piece_length start_piece) key)
            ahead in
        IsValid r × IsAuthentic rsa key r
  unfolding Reassembly.with_max_pieces_ahead Reassembly.with_source_pubkey Reassembly.new
  with_source_pubkey-Guarded piece_length start_piece ahead sig_len e =
      rw (e, Reassembly.with_source_pubkey)
        (
          record {
            partial_keys = tt;
            complete_keys = tt;
            apart = λ k c f. absurd (unfold lookup in cc f);
            partials = λ k p f. absurd (unfold lookup in cc f);
            completes = λ k c f. absurd (unfold lookup in cc f);
            trailer = omega arith;
          },
          record { keyed = refl; signed = λ k c f. absurd (unfold lookup in cc f) },
        )

-- ===== src/Wire/Reassembly/Authentic.antt =====
-- crates/ace-wire/src/reassembly.rs: with a source key, unauthenticated bytes never leave, whatever
-- calls are made.
use outpace.Prelude.{
  ℕ, ◌-◌, ◌*◌, ◌≤◌, ◌≡◌, Bool, true, not, none, some, List, length, is_empty, take, drop, leb,
  if-elim, inl, inr, arith,
}
use outpace.Prelude.Maps.{lookup, lookup-insert, lookup-retain}
use outpace.Wire.{Result, ok, err, Result-cases, signature_rejected}
use outpace.Wire.LiveAuth
use outpace.Wire.LiveAuth.{RsaCrate}
use outpace.Wire.Reassembly
use outpace.Wire.Reassembly.{PieceReassembler, ReadyPiece, Partial, Complete, LiveMetadata}
use outpace.Wire.Reassembly.Emit.{skip_to}
use outpace.Wire.Reassembly.LiveChunks.{add_live_chunk}
use outpace.Wire.Reassembly.LiveState.{set_live_keeps, add_live_chunk_keeps}
use outpace.Wire.Reassembly.Invariant.{add_block_cases}

-- A call that is refused because the signature does not verify drops that piece's bytes and changes nothing else.
pub rejected-discards :
    (rsa : RsaCrate) (r : PieceReassembler) (index begin : ℕ) (block : List ℕ)
    {s : PieceReassembler}
    → Reassembly.add_block_with_contribution rsa r index begin block ≡ (s, err signature_rejected)
    → s ≡ Reassembly.discard_partial r index
unfolding Reassembly.add_block_with_contribution Reassembly.write_block Reassembly.finish_piece
    Reassembly.discard_partial
rejected-discards rsa r index begin block e = ground arith

module _ (rsa : RsaCrate) (key : List ℕ) where
  -- The wire bytes carry, behind their payload, a signature that the key accepts.
  abbrev pub IsSigned : ℕ → List ℕ → Type 0
  IsSigned trailer wire =
      (trailer ≤ length wire)
      × (LiveAuth.verify_piece rsa key (take (length wire - trailer) wire)
            (drop (length wire - trailer) wire)
          ≡ true)

  pub record IsAuthentic (r : PieceReassembler) : Type 0 where
    pub keyed : r.verify_pubkey ≡ some key
    pub signed :
        (k : ℕ) (c : Complete) → lookup k r.complete ≡ some c → IsSigned r.piece_trailer c.buf

  authenticate-IsSigned :
      (r : PieceReassembler) (buf : List ℕ)
      → r.verify_pubkey ≡ some key
      → Reassembly.authenticate rsa r buf ≡ ok tt
      → IsSigned r.piece_trailer buf
  unfolding Reassembly.authenticate LiveAuth.split_piece
  authenticate-IsSigned r buf keyed e = ground arith

  pub finish_piece-IsAuthentic :
      {r : PieceReassembler} (index : ℕ) (buf : List ℕ) (contributed : Bool)
      → IsAuthentic r
      → IsAuthentic (Reassembly.finish_piece rsa r index buf contributed).0
  finish_piece-IsAuthentic {r} index buf contributed a =
      elim (Result-cases (Reassembly.authenticate rsa r buf)) [
        | inl (_, e) ↦
            let s = authenticate-IsSigned r buf a.keyed e in
            unfold Reassembly.finish_piece in
            rw (e, Reassembly.finish_piece)
              (record {
                keyed = a.keyed;
                signed = λ k c found. ground (
                  arith,
                  lookup-insert k index (record { buf = buf; live = none }) r.complete,
                  a.signed k c,
                );
              })
        | inr (_, e) ↦ unfold Reassembly.finish_piece in rw (e, Reassembly.finish_piece) a
      ]

  pub add_block-IsAuthentic :
      {r : PieceReassembler} (index begin : ℕ) (block : List ℕ)
      → IsAuthentic r
      → IsAuthentic (Reassembly.add_block_with_contribution rsa r index begin block).0
  unfolding Reassembly.write_block
  add_block-IsAuthentic {r} index begin block a = elim (add_block_cases rsa r index begin block) [
    | inl (_, e) ↦ rw e a
    | inr (_, _, _, e) ↦ rw e (
        if-elim P (leb r.piece_length _)
          (λ full.
            finish_piece-IsAuthentic index _ (not (is_empty block))
              (record { keyed = a.keyed; signed = a.signed }))
          (λ more. record { keyed = a.keyed; signed = a.signed }))
  ]
    where
      P : PieceReassembler × Result Bool → Type 0
      P s = IsAuthentic s.0

  pub add_live_chunk-IsAuthentic :
      {r : PieceReassembler} (index chunk chunk_length : ℕ) (header block : List ℕ)
      → IsAuthentic r
      → IsAuthentic (add_live_chunk rsa r index chunk chunk_length header block).0
  add_live_chunk-IsAuthentic {r} index chunk chunk_length header block a =
      add_live_chunk_keeps rsa IsAuthentic r index chunk chunk_length header block a
        (add_block-IsAuthentic index (chunk * chunk_length) block a)
        (λ s m w.
          set_live_keeps IsAuthentic s index m w
            (λ c e. record {
              keyed = w.keyed;
              signed = λ k d found. ground (
                arith,
                lookup-insert k index (record c { live = some m }) s.complete,
                w.signed k d,
                w.signed index c,
              );
            })
            (λ p fresh e. record { keyed = w.keyed; signed = w.signed }))

  pub skip_to-IsAuthentic :
      {r : PieceReassembler} (piece : ℕ) → IsAuthentic r → IsAuthentic (skip_to r piece)
  unfolding skip_to
  skip_to-IsAuthentic {r} piece a =
      if-elim IsAuthentic (leb piece r.next_emit) (λ c. a)
        λ ahead. record {
          keyed = a.keyed;
          signed = λ k c e.
              a.signed k c (ground (arith, lookup-retain (λ idx. leb piece idx) k r.complete));
        }

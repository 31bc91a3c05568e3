-- ===== src/Wire/Reassembly/LiveChunks.antt =====
-- crates/ace-wire/src/reassembly.rs: live chunks, whose metadata decides whether a completed piece
-- may be published.
use outpace.Prelude.{
  ℕ, ◌*◌, ◌/◌, ◌%◌, true, false, ◌&&◌, ◌||◌, Option, none, some, get_or, List, length, ltb, leb,
  ◌==◌, if◌then◌else◌, list_eq, u64_mod,
}
use outpace.Prelude.Maps.{lookup, insert, contains_key}
use outpace.Wire.{Result, ok, err, invalid}
use outpace.Wire.LiveAuth.{RsaCrate}
use outpace.Wire.Reassembly.{
  PieceReassembler, LiveMetadata, LiveBlockOutcome, CompletedLivePiece, Partial, source_verified,
  unsigned_assembly_accepted, unauthenticated, add_block_with_contribution,
}

-- The metadata of a piece after one more live chunk; `prior` is its partial before the write.
unfoldable pub live_metadata :
    PieceReassembler
    → Option Partial
    → (chunk chunk_length : ℕ) (header block : List ℕ) → LiveMetadata
live_metadata r prior chunk chunk_length header block =
    let geometry =
      ltb 0 chunk_length
      && (ltb 0 r.piece_length
          && (r.piece_length % chunk_length == 0
              && (leb (r.piece_length / chunk_length) 65535
                  && (ltb chunk (r.piece_length / chunk_length)
                      && length block == chunk_length)))) in
    let metadata =
      get_or (elim prior [ none ↦ none | some p ↦ p.live ])
        (record {
          header = header;
          chunk_length = chunk_length;
          eligible = elim prior [ none ↦ true | some _ ↦ false ];
        }) in
    record metadata {
      eligible =
          metadata.eligible
          && (geometry
              && (list_eq metadata.header header && metadata.chunk_length == chunk_length));
    }

-- The metadata is stored with the piece, whichever map it is in.
unfoldable pub set_live : PieceReassembler → ℕ → LiveMetadata → PieceReassembler
set_live r index metadata = elim (lookup index r.complete) [
  | some done ↦ record r {
    complete = insert index (record done { live = some metadata }) r.complete;
  }
  | none ↦ elim (lookup index r.partial) [
    | some p ↦ record r { partial = insert index (record p { live = some metadata }) r.partial }
    | none ↦ r
  ]
]

module _ (rsa : RsaCrate) where
  unfoldable pub add_live_chunk :
      PieceReassembler
      → (index chunk chunk_length : ℕ) (header block : List ℕ)
      → PieceReassembler × Result LiveBlockOutcome
  add_live_chunk r index chunk chunk_length header block =
      if ltb index r.next_emit || contains_key index r.complete
      then (r, ok (record { contributed = false; completed = false }))
      else let metadata =
          live_metadata r (lookup index r.partial) chunk chunk_length header block in
        if leb u64_mod (chunk * chunk_length)
        then (r, err (invalid "block offset overflow"))
        else let (r', result) =
            add_block_with_contribution rsa r index (chunk * chunk_length) block in
          elim result [
            | err e ↦ (r', err e)
            | ok contributed ↦ (
              set_live r' index metadata,
              ok (record { contributed = contributed; completed = contains_key index r'.complete }),
            )
          ]

unfoldable pub completed_live_piece : PieceReassembler → ℕ → Option CompletedLivePiece
completed_live_piece r index = elim (lookup index r.complete) [
  | none ↦ none
  | some done ↦ elim done.live [
    | none ↦ none
    | some metadata ↦
        if metadata.eligible
        then some (record {
          wire = done.buf;
          header = metadata.header;
          acceptance = elim r.verify_pubkey [
            | some _ ↦ source_verified
            | none ↦ if r.piece_trailer == 0 then unsigned_assembly_accepted else unauthenticated
          ];
        })
        else none
  ]
]

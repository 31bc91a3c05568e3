-- ===== src/Wire/Reassembly.antt =====
-- crates/ace-wire/src/reassembly.rs: reassembly of chunk blocks into ordered piece bytes. Every
-- method on `&mut self` returns the new state beside its result, also where it fails.
pub mod LiveChunks
pub mod Emit
pub mod Invariant
pub mod Emission
pub mod Preview
pub mod Offsets
pub mod Content
pub mod Delivery
pub mod LiveState
pub mod Trace
pub mod Bounds
pub mod Authentic
pub mod Guarded
mod Tests
use Prim.Native.Nat.{◌≤◌}
use outpace.Prelude.{
  ℕ, zero, suc, ◌+◌, ◌-◌, ◌*◌, ◌/◌, ◌%◌, ◌<◌, min, Bool, true, false, not, ◌&&◌, ◌||◌, Option, none,
  some, get_or, List, [], ◌∷◌, ◌++◌, length, is_empty, take, drop, replicate, ltb, leb, ◌==◌,
  if◌then◌else◌, list_eq, u64_mod, u64_max, saturating_add, checked_add,
}
use outpace.Prelude.Maps.{Map, Set, lookup, insert, remove, retain, contains_key}
use outpace.Wire.{Result, ok, err, invalid, signature_rejected}
use outpace.Wire.LiveAuth
use outpace.Wire.LiveAuth.{RsaCrate}

pub record LiveMetadata : Type 0 where
  pub header : List ℕ
  pub chunk_length : ℕ
  pub eligible : Bool

pub data LiveAcceptance : Type 0 where
  source_verified unsigned_assembly_accepted unauthenticated : LiveAcceptance

pub record LiveBlockOutcome : Type 0 where
  pub contributed : Bool
  pub completed : Bool

pub record CompletedLivePiece : Type 0 where
  pub wire : List ℕ
  pub header : List ℕ
  pub acceptance : LiveAcceptance

pub record ReadyPiece : Type 0 where
  pub index : ℕ
  pub bytes : List ℕ

pub record Complete : Type 0 where
  pub buf : List ℕ
  pub live : Option LiveMetadata

pub record Partial : Type 0 where
  pub live : Option LiveMetadata
  pub buf : List ℕ
  pub filled_offsets : Set
  pub filled : ℕ

pub record PieceReassembler : Type 0 where
  pub piece_length : ℕ
  pub next_emit : ℕ
  pub piece_trailer : ℕ
  pub verify_pubkey : Option (List ℕ)
  pub max_ahead : ℕ
  pub partial : Map Partial
  pub complete : Map Complete

unfoldable pub new : (piece_length start_piece : ℕ) → PieceReassembler
new piece_length start_piece = record {
  piece_length = piece_length;
  next_emit = start_piece;
  piece_trailer = 0;
  verify_pubkey = none;
  max_ahead = u64_max;
  partial = [];
  complete = [];
}

unfoldable pub with_piece_trailer : PieceReassembler → ℕ → PieceReassembler
with_piece_trailer r sig_len = record r { piece_trailer = min sig_len r.piece_length }

unfoldable pub with_source_pubkey : RsaCrate → PieceReassembler → List ℕ → PieceReassembler
with_source_pubkey rsa r pubkey = elim (LiveAuth.signature_len_from_pubkey_der rsa pubkey) [
  | none ↦ r
  | some sig_len ↦ record r {
    piece_trailer = min sig_len r.piece_length;
    verify_pubkey = some pubkey;
  }
]

unfoldable pub with_max_pieces_ahead : PieceReassembler → ℕ → PieceReassembler
with_max_pieces_ahead r max_pieces_ahead = record r { max_ahead = max_pieces_ahead }

-- `buf[begin..begin + block.len()].copy_from_slice(block)`.
unfoldable pub copy_from_slice : List ℕ → ℕ → List ℕ → List ℕ
copy_from_slice buf begin block = take begin buf ++ (block ++ drop (begin + length block) buf)

-- The partial piece that `or_insert_with` makes.
unfoldable pub fresh_partial : ℕ → Partial
fresh_partial piece_length = record {
  live = none;
  buf = replicate piece_length 0;
  filled_offsets = [];
  filled = 0;
}

-- The write into a partial piece; an offset is counted when it is seen for the first time.
unfoldable pub fill : Partial → ℕ → List ℕ → Partial
fill p begin block = record {
  live = none;
  buf = copy_from_slice p.buf begin block;
  filled_offsets = insert begin tt p.filled_offsets;
  filled =
      if contains_key begin p.filled_offsets then p.filled else (p.filled + length block) % u64_mod;
}

module _ (rsa : RsaCrate) where
  -- The check of a full buffer; there is none without a source key.
  unfoldable pub authenticate : PieceReassembler → List ℕ → Result (Unit {0})
  authenticate r buf = elim r.verify_pubkey [
    | none ↦ ok tt
    | some pubkey ↦ elim (LiveAuth.split_piece buf r.piece_trailer) [
      | none ↦ err (invalid "live-source piece trailer split failed")
      | some (payload, sig) ↦
          if LiveAuth.verify_piece rsa pubkey payload sig then ok tt else err signature_rejected
    ]
  ]

  -- A full buffer, already out of `partial`, is complete if it is authentic, and else dropped.
  unfoldable pub finish_piece :
      PieceReassembler → ℕ → List ℕ → Bool → PieceReassembler × Result Bool
  finish_piece r index buf contributed = elim (authenticate r buf) [
    | err e ↦ (r, err e)
    | ok _ ↦ (
      record r { complete = insert index (record { buf = buf; live = none }) r.complete },
      ok contributed,
    )
  ]

  unfoldable pub write_block : PieceReassembler → ℕ → ℕ → List ℕ → PieceReassembler × Result Bool
  write_block r index begin block =
      let p = fill (get_or (lookup index r.partial) (fresh_partial r.piece_length)) begin block in
      let contributed = not (is_empty block) in
      if leb r.piece_length p.filled
      then finish_piece (record r { partial = remove index r.partial }) index p.buf contributed
      else (record r { partial = insert index p r.partial }, ok contributed)

  unfoldable pub add_block_with_contribution :
      PieceReassembler → ℕ → ℕ → List ℕ → PieceReassembler × Result Bool
  add_block_with_contribution r index begin block =
      if ltb index r.next_emit || contains_key index r.complete
      then (r, ok false)
      else if leb (saturating_add r.next_emit r.max_ahead) index
      then (r, err (invalid "piece index too far ahead of emit cursor"))
      else elim (checked_add begin (length block)) [
        | none ↦ (r, err (invalid "block offset overflow"))
        | some end ↦
            if ltb r.piece_length end
            then (r, err (invalid "block exceeds piece length"))
            else write_block r index begin block
      ]

  unfoldable pub add_block :
      PieceReassembler → ℕ → ℕ → List ℕ → PieceReassembler × Result (Unit {0})
  add_block r index begin block =
      let (r', result) = add_block_with_contribution r index begin block in
      (r', elim result [ ok _ ↦ ok tt | err e ↦ err e ])

unfoldable pub discard_partial : PieceReassembler → ℕ → PieceReassembler
discard_partial r index = record r { partial = remove index r.partial }

-- ===== src/Wire/Reassembly/Tests.antt =====
-- Runs of crates/ace-wire/src/reassembly.rs, and its theorems at concrete pieces.
use outpace.Prelude.{
  ℕ, zero, suc, ◌+◌, ◌*◌, ◌≤◌, ◌<◌, ◌≡◌, refl, some, none, List, [], ◌∷◌, ◌++◌, length, get_elem?,
  take, list_eq, arith,
}
use mathlib.Core.List.{flatten}
use outpace.Prelude.Maps.{lookup, insert, remove, retain, contains_key}
use outpace.Wire.{err, signature_rejected}
use outpace.Wire.LiveAuth
use outpace.Wire.LiveAuth.{RsaCrate}
use outpace.Wire.Reassembly
use outpace.Wire.Reassembly.{PieceReassembler, ReadyPiece, Partial, Complete}
use outpace.Wire.Reassembly.Content.{IsChunk}
use outpace.Wire.Reassembly.Delivery.{Geometry, HoldsSource}
use outpace.Wire.Reassembly.Emit.{
  take_ready, take_ready_loop, take_ready_piece, ready_chunks, ready_from, media, skip_to,
}
use outpace.Wire.Reassembly.Invariant.{IsValid}
use outpace.Wire.Reassembly.Preview.{take_ready-ready_chunks}
use outpace.Wire.Reassembly.Bounds.{held_bytes, Run-held_bytes}
use outpace.Wire.Reassembly.Trace
use outpace.Wire.Reassembly.Trace.{Run-Emits, new-Good}
use outpace.Wire.Reassembly.Authentic
use outpace.Wire.Reassembly.Authentic.{rejected-discards}
use outpace.Wire.Reassembly.Guarded
use outpace.Wire.Reassembly.Guarded.{Run-Guarded, with_source_pubkey-Guarded}

program : Unit {0}
unfolding lookup insert remove retain contains_key LiveAuth.verify_piece LiveAuth.split_piece
    LiveAuth.signature_len_from_pubkey_der Reassembly.new Reassembly.with_piece_trailer
    Reassembly.with_source_pubkey Reassembly.with_max_pieces_ahead Reassembly.copy_from_slice
    Reassembly.fresh_partial Reassembly.fill Reassembly.authenticate Reassembly.finish_piece
    Reassembly.write_block Reassembly.add_block_with_contribution take_ready take_ready_loop
    take_ready_piece media skip_to ready_chunks ready_from Reassembly.discard_partial
program = tt

-- A toy signature: one byte, equal to the first byte of the payload.
abbrev first_byte : RsaCrate
first_byte = record {
  PublicKey = Unit {0};
  PrivateKey = Unit {0};
  public_key = λ k. k;
  to_public_key_der = λ k. 0 ∷ [];
  from_public_key_der = λ der. some tt;
  size = λ k. 1;
  digest = take 1;
  sign_digest = λ k d. d;
  verify_digest = λ k d s. list_eq d s;
}

-- Piece k of the source has four bytes, in two chunks of two.
abbrev source : ℕ → List ℕ
source k = k ∷ 10 ∷ 20 ∷ k ∷ []

abbrev start : PieceReassembler
start = record {
  piece_length = 4;
  next_emit = 7;
  piece_trailer = 1;
  verify_pubkey = none;
  max_ahead = 8;
  partial = [];
  complete = [];
}

abbrev half : PieceReassembler
half = (Reassembly.add_block_with_contribution first_byte start 7 2 (20 ∷ 7 ∷ [])).0

abbrev whole : PieceReassembler
whole = (Reassembly.add_block_with_contribution first_byte half 7 0 (7 ∷ 10 ∷ [])).0

-- Out of order and with a duplicate, the piece leaves without its trailer.
delivered : (take_ready whole).1 ≡ 7 ∷ 10 ∷ 20 ∷ []
unfolding program
delivered = refl

duplicate :
    (Reassembly.add_block_with_contribution first_byte half 7 2 (20 ∷ 7 ∷ [])).0.complete ≡ []
unfolding program
duplicate = refl

first-IsChunk : (k : ℕ) → IsChunk 2 0 (source k) (k ∷ 10 ∷ [])
first-IsChunk k = record { size = refl; content = bytes }
  where
    bytes : (i : ℕ) → i < 2 → get_elem? (k ∷ 10 ∷ []) i ≡ get_elem? (source k) (0 * 2 + i)
    bytes zero h = refl
    bytes (suc zero) h = refl
    bytes (suc (suc i)) h = absurd (omega arith)

second-IsChunk : (k : ℕ) → IsChunk 2 1 (source k) (20 ∷ k ∷ [])
second-IsChunk k = record { size = refl; content = bytes }
  where
    bytes : (i : ℕ) → i < 2 → get_elem? (20 ∷ k ∷ []) i ≡ get_elem? (source k) (1 * 2 + i)
    bytes zero h = refl
    bytes (suc zero) h = refl
    bytes (suc (suc i)) h = absurd (omega arith)

geometry : Geometry 2 2 source
geometry = record { positive = omega arith; small = omega arith; whole = λ k. refl }

start-Good : IsValid start × HoldsSource 2 2 source start
unfolding program
start-Good = new-Good first_byte 2 2 source 7 1 8

two_blocks : Trace.Run first_byte 2 2 source start [] whole
two_blocks =
    Trace.next
      (Trace.next Trace.here (Trace.block 7 1 (20 ∷ 7 ∷ []) (omega arith) (second-IsChunk 7)))
      (Trace.block 7 0 (7 ∷ 10 ∷ []) (omega arith) (first-IsChunk 7))

Run-Emits_example :
    Trace.Emits first_byte 2 2 source start
      ([] ++ Trace.pieces (take_ready_piece whole).1)
      (take_ready_piece whole).0
Run-Emits_example =
    Run-Emits first_byte 2 2 source geometry start-Good (Trace.next two_blocks Trace.emit)

whole-IsValid : IsValid whole
whole-IsValid = (Run-Emits first_byte 2 2 source geometry start-Good two_blocks).0.0

take_ready-ready_chunks_example : (take_ready whole).1 ≡ flatten (ready_chunks whole)
take_ready-ready_chunks_example = take_ready-ready_chunks whole-IsValid

abbrev keyed : PieceReassembler
keyed =
    Reassembly.with_max_pieces_ahead
      (Reassembly.with_source_pubkey first_byte (Reassembly.new 4 7) (0 ∷ [])) 8

keyed-Guarded : IsValid keyed × Authentic.IsAuthentic first_byte (0 ∷ []) keyed
unfolding LiveAuth.signature_len_from_pubkey_der
keyed-Guarded = with_source_pubkey-Guarded first_byte (0 ∷ []) 4 7 8 1 refl

abbrev signed : PieceReassembler
signed = (Reassembly.add_block_with_contribution first_byte keyed 7 0 (7 ∷ 8 ∷ 9 ∷ 7 ∷ [])).0

Run-Guarded_example :
    Guarded.Guarded first_byte
      (0 ∷ [])
      keyed
      ([] ++ Trace.pieces (take_ready_piece signed).1)
      (take_ready_piece signed).0
Run-Guarded_example =
    Run-Guarded first_byte (0 ∷ []) keyed-Guarded (
      Guarded.next (Guarded.next Guarded.here (Guarded.block 7 0 (7 ∷ 8 ∷ 9 ∷ 7 ∷ [])))
        Guarded.emit)

Run-held_bytes_example :
    (length signed.partial + length signed.complete ≤ keyed.max_ahead)
    × (held_bytes signed ≤ keyed.max_ahead * keyed.piece_length)
Run-held_bytes_example =
    Run-held_bytes first_byte (0 ∷ []) keyed-Guarded.0
      (Guarded.next Guarded.here (Guarded.block 7 0 (7 ∷ 8 ∷ 9 ∷ 7 ∷ [])))

-- The last byte does not match: the piece is refused.
forged :
    Reassembly.add_block_with_contribution first_byte keyed 7 0 (7 ∷ 8 ∷ 9 ∷ 6 ∷ [])
    ≡ (keyed, err signature_rejected)
unfolding program
forged = refl

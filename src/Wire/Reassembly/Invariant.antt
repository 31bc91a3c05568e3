-- ===== src/Wire/Reassembly/Invariant.antt =====
-- crates/ace-wire/src/reassembly.rs: the well-formedness of a reassembler, kept by every operation.
use outpace.Prelude.{
  ℕ, ◌+◌, ◌≤◌, ◌<◌, ◌≡◌, refl, Bool, not, ◌||◌, none, some, get_or, List, ◌++◌, length,
  length-append, length-take, length-drop, length-replicate, take, drop, is_empty, arith, ltb, leb,
  if-elim, saturating_add, u64_mod, inl, inr, ◌⊎◌, Bool-cases, Option-cases,
}
use outpace.Prelude.Maps.{
  lookup, insert, remove, contains_key, Between, insert-Between, remove-Between, lookup-insert,
  lookup-remove,
}
use outpace.Wire.{Result, Result-cases}
use outpace.Wire.LiveAuth.{RsaCrate}
use outpace.Wire.Reassembly
use outpace.Wire.Reassembly.{PieceReassembler, Partial, Complete}

-- The end of the accepted window.
abbrev pub window_end : PieceReassembler → ℕ
window_end r = saturating_add r.next_emit r.max_ahead

abbrev pub InWindow : PieceReassembler → ℕ → Type 0
InWindow r index = (r.next_emit ≤ index) × (index < window_end r)

-- Buffers are whole pieces; a partial piece has not all its bytes; no piece is in both maps, and
-- all are in the window.
pub record IsValid (r : PieceReassembler) : Type 0 where
  pub partial_keys : Between r.next_emit (window_end r) r.partial
  pub complete_keys : Between r.next_emit (window_end r) r.complete
  pub apart : (k : ℕ) (c : Complete) → lookup k r.complete ≡ some c → lookup k r.partial ≡ none
  pub partials :
      (k : ℕ) (p : Partial)
      → lookup k r.partial ≡ some p
      → (length p.buf ≡ r.piece_length) × (p.filled < r.piece_length)
  pub completes :
      (k : ℕ) (c : Complete) → lookup k r.complete ≡ some c → length c.buf ≡ r.piece_length
  pub trailer : r.piece_trailer ≤ r.piece_length

abbrev with_partial : PieceReassembler → ℕ → Partial → PieceReassembler
with_partial r index p = record r { partial = insert index p r.partial }

abbrev with_complete : PieceReassembler → ℕ → Complete → PieceReassembler
with_complete r index c = record r { complete = insert index c r.complete }

pub with_partial-IsValid :
    {r : PieceReassembler} (index : ℕ) (p : Partial)
    → IsValid r
    → InWindow r index
    → lookup index r.complete ≡ none
    → length p.buf ≡ r.piece_length
    → p.filled < r.piece_length
    → IsValid (with_partial r index p)
with_partial-IsValid {r} index p v w fresh size part = record {
  partial_keys = insert-Between r.next_emit (window_end r) index p r.partial w.0 w.1 v.partial_keys;
  complete_keys = v.complete_keys;
  apart = λ k c e. ground (arith, lookup-insert k index p r.partial, v.apart k c);
  partials = λ k q e. ground (arith, lookup-insert k index p r.partial, v.partials k q);
  completes = v.completes;
  trailer = v.trailer;
}

pub with_complete-IsValid :
    {r : PieceReassembler} (index : ℕ) (c : Complete)
    → IsValid r
    → InWindow r index
    → lookup index r.partial ≡ none
    → length c.buf ≡ r.piece_length
    → IsValid (with_complete r index c)
with_complete-IsValid {r} index c v w fresh size = record {
  partial_keys = v.partial_keys;
  complete_keys =
      insert-Between r.next_emit (window_end r) index c r.complete w.0 w.1 v.complete_keys;
  apart = λ k d e. ground (arith, lookup-insert k index c r.complete, v.apart k d);
  partials = v.partials;
  completes = λ k d e. ground (arith, lookup-insert k index c r.complete, v.completes k d);
  trailer = v.trailer;
}

-- Dropping the bytes of an incomplete piece.
pub discard_partial-IsValid :
    {r : PieceReassembler} (index : ℕ) → IsValid r → IsValid (Reassembly.discard_partial r index)
unfolding Reassembly.discard_partial
discard_partial-IsValid {r} index v = record {
  partial_keys = remove-Between r.next_emit (window_end r) index r.partial v.partial_keys;
  complete_keys = v.complete_keys;
  apart = λ k c e. ground (arith, lookup-remove index k r.partial, v.apart k c);
  partials = λ k p e. ground (arith, lookup-remove index k r.partial, v.partials k p);
  completes = v.completes;
  trailer = v.trailer;
}

pub length-copy_from_slice :
    (buf block : List ℕ) (begin : ℕ)
    → begin + length block ≤ length buf
    → length (Reassembly.copy_from_slice buf begin block) ≡ length buf
unfolding Reassembly.copy_from_slice
length-copy_from_slice buf block begin h = omega (
  arith,
  length-append (take begin buf) (block ++ drop (begin + length block) buf),
  length-append block (drop (begin + length block) buf),
  length-take begin buf,
  length-drop (begin + length block) buf,
)

-- The buffer that a write finds: that of the partial piece, or a fresh one.
pub current-length :
    {r : PieceReassembler} (index : ℕ)
    → IsValid r
    → length (get_or (lookup index r.partial) (Reassembly.fresh_partial r.piece_length)).buf
      ≡ r.piece_length
unfolding Reassembly.fresh_partial
current-length {r} index v = elim (Option-cases (lookup index r.partial)) [
  | inl e ↦ rw e (length-replicate r.piece_length 0)
  | inr (p, e) ↦ rw e (v.partials index p e).0
]

abbrev pub KeepsValid {ℓ} : {A : Type ℓ} → PieceReassembler × A → Type 0
KeepsValid s = IsValid s.0

module _ (rsa : RsaCrate) where
  pub finish_piece-IsValid :
      {r : PieceReassembler} (index : ℕ) (buf : List ℕ) (contributed : Bool)
      → IsValid r
      → InWindow r index
      → lookup index r.partial ≡ none
      → length buf ≡ r.piece_length
      → IsValid (Reassembly.finish_piece rsa r index buf contributed).0
  unfolding Reassembly.finish_piece
  finish_piece-IsValid {r} index buf contributed v w fresh size =
      elim (Result-cases (Reassembly.authenticate rsa r buf)) [
        | inl (_, e) ↦
            rw (e, Reassembly.finish_piece)
              (with_complete-IsValid index (record { buf = buf; live = none }) v w fresh size)
        | inr (_, e) ↦ rw (e, Reassembly.finish_piece) v
      ]

  pub write_block-IsValid :
      {r : PieceReassembler} (index begin : ℕ) (block : List ℕ)
      → IsValid r
      → InWindow r index
      → lookup index r.complete ≡ none
      → begin + length block ≤ r.piece_length
      → IsValid (Reassembly.write_block rsa r index begin block).0
  unfolding Reassembly.write_block
  write_block-IsValid {r} index begin block v w fresh fits =
      if-elim KeepsValid (leb r.piece_length p.filled)
        (λ full.
          finish_piece-IsValid index p.buf (not (is_empty block)) (discarded index v) w
            (ground (arith, lookup-remove index index r.partial)) size)
        (λ more. with_partial-IsValid index p v w fresh size (ground arith))
    where
      p : Partial
      p =
          Reassembly.fill
            (get_or (lookup index r.partial) (Reassembly.fresh_partial r.piece_length)) begin block

      size : length p.buf ≡ r.piece_length
      size =
          unfold Reassembly.fill in
          omega (arith, current-length index v, length-copy_from_slice _ block begin)

      discarded : (index : ℕ) → IsValid r → IsValid (record r { partial = remove index r.partial })
      discarded = unfold Reassembly.discard_partial in λ index v. discard_partial-IsValid index v

  -- A call either leaves the state as it is, or writes a block that fits into a piece of the window
  -- that is not complete.
  pub add_block_cases :
      (r : PieceReassembler) (index begin : ℕ) (block : List ℕ)
      → let s = Reassembly.add_block_with_contribution rsa r index begin block in
        ((result : Result Bool) × (s ≡ (r, result)))
        ⊎ (InWindow r index
            × (lookup index r.complete ≡ none)
            × (begin + length block ≤ r.piece_length)
            × (s ≡ Reassembly.write_block rsa r index begin block))
  unfolding Reassembly.add_block_with_contribution contains_key
  add_block_cases r index begin block =
      if-elim P (ltb index r.next_emit || contains_key index r.complete) (λ c. inl (_, refl))
        λ fresh.
          if-elim P (leb (saturating_add r.next_emit r.max_ahead) index) (λ c. inl (_, refl))
            λ inside. elim (Bool-cases (ltb (begin + length block) u64_mod)) [
              | inr c ↦ rw c (inl (_, refl))
              | inl c ↦ rw c (
                  if-elim P (ltb r.piece_length (begin + length block)) (λ big. inl (_, refl))
                    λ fits. inr ((ground arith, ground arith), ground arith, ground arith, refl))
            ]
    where
      P : PieceReassembler × Result Bool → Type 0
      P s =
          ((result : Result Bool) × (s ≡ (r, result)))
          ⊎ (InWindow r index
              × (lookup index r.complete ≡ none)
              × (begin + length block ≤ r.piece_length)
              × (s ≡ Reassembly.write_block rsa r index begin block))

  pub add_block_with_contribution-IsValid :
      {r : PieceReassembler} (index begin : ℕ) (block : List ℕ)
      → IsValid r
      → IsValid (Reassembly.add_block_with_contribution rsa r index begin block).0
  add_block_with_contribution-IsValid {r} index begin block v =
      elim (add_block_cases r index begin block) [
        | inl (_, e) ↦ rw e v
        | inr (w, fresh, fits, e) ↦ rw e (write_block-IsValid index begin block v w fresh fits)
      ]

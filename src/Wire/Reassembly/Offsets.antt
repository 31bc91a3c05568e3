-- ===== src/Wire/Reassembly/Offsets.antt =====
-- crates/ace-wire/src/reassembly.rs: sets of chunk-aligned offsets, `chunk * chunk_length` for chunks
-- below a count. A set with as many members as there are chunks has them all.
use outpace.Prelude.{
  ℕ, suc, ◌-◌, ◌*◌, ◌≤◌, ◌<◌, ◌≡◌, refl, ap, ◌≢◌, true, [], ◌∷◌, length, arith, ltb, ◌==◌,
  Bool-cases, inl, inr, mul_lt_cancel,
}
use outpace.Prelude.Maps.{Set, lookup, insert, contains_key}

ne_of_mul_ne : (a b c : ℕ) → a * c ≢ b * c → a ≢ b
ne_of_mul_ne a b c h e = h (ap (λ (t : ℕ). t * c) e)

module _ (chunk_length count : ℕ) where
  -- The members are multiples of the chunk length, ascending from chunk `lo` on.
  abbrev pub Aligned : ℕ → Set → Type 0
  Aligned lo [] = Unit {0}
  Aligned lo ((k, v) ∷ m) =
      (j : ℕ) × (k ≡ j * chunk_length) × (lo ≤ j) × (j < count) × Aligned (suc j) m

  pub insert-Aligned :
      (lo i : ℕ) (m : Set)
      → 0 < chunk_length
      → lo ≤ i
      → i < count
      → Aligned lo m
      → Aligned lo (insert (i * chunk_length) tt m)
  unfolding insert
  insert-Aligned lo i [] pos p q a = (i, refl, p, q, tt)
  insert-Aligned lo i ((k, v) ∷ m) pos p q (j, e, above, below, rest) =
      elim (Bool-cases (ltb (i * chunk_length) k)) [
        | inl before ↦
            rw before
              (i, refl, p, q, (j, e, mul_lt_cancel i j chunk_length (ground arith), below, rest))
        | inr not_before ↦ elim (Bool-cases (i * chunk_length == k)) [
          | inl here ↦ rw (not_before, here) (j, ground arith, above, below, rest)
          | inr after ↦
              rw (not_before, after)
                (
                  j,
                  e,
                  above,
                  below,
                  insert-Aligned (suc j) i m pos (mul_lt_cancel j i chunk_length (ground arith)) q
                      rest,
                )
        ]
      ]

  pub length-Aligned : (lo : ℕ) (m : Set) → Aligned lo m → length m ≤ count - lo
  length-Aligned lo [] a = omega arith
  length-Aligned lo ((k, v) ∷ m) (j, e, above, below, rest) =
      omega (arith, length-Aligned (suc j) m rest)

  -- The pigeonhole: no chunk from `lo` on is missing from a set that is large enough.
  pub full-contains :
      (lo i : ℕ) (m : Set)
      → Aligned lo m
      → count - lo ≤ length m
      → lo ≤ i
      → i < count
      → contains_key (i * chunk_length) m ≡ true
  unfolding contains_key lookup
  full-contains lo i [] a full p q = absurd (omega arith)
  full-contains lo i ((k, v) ∷ m) (j, e, above, below, rest) full p q =
      let first : j ≡ lo = omega (arith, length-Aligned (suc j) m rest) in
      elim (Bool-cases (k == i * chunk_length)) [
        | inl here ↦ rw here
        | inr elsewhere ↦ rw elsewhere (
            full-contains (suc j) i m rest (omega arith)
              (omega (arith, ne_of_mul_ne j i chunk_length (ground arith))) q)
      ]

-- ===== src/Media/Title/Bounds.antt =====
-- crates/ace-media/src/mpegts.rs: a sanitized title is whole characters, and few enough for its table.
use outpace.Prelude.{
  ℕ, zero, suc, ◌+◌, ◌-◌, ◌≤◌, ◌≡◌, refl, sym, ap, ◌∙◌, min, true, some, List, [], ◌∷◌, ◌++◌,
  is_empty, length, length-take, take, leb, Bool-cases, inl, inr, arith,
}
use outpace.Media.Title
use outpace.Media.Title.{Unicode}

take_sum : (n : ℕ) (xs ys : List ℕ) → take (length xs + n) (xs ++ ys) ≡ xs ++ take n ys
take_sum n [] ys = ap (λ k. take k ys) {x = 0 + n} (omega arith)
take_sum n (x ∷ xs) ys =
    let front : suc (length xs) + n ≡ suc (length xs + n) = omega arith in
    ap (λ k. take k (x ∷ (xs ++ ys))) front ∙ ap (◌∷◌ x) (take_sum n xs ys)

module _ (u : Unicode) where
  take_empty : (n : ℕ) → take n (Title.as_bytes u []) ≡ []
  unfolding Title.as_bytes
  take_empty zero = refl
  take_empty (suc n) = refl

  -- Up to a boundary stand the bytes of the first characters.
  boundary-whole :
      (cs : List ℕ) (n : ℕ)
      → Title.is_char_boundary u cs n ≡ true
      → (k : ℕ) × (take n (Title.as_bytes u cs) ≡ Title.as_bytes u (take k cs))
  unfolding Title.is_char_boundary Title.as_bytes
  boundary-whole [] n e = (0, take_empty n)
  boundary-whole (c ∷ cs) zero e = (0, refl)
  boundary-whole (c ∷ cs) (suc n) e = elim (Bool-cases (leb (length (u.encode c)) (suc n))) [
    | inr l ↦ absurd (ground (arith, e, l))
    | inl l ↦
        let left : ℕ = suc n - length (u.encode c) in
        let (k, p) = boundary-whole cs left (ground (arith, e, l)) in
        let whole : suc n ≡ length (u.encode c) + left = ground arith in
        (
          suc k,
          ap (λ m. take m (u.encode c ++ Title.as_bytes u cs)) whole
              ∙ (take_sum left (u.encode c) (Title.as_bytes u cs) ∙ ap (λ t. u.encode c ++ t) p),
        )
  ]

  back_to_boundary-whole :
      (cs : List ℕ) (n : ℕ)
      → (k : ℕ) × (take (Title.back_to_boundary u cs n) (Title.as_bytes u cs)
          ≡ Title.as_bytes u (take k cs))
  unfolding Title.back_to_boundary
  back_to_boundary-whole cs zero = (0, unfold Title.as_bytes in refl)
  back_to_boundary-whole cs (suc n) = elim (Bool-cases (Title.is_char_boundary u cs (suc n))) [
    | inl e ↦ rw e (boundary-whole cs (suc n) e)
    | inr e ↦ rw e (back_to_boundary-whole cs n)
  ]

  back_to_boundary-le : (cs : List ℕ) (n : ℕ) → Title.back_to_boundary u cs n ≤ n
  unfolding Title.back_to_boundary
  back_to_boundary-le cs zero = omega arith
  back_to_boundary-le cs (suc n) = ground (arith, back_to_boundary-le cs n)

-- A title that is accepted is the whole first characters of the text without control characters and outer
-- blanks, in at most 151 bytes.
pub sanitize_service_name-bounds :
    (u : Unicode) (raw name : List ℕ)
    → Title.sanitize_service_name u raw ≡ some name
    → (length name ≤ 151)
      × ((k : ℕ) × (name
            ≡ Title.as_bytes u (take k (Title.trim u (Title.strip_control u (Title.trim u raw))))))
unfolding Title.sanitize_service_name
sanitize_service_name-bounds u raw name e =
    let stripped = Title.trim u (Title.strip_control u (Title.trim u raw)) in
    let end : ℕ = min (length (Title.as_bytes u stripped)) 151 in
    elim (Bool-cases (is_empty stripped)) [
      | inl z ↦ absurd (ground (arith, e, z))
      | inr z ↦
          let is : take (Title.back_to_boundary u stripped end) (Title.as_bytes u stripped) ≡ name =
            ground (arith, e, z) in
          let (k, p) = back_to_boundary-whole u stripped end in
          (
            omega (
              arith,
              ap length is,
              length-take (Title.back_to_boundary u stripped end) (Title.as_bytes u stripped),
              back_to_boundary-le u stripped end,
            ),
            (k, sym is ∙ p),
          )
    ]

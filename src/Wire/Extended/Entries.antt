-- ===== src/Wire/Extended/Entries.antt =====
-- crates/ace-wire/src/extended.rs: what the dictionaries hold that the handshake is built from, by the laws of
-- the ordered map.
use outpace.Prelude.{
  ℕ, ◌≡◌, refl, sym, ap, ◌∙◌, subst, true, false, Option, none, some, List, [], ◌∷◌, list_eq, All,
  Bool-cases, inl, inr, if◌then◌else◌, arith,
}
use outpace.Wire.Bencode.{Bencode, Fields, end, field, bytes_lt, insert_field, get_field}
use outpace.Wire.Bencode.Values.{IsValue, AreFields, Above}
use outpace.Wire.Extended

bytes_lt_irrefl : (xs : List ℕ) → bytes_lt xs xs ≡ false
unfolding bytes_lt
bytes_lt_irrefl [] = refl
bytes_lt_irrefl (x ∷ xs) = ground (arith, bytes_lt_irrefl xs)

list_eq_refl : (xs : List ℕ) → list_eq xs xs ≡ true
list_eq_refl [] = refl
list_eq_refl (x ∷ xs) = ground (arith, list_eq_refl xs)

list_eq-≡ : (xs ys : List ℕ) → list_eq xs ys ≡ true → xs ≡ ys
list_eq-≡ [] [] e = refl
list_eq-≡ [] (y ∷ ys) e = absurd (cc e)
list_eq-≡ (x ∷ xs) [] e = absurd (cc e)
list_eq-≡ (x ∷ xs) (y ∷ ys) e = ground (arith, list_eq-≡ xs ys, e)

bytes_lt_total :
    (xs ys : List ℕ) → bytes_lt xs ys ≡ false → list_eq xs ys ≡ false → bytes_lt ys xs ≡ true
unfolding bytes_lt
bytes_lt_total [] [] p q = absurd (cc q)
bytes_lt_total [] (y ∷ ys) p q = absurd (cc p)
bytes_lt_total (x ∷ xs) [] p q = refl
bytes_lt_total (x ∷ xs) (y ∷ ys) p q = ground (arith, bytes_lt_total xs ys)

-- A key that was inserted is found, and the others are as before.
pub get_field-insert_field :
    (q k : List ℕ) (v : Bencode) (fs : Fields)
    → get_field q (insert_field k v fs) ≡ (if list_eq q k then some v else get_field q fs)
unfolding insert_field get_field
get_field-insert_field q k v end = refl
get_field-insert_field q k v (field j w fs) = elim (Bool-cases (bytes_lt k j)) [
  | inl l ↦ rw l refl
  | inr l ↦ elim (Bool-cases (list_eq k j)) [
    | inl e ↦
        let same : list_eq q j ≡ list_eq q k = ap (list_eq q) (sym (list_eq-≡ k j e)) in
        rw (l, e, same) (elim (Bool-cases (list_eq q k)) [ inl a ↦ rw a refl | inr a ↦ rw a refl ])
    | inr e ↦
        rw (l, e)
          (elim (Bool-cases (list_eq q j)) [
            | inr a ↦ rw (a, get_field-insert_field q k v fs) refl
            | inl a ↦ elim (Bool-cases (list_eq q k)) [
              | inr b ↦ rw (a, b) refl
              | inl b ↦
                  let same : k ≡ j = sym (list_eq-≡ q k b) ∙ list_eq-≡ q j a in
                  absurd (cc (e, ap (list_eq k) same, list_eq_refl k))
            ]
          ])
  ]
]

pub insert_field-insert_field :
    (k : List ℕ) (v w : Bencode) (fs : Fields)
    → insert_field k v (insert_field k w fs) ≡ insert_field k v fs
unfolding insert_field
insert_field-insert_field k v w end = rw (bytes_lt_irrefl k, list_eq_refl k) refl
insert_field-insert_field k v w (field j x fs) = elim (Bool-cases (bytes_lt k j)) [
  | inl l ↦ rw l (rw (bytes_lt_irrefl k, list_eq_refl k) refl)
  | inr l ↦ elim (Bool-cases (list_eq k j)) [
    | inl e ↦ rw (l, e) (rw (bytes_lt_irrefl k, list_eq_refl k) refl)
    | inr e ↦ rw (l, e) (rw (l, e) (ap (field j x) (insert_field-insert_field k v w fs)))
  ]
]

pub insert_field-AreFields :
    (room : ℕ) (lo : Option (List ℕ)) (k : List ℕ) (v : Bencode) (fs : Fields)
    → Above lo k
    → IsValue room v
    → AreFields room lo fs
    → AreFields room lo (insert_field k v fs)
unfolding insert_field AreFields
insert_field-AreFields room lo k v end a i h = (a, i, tt)
insert_field-AreFields room lo k v (field j w fs) a i h = elim (Bool-cases (bytes_lt k j)) [
  | inl l ↦ rw l (a, i, (l, h.1, h.2))
  | inr l ↦ elim (Bool-cases (list_eq k j)) [
    | inl e ↦ rw (l, e) (a, i, subst (λ t. AreFields room (some t) fs) (sym (list_eq-≡ k j e)) h.2)
    | inr e ↦
        rw (l, e)
          (h.0, h.1, insert_field-AreFields room (some j) k v fs (bytes_lt_total k j l e) i h.2)
  ]
]

-- The last entry of a key, or what was there before.
abbrev pub look : List ℕ → List (List ℕ × Bencode) → Option Bencode → Option Bencode
look q [] d = d
look q ((k, v) ∷ es) d = look q es (if list_eq q k then some v else d)

pub get_field-inserted :
    (q : List ℕ) (es : List (List ℕ × Bencode)) (fs : Fields)
    → get_field q (Extended.inserted es fs) ≡ look q es (get_field q fs)
unfolding Extended.inserted
get_field-inserted q [] fs = refl
get_field-inserted q ((k, v) ∷ es) fs =
    get_field-inserted q es (insert_field k v fs) ∙ ap (look q es) (get_field-insert_field q k v fs)

pub inserted-AreFields :
    (room : ℕ) (es : List (List ℕ × Bencode)) (fs : Fields)
    → All (λ (e : List ℕ × Bencode). IsValue room e.1) es
    → AreFields room none fs
    → AreFields room none (Extended.inserted es fs)
unfolding Extended.inserted
inserted-AreFields room [] fs a h = h
inserted-AreFields room ((k, v) ∷ es) fs a h =
    inserted-AreFields room es (insert_field k v fs) a.1
      (insert_field-AreFields room none k v fs tt a.0 h)

-- An optional entry under another key is passed over; under the key itself it is found.
pub get_field-inserted_option :
    (q k : List ℕ) (o : Option Bencode) (fs : Fields)
    → list_eq q k ≡ false
    → get_field q (Extended.inserted_option k o fs) ≡ get_field q fs
unfolding Extended.inserted_option
get_field-inserted_option q k none fs e = refl
get_field-inserted_option q k (some v) fs e =
    get_field-insert_field q k v fs ∙ ap (λ b. if b then some v else get_field q fs) e

pub get_field-own_option :
    (k : List ℕ) (o : Option Bencode) (fs : Fields)
    → get_field k fs ≡ none
    → get_field k (Extended.inserted_option k o fs) ≡ o
unfolding Extended.inserted_option
get_field-own_option k none fs e = e
get_field-own_option k (some v) fs e =
    get_field-insert_field k k v fs
    ∙ ap (λ b. if b then some v else get_field k fs) (list_eq_refl k)

-- An optional entry takes the place of an earlier one that is there in the same cases.
pub get_field-replaced_option {ℓ} :
    {A : Type ℓ} (k : List ℕ) (f g : A → Bencode) (o : Option A) (fs : Fields)
    → get_field k fs ≡ Extended.map_option g o
    → get_field k (Extended.inserted_option k (Extended.map_option f o) fs)
      ≡ Extended.map_option f o
unfolding Extended.inserted_option Extended.map_option
get_field-replaced_option k f g none fs e = e
get_field-replaced_option k f g (some a) fs e =
    get_field-insert_field k k (f a) fs
    ∙ ap (λ b. if b then some (f a) else get_field k fs) (list_eq_refl k)

abbrev pub IsOption : ℕ → Option Bencode → Type 0
IsOption room none = Unit {0}
IsOption room (some v) = IsValue room v

pub inserted_option-AreFields :
    (room : ℕ) (k : List ℕ) (o : Option Bencode) (fs : Fields)
    → IsOption room o
    → AreFields room none fs
    → AreFields room none (Extended.inserted_option k o fs)
unfolding Extended.inserted_option
inserted_option-AreFields room k none fs i h = h
inserted_option-AreFields room k (some v) fs i h = insert_field-AreFields room none k v fs tt i h

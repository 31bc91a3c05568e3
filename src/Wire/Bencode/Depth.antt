-- ===== src/Wire/Bencode/Depth.antt =====
-- crates/ace-wire/src/bencode.rs: how deep a parsed value is nested.
use outpace.Prelude.{
  ℕ, zero, suc, ◌+◌, max, ◌≤◌, ◌≡◌, refl, List, [], ◌∷◌, Bool-cases, inl, inr, ◌⊎◌, ◌==◌, drop, leb,
  arith, subst, ◌-◌, Option-cases,
}
use outpace.Wire.{Result, ok, err, ◌>>=◌}
use outpace.Wire.Bencode
use outpace.Wire.Bencode.Decimal
use outpace.Wire.Bencode.{
  Bencode, Items, Fields, int, bytes, list, dict, nil, cons, end, field, parse_int, parse_bytes,
  parse_value, parse_list, parse_dict, max_depth, insert_field, token, Token, int_token, list_token,
  dict_token, bytes_token, other_token,
}

-- The levels of lists and dictionaries.
unfoldable mutual
  pub levels : Bencode → ℕ
  levels (int i) = 0
  levels (bytes b) = 0
  levels (list l) = suc (levels_items l)
  levels (dict d) = suc (levels_fields d)

  pub levels_items : Items → ℕ
  levels_items nil = 0
  levels_items (cons v vs) = max (levels v) (levels_items vs)

  pub levels_fields : Fields → ℕ
  levels_fields end = 0
  levels_fields (field k v fs) = max (levels v) (levels_fields fs)

-- What holds of a result, if there is one.
abbrev pub Holds {ℓ} : {A : Type ℓ} → (A → Type 0) → Result A → Type 0
Holds P (ok a) = P a
Holds P (err e) = Unit {0}

Holds-bind {ℓ κ} :
    {A : Type ℓ} {B : Type κ} (Q : A → Type 0) (P : B → Type 0) (r : Result A) (f : A → Result B)
    → Holds Q r
    → ((a : A) → Q a → Holds P (f a))
    → Holds P (r >>= f)
Holds-bind Q P (ok a) f h k = k a h
Holds-bind Q P (err e) f h k = tt

insert_field-levels :
    (bound : ℕ) (k : List ℕ) (v : Bencode) (fs : Fields)
    → levels v ≤ bound
    → levels_fields fs ≤ bound
    → levels_fields (insert_field k v fs) ≤ bound
unfolding levels insert_field
insert_field-levels bound k v end h g = omega arith
insert_field-levels bound k v (field j w fs) h g =
    ground (arith, insert_field-levels bound k v fs h)

List-cases : (xs : List ℕ) → (xs ≡ []) ⊎ ((b : ℕ) × (t : List ℕ) × (xs ≡ b ∷ t))
List-cases [] = inl refl
List-cases (b ∷ t) = inr (b, t, refl)

Token-cases :
    (k : Token)
    → (k ≡ int_token) ⊎ (k ≡ list_token) ⊎ (k ≡ dict_token) ⊎ (k ≡ bytes_token) ⊎ (k ≡ other_token)
Token-cases int_token = inl refl
Token-cases list_token = inr (inl refl)
Token-cases dict_token = inr (inr (inl refl))
Token-cases bytes_token = inr (inr (inr (inl refl)))
Token-cases other_token = inr (inr (inr (inr refl)))

-- An integer has no levels.
parse_int-levels : (buf : List ℕ) (pos : ℕ) → Holds (λ r. levels r.0 ≡ 0) (parse_int buf pos)
unfolding levels parse_int
parse_int-levels buf pos = elim (Option-cases (Decimal.split_at 101 (drop (pos + 1) buf))) [
  | inl e ↦ rw (parse_int, e) tt
  | inr (s, e) ↦ elim (Bool-cases (Decimal.is_utf8 s)) [
    | inr bad ↦ rw (parse_int, e, bad) tt
    | inl good ↦ elim (Option-cases (Decimal.parse_i64 s)) [
      | inl f ↦ rw (parse_int, e, good, f) tt
      | inr (i, f) ↦ rw (parse_int, e, good, f) refl
    ]
  ]
]

Holds-map {ℓ} :
    {A : Type ℓ} (P Q : A → Type 0) (r : Result A) → Holds P r → ((a : A) → P a → Q a) → Holds Q r
Holds-map P Q (ok a) h f = f a h
Holds-map P Q (err e) h f = tt

Holds-any {ℓ} : {A : Type ℓ} (r : Result A) → Holds (λ a. Unit {0}) r
Holds-any (ok a) = tt
Holds-any (err e) = tt

-- A result of a call at a depth, counted from the top.
abbrev ShallowValue : ℕ → Bencode × ℕ → Type 0
ShallowValue depth r = depth + levels r.0 ≤ 32

abbrev ShallowItems : ℕ → Items × ℕ → Type 0
ShallowItems depth r = depth + 1 + levels_items r.0 ≤ 32

abbrev ShallowFields : ℕ → Fields × ℕ → Type 0
ShallowFields depth r = depth + 1 + levels_fields r.0 ≤ 32

abbrev AnyBytes : List ℕ × ℕ → Type 0
AnyBytes r = Unit {0}

module _ (buf : List ℕ) where
  mutual
    unfolding levels parse_value

    parse_value-levels :
        (fuel pos depth : ℕ)
        → depth ≤ 32
        → Holds (ShallowValue depth) (parse_value fuel buf pos depth)
    parse_value-levels zero pos depth h = tt
    parse_value-levels (suc fuel) pos depth h = elim (List-cases (drop pos buf)) [
      | inl e ↦ rw (parse_value, e) tt
      | inr (b, t, e) ↦ elim (Token-cases (token b)) [
        | inl k ↦
            rw (parse_value, e, k)
              (Holds-map (λ (r : Bencode × ℕ). levels r.0 ≡ 0) (ShallowValue depth)
                (parse_int buf pos) (parse_int-levels buf pos) (λ r z. omega (arith, z)))
        | inr (inl k) ↦ elim (Bool-cases (leb max_depth depth)) [
          | inl deep ↦ rw (parse_value, e, k, deep) tt
          | inr flat ↦
              let room : depth + 1 ≤ 32 = ground arith in
              rw (parse_value, e, k, flat)
                (Holds-bind (ShallowItems depth) (ShallowValue depth) _ _
                  (parse_list-levels fuel (pos + 1) depth room) (λ r z. omega (arith, z)))
        ]
        | inr (inr (inl k)) ↦ elim (Bool-cases (leb max_depth depth)) [
          | inl deep ↦ rw (parse_value, e, k, deep) tt
          | inr flat ↦
              let room : depth + 1 ≤ 32 = ground arith in
              rw (parse_value, e, k, flat)
                (Holds-bind (ShallowFields depth) (ShallowValue depth) _ _
                  (parse_dict-levels fuel (pos + 1) depth end room (omega arith))
                  (λ r z. omega (arith, z)))
        ]
        | inr (inr (inr (inl k))) ↦
            rw (parse_value, e, k)
              (Holds-bind AnyBytes (ShallowValue depth) _ _ (Holds-any (parse_bytes buf pos))
                (λ r z. omega arith))
        | inr (inr (inr (inr k))) ↦ rw (parse_value, e, k) tt
      ]
    ]

    parse_list-levels :
        (fuel pos depth : ℕ)
        → depth + 1 ≤ 32
        → Holds (ShallowItems depth) (parse_list fuel buf pos depth)
    parse_list-levels zero pos depth h = tt
    parse_list-levels (suc fuel) pos depth h = elim (List-cases (drop pos buf)) [
      | inl e ↦ rw (parse_list, e) tt
      | inr (b, t, e) ↦ elim (Bool-cases (b == 101)) [
        | inl stop ↦ rw (parse_list, e, stop) (omega arith)
        | inr more ↦
            rw (parse_list, e, more)
              (Holds-bind (ShallowValue (depth + 1)) (ShallowItems depth) _ _
                (parse_value-levels fuel pos (depth + 1) h)
                (λ r z.
                  Holds-bind (ShallowItems depth) (ShallowItems depth) _ _
                    (parse_list-levels fuel r.1 depth h) (λ q y. omega (arith, z, y))))
      ]
    ]

    parse_dict-levels :
        (fuel pos depth : ℕ) (map : Fields)
        → depth + 1 ≤ 32
        → depth + 1 + levels_fields map ≤ 32
        → Holds (ShallowFields depth) (parse_dict fuel buf pos depth map)
    parse_dict-levels zero pos depth map h g = tt
    parse_dict-levels (suc fuel) pos depth map h g = elim (List-cases (drop pos buf)) [
      | inl e ↦ rw (parse_dict, e) tt
      | inr (b, t, e) ↦ elim (Bool-cases (b == 101)) [
        | inl stop ↦ rw (parse_dict, e, stop) g
        | inr more ↦
            rw (parse_dict, e, more)
              (Holds-bind AnyBytes (ShallowFields depth) _ _ (Holds-any (parse_bytes buf pos))
                (λ r z.
                  Holds-bind (ShallowValue (depth + 1)) (ShallowFields depth) _ _
                    (parse_value-levels fuel r.1 (depth + 1) h)
                    (λ q y. parse_dict-levels fuel q.1 depth (insert_field r.0 q.0 map) h (
                      omega (
                        arith,
                        insert_field-levels (32 - (depth + 1)) r.0 q.0 map (omega (arith, y))
                            (omega (arith, g)),
                      )))))
      ]
    ]

-- A value that the parser gives for the front of a buffer has at most 32 levels of lists and dictionaries.
pub parse_prefix-levels :
    (buf : List ℕ) {v : Bencode} {n : ℕ}
    → Bencode.parse_prefix buf ≡ ok (v, n)
    → levels v ≤ max_depth
unfolding Bencode.parse_prefix
parse_prefix-levels buf {v} {n} e =
    let all = parse_value-levels buf (Bencode.parse_fuel buf) 0 0 (omega arith) in
    let here : Holds (ShallowValue 0) (ok (v, n)) = subst (Holds (ShallowValue 0)) e all in
    omega (arith, here)

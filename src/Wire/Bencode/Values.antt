-- ===== src/Wire/Bencode/Values.antt =====
-- crates/ace-wire/src/bencode.rs: the values that are parsed back, and the calls that they take.
use outpace.Prelude.{
  ℕ, zero, suc, ◌+◌, ◌*◌, ◌≤◌, ◌<◌, ◌≡◌, true, Option, none, some, List, [], ◌∷◌, ◌++◌, length,
  arith, length-append,
}
use outpace.Wire.Bencode.{
  Bencode, Items, Fields, int, bytes, list, dict, nil, cons, end, field, encode, encode_items,
  encode_fields, encode_bytes, bytes_lt,
}
use outpace.Wire.Bencode.Decimal.{print_i64, print_usize}
use outpace.Wire.Bencode.Decimal.Digits.{IsI64}

-- The keys ascend from behind `lo`, if there is one.
abbrev pub Above : Option (List ℕ) → List ℕ → Type 0
Above none k = Unit {0}
Above (some lo) k = bytes_lt lo k ≡ true

-- A value with integers of 64 bits, keys that ascend, and at most `room` levels.
unfoldable mutual
  pub IsValue : (room : ℕ) → Bencode → Type 0
  IsValue room (int i) = IsI64 i
  IsValue room (bytes b) = Unit {0}
  IsValue zero (list l) = ⊥
  IsValue (suc room) (list l) = AreItems room l
  IsValue zero (dict d) = ⊥
  IsValue (suc room) (dict d) = AreFields room none d

  pub AreItems : (room : ℕ) → Items → Type 0
  AreItems room nil = Unit {0}
  AreItems room (cons v vs) = IsValue room v × AreItems room vs

  pub AreFields : (room : ℕ) → Option (List ℕ) → Fields → Type 0
  AreFields room lo end = Unit {0}
  AreFields room lo (field k v fs) = Above lo k × IsValue room v × AreFields room (some k) fs

-- The calls that a value takes.
unfoldable mutual
  pub cost : Bencode → ℕ
  cost (int i) = 1
  cost (bytes b) = 1
  cost (list l) = suc (cost_items l)
  cost (dict d) = suc (cost_fields d)

  pub cost_items : Items → ℕ
  cost_items nil = 1
  cost_items (cons v vs) = suc (cost v + cost_items vs)

  pub cost_fields : Fields → ℕ
  cost_fields end = 1
  cost_fields (field k v fs) = suc (cost v + cost_fields fs)

-- The text has a byte for each two calls.
mutual
  unfolding cost encode

  pub cost-le : (v : Bencode) → suc (cost v) ≤ 2 * length (encode v)
  cost-le (int i) = omega (arith, length-append (print_i64 i) (101 ∷ []))
  cost-le (bytes b) = omega (arith, length-append (print_usize (length b)) (58 ∷ b))
  cost-le (list l) = omega (arith, cost_items-le l, length-append (encode_items l) (101 ∷ []))
  cost-le (dict d) = omega (arith, cost_fields-le d, length-append (encode_fields d) (101 ∷ []))

  pub cost_items-le : (l : Items) → cost_items l ≤ 2 * length (encode_items l) + 1
  cost_items-le nil = omega arith
  cost_items-le (cons v vs) =
      omega (arith, cost-le v, cost_items-le vs, length-append (encode v) (encode_items vs))

  pub cost_fields-le : (d : Fields) → cost_fields d ≤ 2 * length (encode_fields d) + 1
  cost_fields-le end = omega arith
  cost_fields-le (field k v fs) = omega (
    arith,
    cost-le v,
    cost_fields-le fs,
    length-append (encode_bytes k) (encode v ++ encode_fields fs),
    length-append (encode v) (encode_fields fs),
  )

mutual
  unfolding cost

  pub cost-pos : (v : Bencode) → 0 < cost v
  cost-pos (int i) = omega arith
  cost-pos (bytes b) = omega arith
  cost-pos (list l) = omega arith
  cost-pos (dict d) = omega arith

  pub cost_items-pos : (l : Items) → 0 < cost_items l
  cost_items-pos nil = omega arith
  cost_items-pos (cons v vs) = omega arith

  pub cost_fields-pos : (d : Fields) → 0 < cost_fields d
  cost_fields-pos end = omega arith
  cost_fields-pos (field k v fs) = omega arith

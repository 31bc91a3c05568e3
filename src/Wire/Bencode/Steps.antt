-- ===== src/Wire/Bencode/Steps.antt =====
-- crates/ace-wire/src/bencode.rs: one call of the parser, on each branch that succeeds.
use outpace.Prelude.{ℕ, suc, ◌+◌, ◌≡◌, false, List, ◌∷◌, drop, leb, ◌==◌, arith}
use outpace.Wire.{Result, ok}
use outpace.Wire.Bencode
use outpace.Wire.Bencode.{
  Bencode, Items, Fields, int, bytes, list, dict, nil, cons, end, field, parse_int, parse_bytes,
  parse_value, parse_list, parse_dict, max_depth, insert_field, token,
}

module _ (fuel : ℕ) (buf : List ℕ) (pos depth : ℕ) where
  pub value_int :
      {t : List ℕ}
      → drop pos buf ≡ 105 ∷ t
      → parse_value (suc fuel) buf pos depth ≡ parse_int buf pos
  unfolding parse_value
  value_int e = ground arith

  pub value_bytes :
      {d : ℕ} {t : List ℕ} {b : List ℕ} {n : ℕ}
      → drop pos buf ≡ d ∷ t
      → token d ≡ Bencode.bytes_token
      → parse_bytes buf pos ≡ ok (b, n)
      → parse_value (suc fuel) buf pos depth ≡ ok (bytes b, n)
  unfolding parse_value
  value_bytes e k r = ground arith

  pub value_list :
      {t : List ℕ} {l : Items} {n : ℕ}
      → drop pos buf ≡ 108 ∷ t
      → leb max_depth depth ≡ false
      → parse_list fuel buf (pos + 1) depth ≡ ok (l, n)
      → parse_value (suc fuel) buf pos depth ≡ ok (list l, n)
  unfolding parse_value
  value_list e k r = ground arith

  pub value_dict :
      {t : List ℕ} {d : Fields} {n : ℕ}
      → drop pos buf ≡ 100 ∷ t
      → leb max_depth depth ≡ false
      → parse_dict fuel buf (pos + 1) depth end ≡ ok (d, n)
      → parse_value (suc fuel) buf pos depth ≡ ok (dict d, n)
  unfolding parse_value
  value_dict e k r = ground arith

  pub list_end :
      {t : List ℕ}
      → drop pos buf ≡ 101 ∷ t
      → parse_list (suc fuel) buf pos depth ≡ ok (nil, pos + 1)
  unfolding parse_value
  list_end e = ground arith

  pub list_turn :
      {b : ℕ} {t : List ℕ} {v : Bencode} {l : Items} {n m : ℕ}
      → drop pos buf ≡ b ∷ t
      → (b == 101) ≡ false
      → parse_value fuel buf pos (depth + 1) ≡ ok (v, n)
      → parse_list fuel buf n depth ≡ ok (l, m)
      → parse_list (suc fuel) buf pos depth ≡ ok (cons v l, m)
  unfolding parse_value
  list_turn e k r q = ground arith

  pub dict_end :
      {t : List ℕ} (map : Fields)
      → drop pos buf ≡ 101 ∷ t
      → parse_dict (suc fuel) buf pos depth map ≡ ok (map, pos + 1)
  unfolding parse_value
  dict_end map e = ground arith

  pub dict_turn :
      {b : ℕ} {t k : List ℕ} {v : Bencode} {n m : ℕ} {r : Result (Fields × ℕ)} (map : Fields)
      → drop pos buf ≡ b ∷ t
      → (b == 101) ≡ false
      → parse_bytes buf pos ≡ ok (k, n)
      → parse_value fuel buf n (depth + 1) ≡ ok (v, m)
      → parse_dict fuel buf m depth (insert_field k v map) ≡ r
      → parse_dict (suc fuel) buf pos depth map ≡ r
  unfolding parse_value
  dict_turn map e k p q s = ground arith

-- ===== src/Wire/Bencode/RoundTrip.antt =====
-- crates/ace-wire/src/bencode.rs: a value that is printed is parsed back.
use outpace.Prelude.{
  ℕ, zero, suc, ◌+◌, ◌≤◌, ◌<◌, ◌≡◌, refl, sym, ap, ◌∙◌, Option, none, some, List, [], ◌∷◌, ◌++◌,
  length, ◌==◌, if◌then◌else◌, u64_mod, arith, append_assoc, length-append,
}
use outpace.Wire.{ok, err}
use outpace.Wire.Bencode
use outpace.Wire.Bencode.{
  Bencode, Items, Fields, int, bytes, list, dict, nil, cons, end, field, encode, encode_items,
  encode_fields, encode_bytes, parse_int, parse_bytes, parse_value, parse_list, parse_dict,
  max_depth, insert_field, bytes_lt, token,
}
use outpace.Wire.Bencode.Text.{
  At, At-skip, parse_int-encode, parse_bytes-encode_bytes, ltb_deep, encode_bytes-head, encode-Head,
}
use outpace.Wire.Bencode.Values.{
  IsValue, AreItems, AreFields, Above, cost, cost_items, cost_fields, cost-le, cost-pos,
  cost_items-pos, cost_fields-pos,
}
use outpace.Wire.Bencode.Steps.{
  value_int, value_bytes, value_list, value_dict, list_end, list_turn, dict_end, dict_turn,
}
use outpace.Wire.Bencode.Keys.{
  AllBelow, append_fields, insert_field-AllBelow, AllBelow-snoc, append_fields-snoc,
  append_fields-end,
}

module _ (buf : List ℕ) (small : length buf < u64_mod) where
  mutual
    unfolding IsValue cost encode

    parse_value-encode :
        (v : Bencode) (room fuel pos depth : ℕ) (tail : List ℕ)
        → IsValue room v
        → depth + room ≤ 32
        → cost v ≤ fuel
        → At buf pos (encode v ++ tail)
        → parse_value fuel buf pos depth ≡ ok (v, pos + length (encode v))
    parse_value-encode v room zero pos depth tail h deep enough at =
        absurd (omega (arith, cost-pos v))
    parse_value-encode (int i) room (suc fuel) pos depth tail h deep enough at =
        value_int fuel buf pos depth at ∙ parse_int-encode i buf tail pos h at
    parse_value-encode (bytes b) room (suc fuel) pos depth tail h deep enough at =
        let (d, t, e, k, n) = encode_bytes-head b in
        value_bytes fuel buf pos depth (at ∙ ap (λ s. s ++ tail) e) k
          (parse_bytes-encode_bytes b buf tail pos small at)
    parse_value-encode (list l) zero (suc fuel) pos depth tail h deep enough at = absurd h
    parse_value-encode (list l) (suc room) (suc fuel) pos depth tail h deep enough at =
        let inner : At buf (pos + 1) (encode_items l ++ (101 ∷ tail)) =
          At-skip buf pos (108 ∷ []) _ at ∙ append_assoc (encode_items l) (101 ∷ []) tail in
        let stop : pos + 1 + length (encode_items l) + 1 ≡ pos + length (encode (list l)) =
          omega (arith, length-append (encode_items l) (101 ∷ [])) in
        value_list fuel buf pos depth at (ltb_deep depth room deep) (
          parse_list-encode_items l room fuel (pos + 1) depth tail h (omega arith) (omega arith)
            inner)
        ∙ ap (λ k. ok (list l, k)) stop
    parse_value-encode (dict d) zero (suc fuel) pos depth tail h deep enough at = absurd h
    parse_value-encode (dict d) (suc room) (suc fuel) pos depth tail h deep enough at =
        let inner : At buf (pos + 1) (encode_fields d ++ (101 ∷ tail)) =
          At-skip buf pos (100 ∷ []) _ at ∙ append_assoc (encode_fields d) (101 ∷ []) tail in
        let stop : pos + 1 + length (encode_fields d) + 1 ≡ pos + length (encode (dict d)) =
          omega (arith, length-append (encode_fields d) (101 ∷ [])) in
        value_dict fuel buf pos depth at (ltb_deep depth room deep) (
          parse_dict-encode_fields d end none room fuel (pos + 1) depth tail h (λ k a. tt)
            (omega arith) (omega arith) inner)
        ∙ ap (λ k. ok (dict d, k)) stop

    parse_list-encode_items :
        (l : Items) (room fuel pos depth : ℕ) (tail : List ℕ)
        → AreItems room l
        → depth + 1 + room ≤ 32
        → cost_items l ≤ fuel
        → At buf pos (encode_items l ++ (101 ∷ tail))
        → parse_list fuel buf pos depth ≡ ok (l, pos + length (encode_items l) + 1)
    parse_list-encode_items l room zero pos depth tail h deep enough at =
        absurd (omega (arith, cost_items-pos l))
    parse_list-encode_items nil room (suc fuel) pos depth tail h deep enough at =
        let stop : pos + 1 ≡ pos + 0 + 1 = omega arith in
        list_end fuel buf pos depth at ∙ ap (λ k. ok (nil, k)) stop
    parse_list-encode_items (cons v vs) room (suc fuel) pos depth tail h deep enough at =
        let here : At buf pos (encode v ++ (encode_items vs ++ (101 ∷ tail))) =
          at ∙ append_assoc (encode v) (encode_items vs) (101 ∷ tail) in
        let head = encode-Head v in
        let stop : pos + length (encode v) + length (encode_items vs) + 1
            ≡ pos + length (encode v ++ encode_items vs) + 1 =
          omega (arith, length-append (encode v) (encode_items vs)) in
        list_turn fuel buf pos depth
          (here ∙ ap (λ s. s ++ (encode_items vs ++ (101 ∷ tail))) head.split) head.no_end
          (parse_value-encode v room fuel pos (depth + 1) _ h.0 deep (omega arith) here)
          (parse_list-encode_items vs room fuel (pos + length (encode v)) depth tail h.1 deep
            (omega arith) (At-skip buf pos (encode v) _ here))
        ∙ ap (λ k. ok (cons v vs, k)) stop

    parse_dict-encode_fields :
        (d done : Fields) (lo : Option (List ℕ)) (room fuel pos depth : ℕ) (tail : List ℕ)
        → AreFields room lo d
        → ((k : List ℕ) → Above lo k → AllBelow k done)
        → depth + 1 + room ≤ 32
        → cost_fields d ≤ fuel
        → At buf pos (encode_fields d ++ (101 ∷ tail))
        → parse_dict fuel buf pos depth done
          ≡ ok (append_fields done d, pos + length (encode_fields d) + 1)
    parse_dict-encode_fields d done lo room zero pos depth tail h below deep enough at =
        absurd (omega (arith, cost_fields-pos d))
    parse_dict-encode_fields end done lo room (suc fuel) pos depth tail h below deep enough at =
        let stop : pos + 1 ≡ pos + 0 + 1 = omega arith in
        dict_end fuel buf pos depth done at
        ∙ ap (λ k. ok (done, k)) stop
        ∙ ap (λ m. ok (m, pos + 0 + 1)) (sym (append_fields-end done))
    parse_dict-encode_fields (field k v fs) done lo room (suc fuel) pos depth tail h below deep
          enough at =
        let rest = encode_fields fs ++ (101 ∷ tail) in
        let here : At buf pos (encode_bytes k ++ (encode v ++ rest)) =
          at
          ∙ append_assoc (encode_bytes k) (encode v ++ encode_fields fs) (101 ∷ tail)
          ∙ ap (λ s. encode_bytes k ++ s)
              (append_assoc (encode v) (encode_fields fs) (101 ∷ tail)) in
        let behind : At buf (pos + length (encode_bytes k)) (encode v ++ rest) =
          At-skip buf pos (encode_bytes k) _ here in
        let (d, t, e, is_token, no_end) = encode_bytes-head k in
        let after = append_fields done (field k v end) in
        let fresh = insert_field-AllBelow k v done (below k h.0) in
        let later =
          parse_dict-encode_fields fs after (some k) room fuel
            (pos + length (encode_bytes k) + length (encode v)) depth tail h.2
            (λ j above. AllBelow-snoc j k v done (below k h.0) above) deep (omega arith)
            (At-skip buf (pos + length (encode_bytes k)) (encode v) _ behind) in
        let stop : pos + length (encode_bytes k) + length (encode v) + length (encode_fields fs) + 1
            ≡ pos + length (encode_bytes k ++ (encode v ++ encode_fields fs)) + 1 =
          omega (
            arith,
            length-append (encode_bytes k) (encode v ++ encode_fields fs),
            length-append (encode v) (encode_fields fs),
          ) in
        dict_turn fuel buf pos depth done (here ∙ ap (λ s. s ++ (encode v ++ rest)) e) no_end
          (parse_bytes-encode_bytes k buf (encode v ++ rest) pos small here)
          (parse_value-encode v room fuel (pos + length (encode_bytes k)) (depth + 1) rest h.1 deep
            (omega arith) behind)
          (ap (λ m. parse_dict fuel buf (pos + length (encode_bytes k) + length (encode v)) depth m)
              fresh
            ∙ later)
        ∙ ap
            (λ m. ok (
              m,
              pos + length (encode_bytes k) + length (encode v) + length (encode_fields fs) + 1,
            ))
            (append_fields-snoc done fs k v)
        ∙ ap (λ n. ok (append_fields done (field k v fs), n)) stop

-- A value with 64-bit integers, ascending keys and at most 32 levels, printed, with any bytes behind it
-- in a buffer below 2 ^ 64 bytes: the parser of a prefix gives it back with the length of its text.
pub parse_prefix-encode :
    (v : Bencode) (tail : List ℕ)
    → IsValue 32 v
    → length (encode v ++ tail) < u64_mod
    → Bencode.parse_prefix (encode v ++ tail) ≡ ok (v, length (encode v))
unfolding Bencode.parse_prefix
parse_prefix-encode v tail h small =
    let front : 0 + length (encode v) ≡ length (encode v) = omega arith in
    parse_value-encode (encode v ++ tail) small v 32 (Bencode.parse_fuel (encode v ++ tail)) 0 0
      tail h (omega arith) (omega (arith, cost-le v, length-append (encode v) tail)) refl
    ∙ ap (λ n. ok (v, n)) front

parse_of_prefix :
    (buf : List ℕ) (v : Bencode) (n : ℕ)
    → Bencode.parse_prefix buf ≡ ok (v, n)
    → Bencode.parse buf ≡ (if n == length buf then ok v else err (Bencode.invalid "trailing bytes"))
unfolding Bencode.parse Bencode.parse_prefix
parse_of_prefix buf v n e = ground arith

-- A value with 64-bit integers, ascending keys and at most 32 levels, printed into a buffer below
-- 2 ^ 64 bytes: parsed alone, it is given back whole, and with anything behind it, it is refused for
-- its trailing bytes.
pub parse-encode :
    (v : Bencode) (tail : List ℕ)
    → IsValue 32 v
    → length (encode v ++ tail) < u64_mod
    → Bencode.parse (encode v ++ tail)
      ≡ (if length tail == 0 then ok v else err (Bencode.invalid "trailing bytes"))
parse-encode v tail h small =
    parse_of_prefix (encode v ++ tail) v (length (encode v)) (parse_prefix-encode v tail h small)
    ∙ ap (λ b. if b then ok v else err (Bencode.invalid "trailing bytes")) same
  where
    same : (length (encode v) == length (encode v ++ tail)) ≡ (length tail == 0)
    same = rw (length-append (encode v) tail) (ground arith)

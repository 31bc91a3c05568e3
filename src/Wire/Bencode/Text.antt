-- ===== src/Wire/Bencode/Text.antt =====
-- crates/ace-wire/src/bencode.rs: integers, byte strings and first bytes of a text, parsed back.
use outpace.Prelude.{
  ℕ, suc, ◌+◌, ◌≤◌, ◌<◌, ◌≡◌, refl, sym, ap, ◌∙◌, true, false, some, List, [], ◌∷◌, ◌++◌, length,
  take, drop, leb, ◌==◌, u64_mod, arith, append_assoc, length-append, length-drop, drop-drop,
  take-length-append, drop-length-append,
}
use outpace.Prelude.Ints.{ℤ}
use outpace.Wire.{ok}
use outpace.Wire.Bencode
use outpace.Wire.Bencode.{
  Bencode, Items, Fields, int, bytes, list, dict, nil, cons, end, field, encode, encode_items,
  encode_fields, encode_bytes, parse_int, parse_bytes, parse_value, parse_list, parse_dict,
  max_depth, insert_field, bytes_lt, token,
}
use outpace.Wire.Bencode.Decimal.{split_at, is_utf8, parse_i64, parse_usize, print_i64, print_usize}
use outpace.Wire.Bencode.Decimal.Digits.{
  IsI64, parse_i64-print_i64, parse_usize-print_usize, print_usize-All, print_i64-All,
  print_usize-Digits, split_at-text, is_utf8-text,
}

-- What stands at a position of the buffer.
abbrev pub At : List ℕ → ℕ → List ℕ → Type 0
At buf pos tail = drop pos buf ≡ tail

pub At-skip :
    (buf : List ℕ) (pos : ℕ) (xs tail : List ℕ)
    → At buf pos (xs ++ tail)
    → At buf (pos + length xs) tail
At-skip buf pos xs tail at =
    sym (drop-drop (length xs) pos buf) ∙ ap (drop (length xs)) at ∙ drop-length-append xs tail

At-length :
    (buf : List ℕ) (pos : ℕ) (xs tail : List ℕ)
    → 0 < length xs
    → At buf pos (xs ++ tail)
    → pos + length xs ≤ length buf
At-length buf pos xs tail some_bytes at =
    omega (arith, length-drop pos buf, ap length at, length-append xs tail)

int_steps :
    (buf : List ℕ) (pos : ℕ) (s : List ℕ) (i : ℤ)
    → split_at 101 (drop (pos + 1) buf) ≡ some s
    → is_utf8 s ≡ true
    → parse_i64 s ≡ some i
    → parse_int buf pos ≡ ok (int i, pos + 1 + length s + 1)
unfolding parse_int
int_steps buf pos s i found text value = ground arith

bytes_steps :
    (buf : List ℕ) (pos : ℕ) (s : List ℕ) (len : ℕ)
    → split_at 58 (drop pos buf) ≡ some s
    → is_utf8 s ≡ true
    → parse_usize s ≡ some len
    → pos + length s + 1 + len ≤ length buf
    → length buf < u64_mod
    → parse_bytes buf pos ≡ ok (take len (drop (pos + length s + 1) buf), pos + length s + 1 + len)
unfolding parse_bytes
bytes_steps buf pos s len found text value inside small = ground arith

pub parse_int-encode :
    (i : ℤ) (buf tail : List ℕ) (pos : ℕ)
    → IsI64 i
    → At buf pos (encode (int i) ++ tail)
    → parse_int buf pos ≡ ok (int i, pos + length (encode (int i)))
unfolding encode
parse_int-encode i buf tail pos h at =
    let text = print_i64 i in
    let back : At buf (pos + 1) (text ++ (101 ∷ tail)) =
      At-skip buf pos (105 ∷ []) _ at ∙ append_assoc text (101 ∷ []) tail in
    let found : split_at 101 (drop (pos + 1) buf) ≡ some text =
      ap (split_at 101) back ∙ split_at-text 101 text tail (print_i64-All i) (omega arith) in
    let stop : pos + 1 + length text + 1 ≡ pos + length (105 ∷ (text ++ (101 ∷ []))) =
      omega (arith, length-append text (101 ∷ [])) in
    int_steps buf pos text i found (is_utf8-text text (print_i64-All i)) (parse_i64-print_i64 i h)
    ∙ ap (λ k. ok (int i, k)) stop

pub parse_bytes-encode_bytes :
    (b : List ℕ) (buf tail : List ℕ) (pos : ℕ)
    → length buf < u64_mod
    → At buf pos (encode_bytes b ++ tail)
    → parse_bytes buf pos ≡ ok (b, pos + length (encode_bytes b))
parse_bytes-encode_bytes b buf tail pos small at =
    let text = print_usize (length b) in
    let here : At buf pos (text ++ (58 ∷ (b ++ tail))) = at ∙ append_assoc text (58 ∷ b) tail in
    let found : split_at 58 (drop pos buf) ≡ some text =
      ap (split_at 58) here
      ∙ split_at-text 58 text (b ++ tail) (print_usize-All (length b)) (omega arith) in
    let behind : At buf (pos + length text + 1) (b ++ tail) =
      At-skip buf (pos + length text) (58 ∷ []) _ (At-skip buf pos text _ here) in
    let whole : length (encode_bytes b) ≡ length text + 1 + length b =
      omega (arith, length-append text (58 ∷ b)) in
    let inside : pos + length text + 1 + length b ≤ length buf =
      omega (arith, At-length buf pos (encode_bytes b) tail (omega arith) at) in
    let stop : pos + length text + 1 + length b ≡ pos + length (encode_bytes b) = omega arith in
    let content : take (length b) (drop (pos + length text + 1) buf) ≡ b =
      ap (take (length b)) behind ∙ take-length-append b tail in
    bytes_steps buf pos text (length b) found (is_utf8-text text (print_usize-All (length b)))
      (parse_usize-print_usize (length b) (omega arith)) inside small
    ∙ ap (λ k. ok (take (length b) (drop (pos + length text + 1) buf), k)) stop
    ∙ ap (λ x. ok (x, pos + length (encode_bytes b))) content

pub ltb_deep : (depth room : ℕ) → depth + suc room ≤ 32 → leb max_depth depth ≡ false
ltb_deep depth room h = ground arith

-- The first byte of a text, with what the parser takes it for.
pub record Head (v : Bencode) : Type 0 where
  pub byte : ℕ
  pub others : List ℕ
  pub split : encode v ≡ byte ∷ others
  pub no_end : (byte == 101) ≡ false

pub encode_bytes-head :
    (b : List ℕ)
    → (d : ℕ) × (t : List ℕ) × (encode_bytes b ≡ d ∷ t)
      × (token d ≡ Bencode.bytes_token)
      × ((d == 101) ≡ false)
encode_bytes-head b =
    let d = print_usize-Digits (length b) in
    (
      d.first,
      d.others ++ (58 ∷ b),
      ap (λ s. s ++ (58 ∷ b)) d.split,
      ground (arith, d.is_digit),
      ground (arith, d.is_digit),
    )

pub encode-Head : (v : Bencode) → Head v
unfolding encode
encode-Head (int i) = record {
  byte = 105;
  others = print_i64 i ++ (101 ∷ []);
  split = refl;
  no_end = refl;
}
encode-Head (bytes b) =
    let (d, t, e, k, n) = encode_bytes-head b in
    record { byte = d; others = t; split = e; no_end = n }
encode-Head (list l) = record {
  byte = 108;
  others = encode_items l ++ (101 ∷ []);
  split = refl;
  no_end = refl;
}
encode-Head (dict d) = record {
  byte = 100;
  others = encode_fields d ++ (101 ∷ []);
  split = refl;
  no_end = refl;
}

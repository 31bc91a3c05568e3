-- ===== src/Wire/Bencode.antt =====
-- crates/ace-wire/src/bencode.rs: bencoded values, printed and parsed. A dictionary is its entries in
-- the order of their keys; positions are offsets in the whole buffer.
pub mod Decimal
pub mod Keys
pub mod Steps
pub mod Text
pub mod Values
pub mod RoundTrip
pub mod Depth
mod Tests
use outpace.Prelude.{
  ℕ, zero, suc, ◌+◌, ◌-◌, ◌*◌, Bool, true, false, not, ◌&&◌, ◌||◌, Option, none, some, List, [],
  ◌∷◌, ◌++◌, length, take, drop, ltb, leb, ◌==◌, if◌then◌else◌, list_eq, u64_mod, checked_add,
}
use outpace.Prelude.Ints.{ℤ}
use outpace.Wire.{Result, ok, err, ◌>>=◌, truncated, invalid}
use outpace.Wire.Bencode.Decimal
use outpace.Wire.Bencode.Decimal.{split_at, is_utf8, parse_i64, parse_usize, print_i64, print_usize}

abbrev pub max_depth : ℕ
max_depth = 32

mutual
  pub data Bencode : Type 0 where
    int : ℤ → Bencode
    bytes : List ℕ → Bencode
    list : Items → Bencode
    dict : Fields → Bencode

  pub data Items : Type 0 where
    nil : Items
    cons : Bencode → Items → Items

  pub data Fields : Type 0 where
    end : Fields
    field : List ℕ → Bencode → Fields → Fields

-- `Bencode::Bytes(k).encode_into(out)`.
abbrev pub encode_bytes : List ℕ → List ℕ
encode_bytes b = print_usize (length b) ++ (58 ∷ b)

unfoldable mutual
  pub encode : Bencode → List ℕ
  encode (int i) = 105 ∷ (print_i64 i ++ (101 ∷ []))
  encode (bytes b) = encode_bytes b
  encode (list l) = 108 ∷ (encode_items l ++ (101 ∷ []))
  encode (dict d) = 100 ∷ (encode_fields d ++ (101 ∷ []))

  pub encode_items : Items → List ℕ
  encode_items nil = []
  encode_items (cons v vs) = encode v ++ encode_items vs

  pub encode_fields : Fields → List ℕ
  encode_fields end = []
  encode_fields (field k v fs) = encode_bytes k ++ (encode v ++ encode_fields fs)

-- The order of byte strings.
unfoldable pub bytes_lt : List ℕ → List ℕ → Bool
bytes_lt [] [] = false
bytes_lt [] (y ∷ ys) = true
bytes_lt (x ∷ xs) [] = false
bytes_lt (x ∷ xs) (y ∷ ys) = ltb x y || ((x == y) && bytes_lt xs ys)

-- `BTreeMap::insert`.
unfoldable pub insert_field : List ℕ → Bencode → Fields → Fields
unfolding bytes_lt
insert_field k v end = field k v end
insert_field k v (field j w fs) =
    if bytes_lt k j
    then field k v (field j w fs)
    else if list_eq k j
    then field k v fs
    else field j w (insert_field k v fs)

-- `get` of a dictionary.
unfoldable pub get_field : List ℕ → Fields → Option Bencode
get_field k end = none
get_field k (field j w fs) = if list_eq k j then some w else get_field k fs

unfoldable pub get : Bencode → List ℕ → Option Bencode
unfolding get_field
get (dict d) key = get_field key d
get _ key = none

unfoldable pub as_int : Bencode → Option ℤ
as_int (int i) = some i
as_int _ = none

unfoldable pub as_bytes : Bencode → Option (List ℕ)
as_bytes (bytes b) = some b
as_bytes _ = none

-- The arms of the match on the first byte.
pub data Token : Type 0 where
  int_token list_token dict_token bytes_token other_token : Token

abbrev pub token : ℕ → Token
token b =
    if b == 105
    then int_token
    else if b == 108
    then list_token
    else if b == 100
    then dict_token
    else if leb 48 b && leb b 57
    then bytes_token
    else other_token

unfoldable pub parse_int : List ℕ → ℕ → Result (Bencode × ℕ)
parse_int buf pos = elim (split_at 101 (drop (pos + 1) buf)) [
  | none ↦ err truncated
  | some s ↦ if not (is_utf8 s) then err (invalid "int utf8") else elim (parse_i64 s) [
    | none ↦ err (invalid "int parse")
    | some i ↦ ok (int i, pos + 1 + length s + 1)
  ]
]

-- The key or value and the position behind it.
unfoldable pub parse_bytes : List ℕ → ℕ → Result (List ℕ × ℕ)
parse_bytes buf pos = elim (split_at 58 (drop pos buf)) [
  | none ↦ err truncated
  | some s ↦ elim (if is_utf8 s then parse_usize s else none) [
    | none ↦ err (invalid "bad length")
    | some len ↦
        let start = pos + length s + 1 in
        elim (checked_add start len) [
          | none ↦ err (invalid "len overflow")
          | some stop ↦
              if ltb (length buf) stop then err truncated else ok (take len (drop start buf), stop)
        ]
  ]
]

-- The parser, on fuel: each call takes one, and the buffer's length bounds the calls.
unfoldable mutual
  unfolding parse_int parse_bytes insert_field

  pub parse_value : ℕ → List ℕ → (pos depth : ℕ) → Result (Bencode × ℕ)
  parse_value zero buf pos depth = err truncated
  parse_value (suc fuel) buf pos depth = elim (drop pos buf) [
    | [] ↦ err truncated
    | b ∷ _ ↦ elim (token b) [
      | int_token ↦ parse_int buf pos
      | list_token ↦ elim (leb max_depth depth) [
        | true ↦ err (invalid "bencode nesting too deep")
        | false ↦ (do (items, n) ← parse_list fuel buf (pos + 1) depth; ok (list items, n))
      ]
      | dict_token ↦ elim (leb max_depth depth) [
        | true ↦ err (invalid "bencode nesting too deep")
        | false ↦ (do (map, n) ← parse_dict fuel buf (pos + 1) depth end; ok (dict map, n))
      ]
      | bytes_token ↦ (do (b', n) ← parse_bytes buf pos; ok (bytes b', n))
      | other_token ↦ err (invalid "unexpected bencode token")
    ]
  ]

  -- The loop from the position `i` on.
  pub parse_list : ℕ → List ℕ → (i depth : ℕ) → Result (Items × ℕ)
  parse_list zero buf i depth = err truncated
  parse_list (suc fuel) buf i depth = elim (drop i buf) [
    | [] ↦ err truncated
    | b ∷ _ ↦ elim (b == 101) [
      | true ↦ ok (nil, i + 1)
      | false ↦ (do
        (v, n) ← parse_value fuel buf i (depth + 1)
        (items, m) ← parse_list fuel buf n depth
        ok (cons v items, m))
    ]
  ]

  pub parse_dict : ℕ → List ℕ → (i depth : ℕ) → Fields → Result (Fields × ℕ)
  parse_dict zero buf i depth map = err truncated
  parse_dict (suc fuel) buf i depth map = elim (drop i buf) [
    | [] ↦ err truncated
    | b ∷ _ ↦ elim (b == 101) [
      | true ↦ ok (map, i + 1)
      | false ↦ (do
        (key, n) ← parse_bytes buf i
        (v, m) ← parse_value fuel buf n (depth + 1)
        parse_dict fuel buf m depth (insert_field key v map))
    ]
  ]

abbrev pub parse_fuel : List ℕ → ℕ
parse_fuel buf = 2 * length buf + 2

unfoldable pub parse_prefix : List ℕ → Result (Bencode × ℕ)
unfolding parse_value
parse_prefix buf = parse_value (parse_fuel buf) buf 0 0

unfoldable pub parse : List ℕ → Result Bencode
unfolding parse_value
parse buf = do
  (v, n) ← parse_value (parse_fuel buf) buf 0 0
  if not (n == length buf) then err (invalid "trailing bytes") else ok v

-- ===== src/Wire/Bencode/Keys.antt =====
-- crates/ace-wire/src/bencode.rs: dictionaries whose keys arrive in ascending order.
use outpace.Prelude.{ℕ, ◌≡◌, refl, ap, true, false, List, [], ◌∷◌, list_eq, arith}
use outpace.Wire.Bencode.{Bencode, Fields, end, field, bytes_lt, insert_field}

pub bytes_lt_trans :
    (xs ys zs : List ℕ) → bytes_lt xs ys ≡ true → bytes_lt ys zs ≡ true → bytes_lt xs zs ≡ true
unfolding bytes_lt
bytes_lt_trans [] [] zs p q = absurd (cc p)
bytes_lt_trans [] (y ∷ ys) [] p q = absurd (cc q)
bytes_lt_trans [] (y ∷ ys) (z ∷ zs) p q = refl
bytes_lt_trans (x ∷ xs) [] zs p q = absurd (cc p)
bytes_lt_trans (x ∷ xs) (y ∷ ys) [] p q = absurd (cc q)
bytes_lt_trans (x ∷ xs) (y ∷ ys) (z ∷ zs) p q = ground (arith, bytes_lt_trans xs ys zs)

pub bytes_lt_asymm : (xs ys : List ℕ) → bytes_lt xs ys ≡ true → bytes_lt ys xs ≡ false
unfolding bytes_lt
bytes_lt_asymm [] [] p = refl
bytes_lt_asymm [] (y ∷ ys) p = refl
bytes_lt_asymm (x ∷ xs) [] p = absurd (cc p)
bytes_lt_asymm (x ∷ xs) (y ∷ ys) p = ground (arith, bytes_lt_asymm xs ys)

bytes_lt-list_eq : (xs ys : List ℕ) → bytes_lt xs ys ≡ true → list_eq ys xs ≡ false
unfolding bytes_lt
bytes_lt-list_eq [] [] p = absurd (cc p)
bytes_lt-list_eq [] (y ∷ ys) p = refl
bytes_lt-list_eq (x ∷ xs) [] p = absurd (cc p)
bytes_lt-list_eq (x ∷ xs) (y ∷ ys) p = ground (arith, bytes_lt-list_eq xs ys)

-- All keys are below a key.
abbrev pub AllBelow : List ℕ → Fields → Type 0
AllBelow k end = Unit {0}
AllBelow k (field j v fs) = (bytes_lt j k ≡ true) × AllBelow k fs

abbrev pub append_fields : Fields → Fields → Fields
append_fields end gs = gs
append_fields (field j v fs) gs = field j v (append_fields fs gs)

-- A key above the others goes to the end.
pub insert_field-AllBelow :
    (k : List ℕ) (v : Bencode) (fs : Fields)
    → AllBelow k fs
    → insert_field k v fs ≡ append_fields fs (field k v end)
unfolding insert_field
insert_field-AllBelow k v end h = refl
insert_field-AllBelow k v (field j w fs) h =
    let apart = bytes_lt_asymm j k h.0 in
    let other = bytes_lt-list_eq j k h.0 in
    rw (apart, other) (ap (field j w) (insert_field-AllBelow k v fs h.1))

pub AllBelow-snoc :
    (k j : List ℕ) (v : Bencode) (fs : Fields)
    → AllBelow j fs
    → bytes_lt j k ≡ true
    → AllBelow k (append_fields fs (field j v end))
AllBelow-snoc k j v end h lt = (lt, tt)
AllBelow-snoc k j v (field i w fs) h lt =
    (bytes_lt_trans i j k h.0 lt, AllBelow-snoc k j v fs h.1 lt)

pub append_fields-snoc :
    (fs gs : Fields) (k : List ℕ) (v : Bencode)
    → append_fields (append_fields fs (field k v end)) gs ≡ append_fields fs (field k v gs)
append_fields-snoc end gs k v = refl
append_fields-snoc (field j w fs) gs k v = ap (field j w) (append_fields-snoc fs gs k v)

pub append_fields-end : (fs : Fields) → append_fields fs end ≡ fs
append_fields-end end = refl
append_fields-end (field j w fs) = ap (field j w) (append_fields-end fs)

-- ===== src/Prelude/Maps.antt =====
-- Rust's `BTreeMap<u64, V>` as an association list in ascending order of the keys, and
-- `BTreeSet<u64>` as the map into the unit type. `Between lo hi` is its invariant: the keys
-- ascend strictly, from `lo` on and below `hi`.
use Prim.Native.Nat.{ℕ, suc, ◌-◌, ◌≤◌, ◌<◌}
use mathlib.Core.Path.{◌≡◌, refl}
use mathlib.Core.List.{List, [], ◌∷◌}
use mathlib.Core.Option.{Option, none, some}
use mathlib.Core.Bool.{Bool, true, not}
use native.Mathlib.Omega.{arith}
use mathlib.Core.Logic.{inl, inr}
use outpace.Prelude.Tests.{Bool-cases, ltb, ◌==◌, if◌then◌else◌, is_some}
use outpace.Prelude.Lists.{length}

abbrev pub Map {ℓ} : Type ℓ → Type ℓ
Map V = List (ℕ × V)

module _ {ℓ} {V : Type ℓ} where
  unfoldable pub lookup : ℕ → Map V → Option V
  lookup k [] = none
  lookup k ((j, v) ∷ m) = if j == k then some v else lookup k m

  unfoldable pub insert : ℕ → V → Map V → Map V
  insert k v [] = (k, v) ∷ []
  insert k v ((j, w) ∷ m) =
      if ltb k j then (k, v) ∷ (j, w) ∷ m else if k == j then (k, v) ∷ m else (j, w) ∷ insert k v m

  -- `retain` by a test of the key.
  unfoldable pub retain : (ℕ → Bool) → Map V → Map V
  retain p [] = []
  retain p ((j, v) ∷ m) = if p j then (j, v) ∷ retain p m else retain p m

  unfoldable pub remove : ℕ → Map V → Map V
  unfolding retain
  remove k m = retain (λ j. not (j == k)) m

  unfoldable pub contains_key : ℕ → Map V → Bool
  unfolding lookup
  contains_key k m = is_some (lookup k m)

  abbrev pub keys : Map V → List ℕ
  keys [] = []
  keys ((k, v) ∷ m) = k ∷ keys m

  abbrev pub Between : ℕ → ℕ → Map V → Type 0
  Between lo hi [] = Unit {0}
  Between lo hi ((k, v) ∷ m) = (lo ≤ k) × (k < hi) × Between (suc k) hi m

  pub lookup-insert :
      (q k : ℕ) (v : V) (m : Map V)
      → lookup q (insert k v m) ≡ (if k == q then some v else lookup q m)
  unfolding lookup insert
  lookup-insert q k v [] = refl
  lookup-insert q k v ((j, w) ∷ m) = ground (arith, lookup-insert q k v m)

  pub lookup-retain :
      (p : ℕ → Bool) (q : ℕ) (m : Map V)
      → lookup q (retain p m) ≡ (if p q then lookup q m else none)
  unfolding lookup retain
  lookup-retain p q [] = ground arith
  lookup-retain p q ((j, w) ∷ m) = ground (arith, lookup-retain p q m)

  pub lookup-remove :
      (k q : ℕ) (m : Map V) → lookup q (remove k m) ≡ (if q == k then none else lookup q m)
  unfolding remove
  lookup-remove k q m = ground (arith, lookup-retain (λ j. not (j == k)) q m)

  pub Between-mono :
      (lo hi lo' hi' : ℕ) (m : Map V) → lo' ≤ lo → hi ≤ hi' → Between lo hi m → Between lo' hi' m
  Between-mono lo hi lo' hi' [] p q b = tt
  Between-mono lo hi lo' hi' ((k, v) ∷ m) p q b =
      (omega arith, omega arith, Between-mono (suc k) hi (suc k) hi' m (omega arith) q b.2)

  pub insert-Between :
      (lo hi : ℕ) (k : ℕ) (v : V) (m : Map V)
      → lo ≤ k
      → k < hi
      → Between lo hi m
      → Between lo hi (insert k v m)
  unfolding insert
  insert-Between lo hi k v [] p q b = (p, q, tt)
  insert-Between lo hi k v ((j, w) ∷ m) p q b = ground (arith, insert-Between (suc j) hi k v m)

  -- What `retain` leaves stays in order, and lies above `lo` if the test says so.
  pub retain-Between :
      (lo hi : ℕ) (lo' : ℕ) (p : ℕ → Bool) (m : Map V)
      → ((k : ℕ) → lo ≤ k → p k ≡ true → lo' ≤ k)
      → Between lo hi m
      → Between lo' hi (retain p m)
  unfolding retain
  retain-Between lo hi lo' p [] h b = tt
  retain-Between lo hi lo' p ((j, w) ∷ m) h b = elim (Bool-cases (p j)) [
    | inl kept ↦
        rw kept (h j b.0 kept, b.1, retain-Between (suc j) hi (suc j) p m (λ k above t. above) b.2)
    | inr gone ↦ rw gone (retain-Between (suc j) hi lo' p m (λ k above t. h k (omega arith) t) b.2)
  ]

  pub remove-Between :
      (lo hi : ℕ) (k : ℕ) (m : Map V) → Between lo hi m → Between lo hi (remove k m)
  unfolding remove
  remove-Between lo hi k m b = retain-Between lo hi lo (λ j. not (j == k)) m (λ j above t. above) b

  -- A map with its keys between `lo` and `hi` holds at most `hi - lo` entries.
  pub length-Between : (lo hi : ℕ) (m : Map V) → Between lo hi m → length m ≤ hi - lo
  length-Between lo hi [] b = omega arith
  length-Between lo hi ((k, v) ∷ m) b = omega (arith, length-Between (suc k) hi m b.2)

  pub lookup-Between :
      (lo hi : ℕ) (k : ℕ) (m : Map V) {v : V}
      → Between lo hi m
      → lookup k m ≡ some v
      → (lo ≤ k) × (k < hi)
  unfolding lookup
  lookup-Between lo hi k [] b e = absurd (cc e)
  lookup-Between lo hi k ((j, w) ∷ m) {v} b e =
      ground (arith, lookup-Between (suc j) hi k m {v = v})

  -- A lower end that is no key can be left out.
  pub Between-suc :
      (lo hi : ℕ) (m : Map V) → Between lo hi m → lookup lo m ≡ none → Between (suc lo) hi m
  unfolding lookup
  Between-suc lo hi [] b e = tt
  Between-suc lo hi ((j, w) ∷ m) b e = (ground arith, b.1, b.2)

  pub length-retain-le : (p : ℕ → Bool) (m : Map V) → length (retain p m) ≤ length m
  unfolding retain
  length-retain-le p [] = omega arith
  length-retain-le p ((j, w) ∷ m) = ground (arith, length-retain-le p m)

  pub length-remove-lt :
      (k : ℕ) (m : Map V) {v : V} → lookup k m ≡ some v → length (remove k m) < length m
  unfolding lookup remove
  length-remove-lt k [] e = absurd (cc e)
  length-remove-lt k ((j, w) ∷ m) {v} e =
      ground (arith, length-retain-le (λ j. not (j == k)) m, length-remove-lt k m {v = v})

  pub lookup_of_empty : (k : ℕ) (m : Map V) → length m ≤ 0 → lookup k m ≡ none
  unfolding lookup
  lookup_of_empty k [] h = refl
  lookup_of_empty k ((j, w) ∷ m) h = absurd (omega arith)

  pub lookup_below : (lo hi k : ℕ) (m : Map V) → Between lo hi m → k < lo → lookup k m ≡ none
  unfolding lookup
  lookup_below lo hi k [] b h = refl
  lookup_below lo hi k ((j, w) ∷ m) b h =
      ground (arith, lookup_below (suc j) hi k m b.2 (omega arith))

  pub lookup_above : (lo hi k : ℕ) (m : Map V) → Between lo hi m → hi ≤ k → lookup k m ≡ none
  unfolding lookup
  lookup_above lo hi k [] b h = refl
  lookup_above lo hi k ((j, w) ∷ m) b h =
      ground (arith, lookup_above (suc j) hi k m b.2 (omega arith))

  -- An insertion makes a map longer by one if the key is new.
  pub length-insert :
      (lo hi k : ℕ) (v : V) (m : Map V)
      → Between lo hi m
      → length (insert k v m) ≡ (if contains_key k m then length m else suc (length m))
  unfolding lookup insert contains_key
  length-insert lo hi k v [] b = refl
  length-insert lo hi k v ((j, w) ∷ m) b =
      ground (arith, length-insert (suc j) hi k v m b.2, lookup_below (suc j) hi k m b.2)

  pub length-insert-le : (k : ℕ) (v : V) (m : Map V) → length (insert k v m) ≤ suc (length m)
  unfolding insert
  length-insert-le k v [] = omega arith
  length-insert-le k v ((j, w) ∷ m) = ground (arith, length-insert-le k v m)

  pub contains_key-insert :
      (q k : ℕ) (v : V) (m : Map V)
      → contains_key q (insert k v m) ≡ (if k == q then true else contains_key q m)
  unfolding contains_key
  contains_key-insert q k v m = ground (arith, lookup-insert q k v m)

abbrev pub Set : Type 0
Set = Map (Unit {0})

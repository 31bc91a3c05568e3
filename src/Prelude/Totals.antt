-- ===== src/Prelude/Totals.antt =====
-- Sums over the values of a map, and maps that have the same keys.
use Prim.Native.Nat.{ℕ, suc, ◌+◌, ◌≤◌}
use mathlib.Core.Path.{◌≡◌, refl}
use mathlib.Core.Logic.{◌⊎◌, inl, inr}
use mathlib.Core.List.{[], ◌∷◌}
use mathlib.Core.Option.{Option, none, some}
use mathlib.Core.Bool.{Bool, true, not}
use native.Mathlib.Omega.{arith}
use outpace.Prelude.Tests.{◌==◌}
use outpace.Prelude.Maps.{
  Map, keys, lookup, insert, retain, remove, contains_key, Between, Between-mono, lookup_below,
}

module _ {ℓ} {V : Type ℓ} (size : V → ℕ) where
  abbrev pub total : Map V → ℕ
  total [] = 0
  total ((k, v) ∷ m) = size v + total m

  -- The size of a value that may be missing.
  abbrev pub size_or_zero : Option V → ℕ
  size_or_zero none = 0
  size_or_zero (some v) = size v

  -- An insertion replaces the size of the old value by that of the new one.
  pub total-insert :
      (lo hi k : ℕ) (v : V) (m : Map V)
      → Between lo hi m
      → total (insert k v m) + size_or_zero (lookup k m) ≡ total m + size v
  unfolding insert lookup
  total-insert lo hi k v [] b = omega arith
  total-insert lo hi k v ((j, w) ∷ m) b =
      ground (arith, total-insert (suc j) hi k v m b.2, lookup_below (suc j) hi k m b.2)

  pub lookup-le-total : (k : ℕ) (m : Map V) → size_or_zero (lookup k m) ≤ total m
  unfolding lookup
  lookup-le-total k [] = omega arith
  lookup-le-total k ((j, w) ∷ m) = ground (arith, lookup-le-total k m)

module _ {ℓ} {V : Type ℓ} where
  retain_all :
      (p : ℕ → Bool) (lo hi : ℕ) (m : Map V)
      → ((k : ℕ) → lo ≤ k → p k ≡ true)
      → Between lo hi m
      → retain p m ≡ m
  unfolding retain
  retain_all p lo hi [] h b = refl
  retain_all p lo hi ((j, w) ∷ m) h b =
      ground (arith, h j, retain_all p (suc j) hi m (λ k q. h k (omega arith)) b.2)

  -- Without its lowest entry, a map is its rest.
  pub remove_lowest :
      (lo hi k : ℕ) (v : V) (m : Map V) → Between lo hi ((k, v) ∷ m) → remove k ((k, v) ∷ m) ≡ m
  unfolding remove retain
  remove_lowest lo hi k v m b =
      ground (arith, retain_all (λ j. not (j == k)) (suc k) hi m (λ j q. ground arith) b.2)

  pub Map-cases : (m : Map V) → (m ≡ []) ⊎ ((k : ℕ) × (v : V) × (r : Map V) × (m ≡ (k, v) ∷ r))
  Map-cases [] = inl refl
  Map-cases ((k, v) ∷ r) = inr (k, v, r, refl)

  pub keys-insert_known :
      (lo hi k : ℕ) (v : V) (m : Map V)
      → Between lo hi m
      → contains_key k m ≡ true
      → keys (insert k v m) ≡ keys m
  unfolding insert contains_key lookup
  keys-insert_known lo hi k v [] b h = absurd (cc h)
  keys-insert_known lo hi k v ((j, w) ∷ m) b h =
      ground (arith, keys-insert_known (suc j) hi k v m b.2, lookup_below (suc j) hi k m b.2)

module _ {ℓ κ} {V : Type ℓ} {W : Type κ} where
  pub keys-insert :
      (k : ℕ) (v : V) (w : W) (m : Map V) (n : Map W)
      → keys m ≡ keys n
      → keys (insert k v m) ≡ keys (insert k w n)
  unfolding insert
  keys-insert k v w [] [] e = refl
  keys-insert k v w [] ((j, x) ∷ n) e = absurd (cc e)
  keys-insert k v w ((j, x) ∷ m) [] e = absurd (cc e)
  keys-insert k v w ((i, x) ∷ m) ((j, y) ∷ n) e = ground (arith, keys-insert k v w m n)

  pub keys-Between :
      (lo hi : ℕ) (m : Map V) (n : Map W) → keys m ≡ keys n → Between lo hi m → Between lo hi n
  keys-Between lo hi [] [] e b = tt
  keys-Between lo hi [] ((j, x) ∷ n) e b = absurd (cc e)
  keys-Between lo hi ((j, x) ∷ m) [] e b = absurd (cc e)
  keys-Between lo hi ((i, x) ∷ m) ((j, y) ∷ n) e b =
      let same : i ≡ j = cc e in
      let rest : keys m ≡ keys n = cc e in
      (
        omega arith,
        omega arith,
        keys-Between (suc j) hi m n rest
            (Between-mono (suc i) hi (suc j) hi m (omega arith) (omega arith) b.2),
      )

  pub keys-contains :
      (q : ℕ) (m : Map V) (n : Map W) → keys m ≡ keys n → contains_key q m ≡ contains_key q n
  unfolding contains_key lookup
  keys-contains q [] [] e = refl
  keys-contains q [] ((j, x) ∷ n) e = absurd (cc e)
  keys-contains q ((j, x) ∷ m) [] e = absurd (cc e)
  keys-contains q ((i, x) ∷ m) ((j, y) ∷ n) e = ground (arith, keys-contains q m n)

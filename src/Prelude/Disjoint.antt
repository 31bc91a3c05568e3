-- ===== src/Prelude/Disjoint.antt =====
-- The room that two maps with no common key take together.
use Prim.Native.Nat.{ℕ, suc, ◌+◌, ◌-◌, ◌≤◌, ◌<◌}
use mathlib.Core.Path.{◌≡◌, refl, ◌∙◌}
use mathlib.Core.List.{[], ◌∷◌}
use mathlib.Core.Option.{none, some}
use mathlib.Core.Bool.{false}
use native.Mathlib.Omega.{arith}
use outpace.Prelude.Lists.{length}
use outpace.Prelude.Maps.{
  Map, Set, lookup, insert, contains_key, contains_key-insert, length-insert, Between, Between-mono,
  insert-Between, length-Between, lookup_below, lookup-Between,
}

module _ {ℓ} {W : Type ℓ} where
  key_set : Map W → Set
  key_set [] = []
  key_set ((k, v) ∷ m) = (k, tt) ∷ key_set m

  key_set-Between : (lo hi : ℕ) (n : Map W) → Between lo hi n → Between lo hi (key_set n)
  unfolding key_set
  key_set-Between lo hi [] b = tt
  key_set-Between lo hi ((k, v) ∷ n) b = (b.0, b.1, key_set-Between (suc k) hi n b.2)

  length-key_set : (n : Map W) → length (key_set n) ≡ length n
  unfolding key_set
  length-key_set [] = refl
  length-key_set ((k, v) ∷ n) = omega (arith, length-key_set n)

  contains-key_set : (q : ℕ) (n : Map W) → contains_key q (key_set n) ≡ contains_key q n
  unfolding key_set contains_key lookup
  contains-key_set q [] = refl
  contains-key_set q ((k, v) ∷ n) = ground (arith, contains-key_set q n)

module _ {ℓ} {V : Type ℓ} where
  pub head_found : (k : ℕ) (v : V) (m : Map V) → lookup k ((k, v) ∷ m) ≡ some v
  unfolding lookup
  head_found k v m = ground arith

  pub tail_found :
      (lo hi k q : ℕ) (v : V) (m : Map V) {w : V}
      → Between lo hi m
      → k < lo
      → lookup q m ≡ some w
      → lookup q ((k, v) ∷ m) ≡ some w
  unfolding lookup
  tail_found lo hi k q v m {w} b h e = ground (arith, lookup-Between lo hi q m {v = w} b e)

module _ {ℓ κ} {V : Type ℓ} {W : Type κ} where
  union : Map V → Map W → Set
  union [] n = key_set n
  union ((k, v) ∷ m) n = insert k tt (union m n)

  union-Between :
      (lo hi : ℕ) (m : Map V) (n : Map W)
      → Between lo hi m
      → Between lo hi n
      → Between lo hi (union m n)
  unfolding union
  union-Between lo hi [] n b c = key_set-Between lo hi n c
  union-Between lo hi ((k, v) ∷ m) n b c =
      insert-Between lo hi k tt (union m n) b.0 b.1 (
        union-Between lo hi m n (Between-mono (suc k) hi lo hi m (omega arith) (omega arith) b.2) c)

  contains-union :
      (q : ℕ) (m : Map V) (n : Map W)
      → contains_key q m ≡ false
      → contains_key q n ≡ false
      → contains_key q (union m n) ≡ false
  unfolding union contains_key lookup
  contains-union q [] n a b = contains-key_set q n ∙ b
  contains-union q ((k, v) ∷ m) n a b =
      ground (arith, contains_key-insert q k tt (union m n), contains-union q m n)

  length-union :
      (lo hi : ℕ) (m : Map V) (n : Map W)
      → Between lo hi m
      → Between lo hi n
      → ((k : ℕ) (v : V) → lookup k m ≡ some v → lookup k n ≡ none)
      → length (union m n) ≡ length m + length n
  unfolding union
  length-union lo hi [] n b c apart = omega (arith, length-key_set n)
  length-union lo hi ((k, v) ∷ m) n b c apart =
      let tail : Between lo hi m =
        Between-mono (suc k) hi lo hi m (omega arith) (omega arith) b.2 in
      let fresh : contains_key k (union m n) ≡ false =
        contains-union k m n
          (unfold contains_key in ground (arith, lookup_below (suc k) hi k m b.2 (omega arith)))
          (unfold contains_key in ground (arith, apart k v (head_found k v m))) in
      rw (length-insert lo hi k tt (union m n) (union-Between lo hi m n tail c), fresh)
        (omega (
          arith,
          length-union lo hi m n tail c
              (λ q w e. apart q w (tail_found (suc k) hi k q v m b.2 (omega arith) e)),
        ))

  -- Maps with no common key, both between `lo` and `hi`, have at most `hi - lo` entries together.
  pub length_apart :
      (lo hi : ℕ) (m : Map V) (n : Map W)
      → Between lo hi m
      → Between lo hi n
      → ((k : ℕ) (v : V) → lookup k m ≡ some v → lookup k n ≡ none)
      → length m + length n ≤ hi - lo
  length_apart lo hi m n b c apart = omega (
    arith,
    length-union lo hi m n b c apart,
    length-Between lo hi (union m n) (union-Between lo hi m n b c),
  )

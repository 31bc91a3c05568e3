-- ===== src/Swarm/Store/Eviction.antt =====
-- crates/ace-swarm/src/store.rs: eviction takes the lowest pieces away, one after another, and stops
-- in the budget.
use outpace.Prelude.{
  ℕ, zero, suc, ◌≤◌, ◌≡◌, refl, ap, ◌∙◌, subst, true, false, none, some, List, [], ◌∷◌, length, ltb,
  Bool-cases, Option-cases, inl, inr, ◌⊎◌, u64_mod, arith, if◌then◌else◌, max,
}
use outpace.Prelude.Maps.{Map, lookup, Between, lookup_below}
use outpace.Prelude.Totals.{total, Map-cases}
use outpace.Swarm.Store
use outpace.Swarm.Store.{PieceStore}
use outpace.Swarm.Memory.{chunk_bytes}
use outpace.Swarm.Store.Accounts.{
  IsBalanced, without_lowest, without_lowest-IsBalanced, evict_lowest_tracked-some,
  evict_lowest_tracked-none,
}

-- `t` is what is left of the store when its lowest pieces have left, one after another.
pub data Left (t : PieceStore) : PieceStore → Type 0 where
  stay : Left t t
  drop_lowest :
      {s : PieceStore} (k : ℕ) (chunks : Map (List ℕ)) (ps : Map (Map (List ℕ)))
      → s.backend.pieces ≡ (k, chunks) ∷ ps
      → Left t (without_lowest s k chunks ps)
      → Left t s

pub Left-IsBalanced : {t s : PieceStore} → Left t s → IsBalanced s → IsBalanced t
Left-IsBalanced stay v = v
Left-IsBalanced (drop_lowest k chunks ps e more) v =
    Left-IsBalanced more (without_lowest-IsBalanced k chunks ps v e)

-- The parts that no eviction touches.
pub record SameShape (s t : PieceStore) : Type 0 where
  pub piece_length : t.piece_length ≡ s.piece_length
  pub chunk_length : t.chunk_length ≡ s.chunk_length
  pub max_bytes : t.max_bytes ≡ s.max_bytes
  pub retention : t.retention ≡ s.retention

pub Left-SameShape : {t s : PieceStore} → Left t s → SameShape s t
Left-SameShape stay = record {
  piece_length = refl;
  chunk_length = refl;
  max_bytes = refl;
  retention = refl;
}
Left-SameShape (drop_lowest k chunks ps e more) =
    let m = Left-SameShape more in
    record {
      piece_length = m.piece_length;
      chunk_length = m.chunk_length;
      max_bytes = m.max_bytes;
      retention = m.retention;
    }

lookup_floor :
    (floor j : ℕ) (chunks : Map (List ℕ)) (ps m : Map (Map (List ℕ))) (k : ℕ)
    → m ≡ (j, chunks) ∷ ps
    → Between 0 u64_mod ((j, chunks) ∷ ps)
    → (if ltb k floor then none else lookup k ps)
      ≡ (if ltb k (max floor (suc j)) then none else lookup k m)
unfolding lookup
lookup_floor floor j chunks ps m k e b =
    rw e (ground (arith, lookup_below (suc j) u64_mod k ps b.2))

-- What is left is the old pieces from a floor on.
pub Left-floor :
    {t s : PieceStore}
    → Left t s
    → IsBalanced s
    → (floor : ℕ) × ((k : ℕ)
        → lookup k t.backend.pieces ≡ (if ltb k floor then none else lookup k s.backend.pieces))
Left-floor stay v = (0, λ k. ground arith)
Left-floor {s} (drop_lowest j chunks ps e more) v =
    let (floor, same) = Left-floor more (without_lowest-IsBalanced j chunks ps v e) in
    let b : Between 0 u64_mod ((j, chunks) ∷ ps) = subst (Between 0 u64_mod) e v.ordered in
    (max floor (suc j), λ k. same k ∙ lookup_floor floor j chunks ps s.backend.pieces k e b)

-- The turns of the two loops.
pub over_budget_turn :
    (fuel : ℕ) {s : PieceStore} {k : ℕ} {chunks : Map (List ℕ)} {ps : Map (Map (List ℕ))}
    → IsBalanced s
    → ltb s.max_bytes s.cur_bytes ≡ true
    → s.backend.pieces ≡ (k, chunks) ∷ ps
    → Store.evict_over_budget (suc fuel) s
      ≡ Store.evict_over_budget fuel (without_lowest s k chunks ps)
unfolding Store.evict_over_budget
over_budget_turn fuel {s} v over e = ground (arith, evict_lowest_tracked-some v e)

pub over_budget_stop :
    (fuel : ℕ) {s : PieceStore}
    → ltb s.max_bytes s.cur_bytes ≡ false
    → Store.evict_over_budget fuel s ≡ s
unfolding Store.evict_over_budget
over_budget_stop zero within = refl
over_budget_stop (suc fuel) {s} within = rw (within, Store.evict_over_budget) refl

aged_turn :
    (fuel age newest : ℕ) {s : PieceStore} {k : ℕ} {chunks : Map (List ℕ)} {ps : Map (Map (List ℕ))}
    → IsBalanced s
    → Store.is_aged s.first_seen age newest ≡ true
    → s.backend.pieces ≡ (k, chunks) ∷ ps
    → Store.evict_aged (suc fuel) age newest s
      ≡ Store.evict_aged fuel age newest (without_lowest s k chunks ps)
unfolding Store.evict_aged
aged_turn fuel age newest {s} v old e = ground (arith, evict_lowest_tracked-some v e)

aged_stop :
    (fuel age newest : ℕ) {s : PieceStore}
    → Store.is_aged s.first_seen age newest ≡ false
    → Store.evict_aged fuel age newest s ≡ s
unfolding Store.evict_aged
aged_stop zero age newest young = refl
aged_stop (suc fuel) age newest {s} young = rw (young, Store.evict_aged) refl

pub empty_in_budget :
    {s : PieceStore} → IsBalanced s → s.backend.pieces ≡ [] → ltb s.max_bytes s.cur_bytes ≡ false
empty_in_budget {s} v e =
    let none_left : total chunk_bytes s.backend.pieces ≡ 0 = ap (total chunk_bytes) e in
    let nothing : s.cur_bytes ≡ 0 = v.counted ∙ none_left in ground arith

aged_dry :
    (fuel age newest : ℕ) {s : PieceStore}
    → Store.is_aged s.first_seen age newest ≡ true
    → s.backend.pieces ≡ []
    → Store.evict_aged (suc fuel) age newest s ≡ s
unfolding Store.evict_aged
aged_dry fuel age newest {s} old e = ground (arith, evict_lowest_tracked-none {s = s} e)

-- Both loops leave a store in that way; the first one ends in the budget.
pub evict_over_budget-Left :
    (fuel : ℕ) (s : PieceStore)
    → IsBalanced s
    → length s.backend.pieces ≤ fuel
    → Left (Store.evict_over_budget fuel s) s
      × ((Store.evict_over_budget fuel s).cur_bytes ≤ s.max_bytes)
evict_over_budget-Left zero s v h = elim (Map-cases s.backend.pieces) [
  | inl e ↦
      let within = empty_in_budget v e in rw (over_budget_stop zero within) (stay, ground arith)
  | inr (k, chunks, ps, e) ↦ absurd (omega (arith, ap length e))
]
evict_over_budget-Left (suc fuel) s v h = elim (Bool-cases (ltb s.max_bytes s.cur_bytes)) [
  | inr within ↦ rw (over_budget_stop (suc fuel) within) (stay, ground arith)
  | inl over ↦ elim (Map-cases s.backend.pieces) [
    | inl e ↦ absurd (let within = empty_in_budget v e in cc)
    | inr (k, chunks, ps, e) ↦
        let (left, small) =
          evict_over_budget-Left fuel (without_lowest s k chunks ps)
            (without_lowest-IsBalanced k chunks ps v e) (omega (arith, ap length e)) in
        rw (over_budget_turn fuel v over e) (drop_lowest k chunks ps e left, small)
  ]
]

evict_aged-Left :
    (fuel age newest : ℕ) (s : PieceStore)
    → IsBalanced s
    → length s.backend.pieces ≤ fuel
    → Left (Store.evict_aged fuel age newest s) s
evict_aged-Left zero age newest s v h = unfold Store.evict_aged in stay
evict_aged-Left (suc fuel) age newest s v h =
    elim (Bool-cases (Store.is_aged s.first_seen age newest)) [
      | inr young ↦ rw (aged_stop (suc fuel) age newest {s = s} young) stay
      | inl old ↦ elim (Map-cases s.backend.pieces) [
        | inl e ↦ rw (aged_dry fuel age newest {s = s} old e) stay
        | inr (k, chunks, ps, e) ↦ rw (aged_turn fuel age newest v old e) (
            drop_lowest k chunks ps e (
              evict_aged-Left fuel age newest (without_lowest s k chunks ps)
                (without_lowest-IsBalanced k chunks ps v e) (omega (arith, ap length e))))
      ]
    ]

Left-trans : {u t s : PieceStore} → Left u t → Left t s → Left u s
Left-trans a stay = a
Left-trans a (drop_lowest k chunks ps e more) = drop_lowest k chunks ps e (Left-trans a more)

Left-cur_bytes : {t s : PieceStore} → Left t s → t.cur_bytes ≤ s.cur_bytes
Left-cur_bytes stay = omega arith
Left-cur_bytes (drop_lowest k chunks ps e more) = omega (arith, Left-cur_bytes more)

pub by_age_off :
    (s : PieceStore) → (s.retention ≡ none) ⊎ (s.newest_seen ≡ none) → Store.evict_by_age s ≡ s
unfolding Store.evict_by_age
by_age_off s (inl e) = ground arith
by_age_off s (inr e) = ground arith

by_age_on :
    (s : PieceStore) {age newest : ℕ}
    → s.retention ≡ some age
    → s.newest_seen ≡ some newest
    → Store.evict_by_age s ≡ Store.evict_aged (length s.backend.pieces) age newest s
unfolding Store.evict_by_age
by_age_on s e f = ground arith

evict_by_age-Left : (s : PieceStore) → IsBalanced s → Left (Store.evict_by_age s) s
evict_by_age-Left s v = elim (Option-cases s.retention) [
  | inl e ↦ rw (by_age_off s (inl e)) stay
  | inr (age, e) ↦ elim (Option-cases s.newest_seen) [
    | inl f ↦ rw (by_age_off s (inr f)) stay
    | inr (newest, f) ↦
        rw (by_age_on s e f)
          (evict_aged-Left (length s.backend.pieces) age newest s v (omega arith))
  ]
]

-- Eviction takes the lowest pieces away and ends within the budget.
pub evict-Left :
    (s : PieceStore)
    → IsBalanced s
    → Left (Store.evict s) s × ((Store.evict s).cur_bytes ≤ s.max_bytes)
unfolding Store.evict
evict-Left s v =
    let (left, small) = evict_over_budget-Left (length s.backend.pieces) s v (omega arith) in
    let aged = evict_by_age-Left _ (Left-IsBalanced left v) in
    (Left-trans aged left, omega (arith, Left-cur_bytes aged))

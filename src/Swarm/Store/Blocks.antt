-- ===== src/Swarm/Store/Blocks.antt =====
-- crates/ace-swarm/src/store.rs: the chunks of a whole piece.
use outpace.Prelude.{
  false, ℕ, zero, suc, ◌+◌, ◌-◌, ◌*◌, ◌%◌, ◌≤◌, ◌<◌, ◌≡◌, refl, ap, ◌∙◌, ◌&&◌, none, some, List,
  length, take, drop, ltb, leb, if◌then◌else◌, u16_mod, arith, drop-drop, length-drop, length-take,
  subst,
}
use native.Mathlib.Nat.{mod-eq_of_lt}
use outpace.Prelude.Maps.{
  Map, lookup, insert, lookup-insert, Between, length-insert, contains_key, insert-Between,
  Between-mono, lookup_above,
}
use outpace.Prelude.Totals.{total, size_or_zero, total-insert}
use outpace.Swarm.Store.Serving.{collect_chunks}

-- The chunk at an index of the wire.
abbrev pub nth_chunk : (chunk_length : ℕ) → List ℕ → ℕ → List ℕ
nth_chunk chunk_length wire i = take chunk_length (drop (i * chunk_length) wire)

-- A turn of the loop, while there is a chunk left.
collect_turn :
    (fuel cl i : ℕ) (wire : List ℕ) (acc : Map (List ℕ))
    → cl ≤ length wire
    → i < u16_mod
    → collect_chunks (suc fuel) cl i wire acc
      ≡ collect_chunks fuel cl (suc i) (drop cl wire) (insert i (take cl wire) acc)
unfolding collect_chunks
collect_turn fuel cl i wire acc long small =
    let here : i % u16_mod ≡ i = mod-eq_of_lt small in ground (arith, here)

collect_stop :
    (fuel cl i : ℕ) (wire : List ℕ) (acc : Map (List ℕ))
    → length wire < cl
    → collect_chunks fuel cl i wire acc ≡ acc
unfolding collect_chunks
collect_stop zero cl i wire acc short = refl
collect_stop (suc fuel) cl i wire acc short = ground arith

nth_chunk-drop :
    (cl i q : ℕ) (wire : List ℕ)
    → i < q
    → nth_chunk cl (drop cl wire) (q - suc i) ≡ nth_chunk cl wire (q - i)
nth_chunk-drop cl i q wire later =
    let next : q - i ≡ suc (q - suc i) = omega arith in
    let step : cl + (q - suc i) * cl ≡ (q - i) * cl = rw next (omega arith) in
    ap (take cl) (drop-drop ((q - suc i) * cl) cl wire ∙ ap (λ k. drop k wire) step)

nth_chunk_first : (cl i q : ℕ) (wire : List ℕ) → i ≡ q → take cl wire ≡ nth_chunk cl wire (q - i)
nth_chunk_first cl i q wire e =
    let start : 0 ≡ (q - i) * cl =
      (let first : q - i ≡ 0 = omega arith in rw first (omega arith)) in
    ap (λ k. take cl (drop k wire)) start

pub lookup-collect_chunks :
    (fuel cl i n : ℕ) (wire : List ℕ) (acc : Map (List ℕ)) (q : ℕ)
    → 0 < cl
    → length wire ≡ n * cl
    → n ≤ fuel
    → i + n ≤ u16_mod
    → lookup q (collect_chunks fuel cl i wire acc)
      ≡ (if leb i q && ltb q (i + n) then some (nth_chunk cl wire (q - i)) else lookup q acc)
lookup-collect_chunks fuel cl i zero wire acc q pos len enough fits =
    rw (collect_stop fuel cl i wire acc (omega arith)) (ground arith)
lookup-collect_chunks zero cl i (suc n) wire acc q pos len enough fits = absurd (omega arith)
lookup-collect_chunks (suc fuel) cl i (suc n) wire acc q pos len enough fits =
    let wide : suc n * cl ≡ cl + n * cl = omega arith in
    let rest : length (drop cl wire) ≡ n * cl = omega (arith, length-drop cl wire) in
    let later =
      lookup-collect_chunks fuel cl (suc i) n (drop cl wire) (insert i (take cl wire) acc) q pos
        rest (omega arith) (omega arith) in
    rw
      (
        collect_turn fuel cl i wire acc (omega arith) (omega arith),
        later,
        lookup-insert q i (take cl wire) acc,
      )
      (ground (arith, nth_chunk-drop cl i q wire, nth_chunk_first cl i q wire))

-- The loop's keys go up to where it stops, and it counts each chunk in full.
pub collect_chunks-Between :
    (fuel cl i n : ℕ) (wire : List ℕ) (acc : Map (List ℕ))
    → 0 < cl
    → length wire ≡ n * cl
    → n ≤ fuel
    → i + n ≤ u16_mod
    → Between 0 i acc
    → Between 0 (i + n) (collect_chunks fuel cl i wire acc)
      × (total length (collect_chunks fuel cl i wire acc) ≡ total length acc + n * cl)
collect_chunks-Between fuel cl i zero wire acc pos len enough fits b =
    rw (collect_stop fuel cl i wire acc (omega arith))
      (Between-mono 0 i 0 (i + 0) acc (omega arith) (omega arith) b, omega arith)
collect_chunks-Between zero cl i (suc n) wire acc pos len enough fits b = absurd (omega arith)
collect_chunks-Between (suc fuel) cl i (suc n) wire acc pos len enough fits b =
    let wide : suc n * cl ≡ cl + n * cl = omega arith in
    let rest : length (drop cl wire) ≡ n * cl = omega (arith, length-drop cl wire) in
    let more = Between-mono 0 i 0 (suc i) acc (omega arith) (omega arith) b in
    let added = total-insert length 0 (suc i) i (take cl wire) acc more in
    let fresh : lookup i acc ≡ none = lookup_above 0 i i acc b (omega arith) in
    let sized : size_or_zero length (lookup i acc) ≡ 0 = rw fresh refl in
    let whole : length (take cl wire) ≡ cl = omega (arith, length-take cl wire) in
    let (range, count) =
      collect_chunks-Between fuel cl (suc i) n (drop cl wire) (insert i (take cl wire) acc) pos rest
        (omega arith) (omega arith)
        (insert-Between 0 (suc i) i (take cl wire) acc (omega arith) (omega arith) more) in
    let step : suc i + n ≡ i + suc n = omega arith in
    rw (collect_turn fuel cl i wire acc (omega arith) (omega arith)) (
      subst
          (λ k.
            Between 0 k
              (collect_chunks fuel cl (suc i) (drop cl wire) (insert i (take cl wire) acc)))
          step range,
      omega arith,
    )

contains_above : (i : ℕ) (m : Map (List ℕ)) → Between 0 i m → contains_key i m ≡ false
unfolding contains_key
contains_above i m b = rw (lookup_above 0 i i m b (omega arith)) refl

-- The loop adds as many entries as there are chunks.
pub length-collect_chunks :
    (fuel cl i n : ℕ) (wire : List ℕ) (acc : Map (List ℕ))
    → 0 < cl
    → length wire ≡ n * cl
    → n ≤ fuel
    → i + n ≤ u16_mod
    → Between 0 i acc
    → length (collect_chunks fuel cl i wire acc) ≡ length acc + n
length-collect_chunks fuel cl i zero wire acc pos len enough fits b =
    rw (collect_stop fuel cl i wire acc (omega arith)) (omega arith)
length-collect_chunks zero cl i (suc n) wire acc pos len enough fits b = absurd (omega arith)
length-collect_chunks (suc fuel) cl i (suc n) wire acc pos len enough fits b =
    let wide : suc n * cl ≡ cl + n * cl = omega arith in
    let rest : length (drop cl wire) ≡ n * cl = omega (arith, length-drop cl wire) in
    let more = Between-mono 0 i 0 (suc i) acc (omega arith) (omega arith) b in
    let fresh : contains_key i acc ≡ false = contains_above i acc b in
    let longer : length (insert i (take cl wire) acc) ≡ suc (length acc) =
      length-insert 0 (suc i) i (take cl wire) acc more ∙ rw fresh refl in
    let later =
      length-collect_chunks fuel cl (suc i) n (drop cl wire) (insert i (take cl wire) acc) pos rest
        (omega arith) (omega arith)
        (insert-Between 0 (suc i) i (take cl wire) acc (omega arith) (omega arith) more) in
    rw (collect_turn fuel cl i wire acc (omega arith) (omega arith)) (omega (arith, later, longer))

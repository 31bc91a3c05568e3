-- ===== src/Swarm/Store/Served.antt =====
-- crates/ace-swarm/src/store.rs: every byte of a block that is served is the store's byte at its place.
use outpace.Prelude.{
  ℕ, zero, suc, ◌+◌, ◌-◌, ◌*◌, ◌/◌, ◌%◌, ◌≤◌, ◌<◌, ◌≡◌, sym, ap, ◌∙◌, Option, none, some, List,
  ◌++◌, length, take, drop, ltb, get_elem?, get_elem?-append, get_elem?-take, get_elem?-drop,
  length-append, length-take, length-drop, Option-cases, Bool-cases, inl, inr, arith,
}
use native.Mathlib.Nat.{
  mul-add-div_right, mul-add-mod_self_right, mod-eq_of_lt, div-add-mod', div-eq_of_lt,
}
use outpace.Swarm.Store
use outpace.Swarm.Store.{PieceStore}
use outpace.Swarm.Store.Serving

abbrev pub byte_of : Option (List ℕ) → ℕ → Option ℕ
byte_of none i = none
byte_of (some bytes) i = get_elem? bytes i

-- The byte of a piece at an offset, where its chunk is there.
abbrev pub stored_byte : PieceStore → (piece offset : ℕ) → Option ℕ
stored_byte t piece offset =
    byte_of (Store.chunk t piece (offset / t.chunk_length)) (offset % t.chunk_length)

-- The chunks that are there are whole.
abbrev pub IsWhole : PieceStore → ℕ → Type 0
IsWhole t piece =
    (i : ℕ) (bytes : List ℕ) → Store.chunk t piece i ≡ some bytes → length bytes ≡ t.chunk_length

module _ (t : PieceStore) (piece : ℕ) (pos : 0 < t.chunk_length) where
  stored_byte-chunk :
      (i k : ℕ) (bytes : List ℕ)
      → k < t.chunk_length
      → Store.chunk t piece i ≡ some bytes
      → stored_byte t piece (i * t.chunk_length + k) ≡ get_elem? bytes k
  stored_byte-chunk i k bytes h e =
      let quotient : (i * t.chunk_length + k) / t.chunk_length ≡ i =
        mul-add-div_right pos i k ∙ omega (arith, div-eq_of_lt h) in
      let rest : (i * t.chunk_length + k) % t.chunk_length ≡ k =
        mul-add-mod_self_right i t.chunk_length k ∙ mod-eq_of_lt h in
      ap (λ q. byte_of (Store.chunk t piece q) ((i * t.chunk_length + k) % t.chunk_length)) quotient
      ∙ (ap (byte_of (Store.chunk t piece i)) rest ∙ ap (λ o. byte_of o k) e)

  read_chunks-cons :
      (n i : ℕ) (out : List ℕ)
      → Serving.read_chunks (suc n) t piece i ≡ some out
      → (bytes : List ℕ) × (more : List ℕ) × (Store.chunk t piece i ≡ some bytes)
        × (Serving.read_chunks n t piece (suc i) ≡ some more)
        × (out ≡ bytes ++ more)
  unfolding Serving.read_chunks Serving.shared_serving_chunk
  read_chunks-cons n i out e = elim (Option-cases (Store.chunk t piece i)) [
    | inl a ↦ absurd (ground arith)
    | inr (bytes, a) ↦ elim (Option-cases (Serving.read_chunks n t piece (suc i))) [
      | inl b ↦ absurd (ground arith)
      | inr (more, b) ↦ (bytes, more, a, b, ground arith)
    ]
  ]

  read_chunks-stored_byte :
      (n i k : ℕ) (out : List ℕ)
      → IsWhole t piece
      → Serving.read_chunks n t piece i ≡ some out
      → k < length out
      → get_elem? out k ≡ stored_byte t piece (i * t.chunk_length + k)
  read_chunks-stored_byte zero i k out w e h = unfold Serving.read_chunks in absurd (ground arith)
  read_chunks-stored_byte (suc n) i k out w e h =
      let (bytes, more, here, rest, joined) = read_chunks-cons n i out e in
      let size : length bytes ≡ t.chunk_length = w i bytes here in
      ap (λ xs. get_elem? xs k) joined
      ∙ (get_elem?-append bytes more k ∙ elim (Bool-cases (ltb k (length bytes))) [
        | inl l ↦ rw l (sym (stored_byte-chunk i k bytes (ground arith) here))
        | inr l ↦
            let moved : suc i * t.chunk_length + (k - length bytes) ≡ i * t.chunk_length + k =
              ground arith in
            rw l (
              read_chunks-stored_byte n (suc i) (k - length bytes) more w rest
                (ground (arith, length-append bytes more))
              ∙ ap (stored_byte t piece) moved)
      ])

slice-length :
    (bytes : List ℕ) (offset len : ℕ) (out : List ℕ)
    → Serving.slice bytes offset len ≡ some out
    → (length out ≡ len) × (offset + len ≤ length bytes) × (out ≡ take len (drop offset bytes))
unfolding Serving.slice
slice-length bytes offset len out e = (
  ground (arith, length-take len (drop offset bytes), length-drop offset bytes),
  ground arith,
  ground arith,
)

-- The range of a served block.
served_range :
    (t : PieceStore) (piece begin len : ℕ) (out : List ℕ)
    → Serving.shared_block t piece begin len ≡ some out
    → (len ≤ Serving.max_bt_request_len) × (begin + len ≤ t.piece_length)
unfolding Serving.shared_block
served_range t piece begin len out e = (ground arith, ground arith)

-- The chunks that a block is cut from.
abbrev chunks_of : PieceStore → (piece begin len : ℕ) → Option (List ℕ)
chunks_of t piece begin len =
    Serving.read_chunks
      ((begin + len + (t.chunk_length - 1)) / t.chunk_length - begin / t.chunk_length) t piece
      (begin / t.chunk_length)

served_cut :
    (t : PieceStore) (piece begin len : ℕ) (out : List ℕ)
    → Serving.shared_block t piece begin len ≡ some out
    → (bytes : List ℕ) × (chunks_of t piece begin len ≡ some bytes)
      × (Serving.slice bytes (begin % t.chunk_length) len ≡ some out)
unfolding Serving.shared_block
served_cut t piece begin len out e = elim (Option-cases (chunks_of t piece begin len)) [
  | inl r ↦ absurd (ground arith)
  | inr (bytes, r) ↦ (bytes, r, ground arith)
]

-- Whatever store of whole chunks serves a block and whatever a peer asks for: the block has the length
-- that was asked for, at most 16 KiB, it lies inside the piece, and its byte number `j` is the byte
-- of the store's chunks at that place of the piece.
pub shared_block-stored_byte :
    (t : PieceStore) (piece begin len j : ℕ) {out : List ℕ}
    → 0 < t.chunk_length
    → IsWhole t piece
    → Serving.shared_block t piece begin len ≡ some out
    → j < len
    → (length out ≡ len)
      × (len ≤ Serving.max_bt_request_len)
      × (begin + len ≤ t.piece_length)
      × (get_elem? out j ≡ stored_byte t piece (begin + j))
shared_block-stored_byte t piece begin len j {out} pos whole e below =
    let (limit, inside) = served_range t piece begin len out e in
    let (bytes, read, cut) = served_cut t piece begin len out e in
    let off = begin % t.chunk_length in
    let (size, wide, is_cut) = slice-length bytes off len out cut in
    let place : begin / t.chunk_length * t.chunk_length + (off + j) ≡ begin + j =
      omega (arith, div-add-mod' begin t.chunk_length) in
    (
      size,
      limit,
      inside,
      ap (λ xs. get_elem? xs j) is_cut
          ∙ (get_elem?-take len (drop off bytes) j below
              ∙ (get_elem?-drop off bytes j
                  ∙ (read_chunks-stored_byte t piece pos _ (begin / t.chunk_length) (off + j) bytes
                        whole read (omega arith)
                      ∙ ap (stored_byte t piece) place))),
    )

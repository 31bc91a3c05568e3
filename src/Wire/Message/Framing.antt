-- ===== src/Wire/Message/Framing.antt =====
-- crates/ace-wire/src/message.rs: the outcomes of `decode`, and how it reads a growing buffer.
use outpace.Prelude.{
  ℕ, ◌+◌, ◌≤◌, ◌<◌, ◌≡◌, refl, Option, none, some, get_or, List, [], ◌∷◌, ◌++◌, length,
  length-append, is_empty, take, take-append_of_le, arith, ltb, leb, ◌==◌, if-elim, ◌&&◌, ◌⊎◌, inl,
  inr, Bool-cases,
}
use outpace.Prelude.Bytes.{u32_from_be_bytes}
use outpace.Wire.{Result, ok, err, invalid}
use outpace.Wire.Message

abbrev Returns : Result (Option Message.PeerMessage) → Type 0
Returns r = (o : Option Message.PeerMessage) × (r ≡ ok o)

read_have-Returns : (p : List ℕ) → length p ≡ 4 → Returns (Message.read_have p)
unfolding Message.read_have
read_have-Returns (a ∷ b ∷ c ∷ d ∷ []) n = (_, refl)
read_have-Returns p n = absurd (omega arith)

read_request-Returns : (p : List ℕ) → length p ≡ 12 → Returns (Message.read_request p)
unfolding Message.read_request
read_request-Returns (a ∷ b ∷ c ∷ d ∷ a' ∷ b' ∷ c' ∷ d' ∷ x ∷ y ∷ z ∷ w ∷ []) n = (_, refl)
read_request-Returns p n = absurd (omega arith)

read_cancel-Returns : (p : List ℕ) → length p ≡ 12 → Returns (Message.read_cancel p)
unfolding Message.read_cancel
read_cancel-Returns (a ∷ b ∷ c ∷ d ∷ a' ∷ b' ∷ c' ∷ d' ∷ x ∷ y ∷ z ∷ w ∷ []) n = (_, refl)
read_cancel-Returns p n = absurd (omega arith)

read_piece-Returns : (p : List ℕ) → 8 ≤ length p → Returns (Message.read_piece p)
unfolding Message.read_piece
read_piece-Returns (a ∷ b ∷ c ∷ d ∷ a' ∷ b' ∷ c' ∷ d' ∷ block) n = (_, refl)
read_piece-Returns p n = absurd (omega arith)

read_extended-Returns : (p : List ℕ) → Returns (Message.read_extended p)
unfolding Message.read_extended
read_extended-Returns [] = (_, refl)
read_extended-Returns (x ∷ p) = (_, refl)

-- The reads of `decode_typed` are behind length tests, so none of them fails.
decode_typed-Returns : (id : ℕ) (p : List ℕ) → Returns (Message.decode_typed id p)
unfolding Message.decode_typed
decode_typed-Returns id p =
    if-elim Returns (id == 0 && is_empty p) (λ c. (_, refl))
      λ c0.
        if-elim Returns (id == 1 && is_empty p) (λ c. (_, refl))
          λ c1.
            if-elim Returns (id == 2 && is_empty p) (λ c. (_, refl))
              λ c2.
                if-elim Returns (id == 3 && is_empty p) (λ c. (_, refl))
                  λ c3.
                    if-elim Returns (id == 4 && length p == 4)
                      (λ c. read_have-Returns p (ground arith))
                      λ c4.
                        if-elim Returns (id == 5) (λ c. (_, refl))
                          λ c5.
                            if-elim Returns (id == 6 && length p == 12)
                              (λ c. read_request-Returns p (ground arith))
                              λ c6.
                                if-elim Returns (id == 7 && leb 8 (length p))
                                  (λ c. read_piece-Returns p (ground arith))
                                  λ c7.
                                    if-elim Returns (id == 8 && length p == 12)
                                      (λ c. read_cancel-Returns p (ground arith))
                                      λ c8.
                                        if-elim Returns (id == 20) (λ c. read_extended-Returns p)
                                          λ c20. (_, refl)

pub decode_body-eq-ok :
    (body : List ℕ) (total : ℕ)
    → (m : Message.PeerMessage) × (Message.decode_body body total ≡ ok (some (m, total)))
unfolding Message.decode_body
decode_body-eq-ok [] total = (_, refl)
decode_body-eq-ok (id ∷ p) total =
    let (o, e) = decode_typed-Returns id p in (get_or o (Message.unknown id p), rw e)

decode_frame_outcomes :
    (len : ℕ) (rest : List ℕ)
    → let r = Message.decode_frame len rest in
      ((Message.max_frame_len < len) × (r ≡ err (invalid "frame too large")))
      ⊎ ((len ≤ Message.max_frame_len) × (length rest < len) × (r ≡ ok none))
      ⊎ ((len ≤ Message.max_frame_len)
          × (len ≤ length rest)
          × ((m : Message.PeerMessage) × (r ≡ ok (some (m, 4 + len)))))
unfolding Message.decode_frame
decode_frame_outcomes len rest = elim (Bool-cases (ltb Message.max_frame_len len)) [
  | inl big ↦ inl (ground arith, rw big)
  | inr fits ↦ elim (Bool-cases (ltb (4 + length rest) (4 + len))) [
    | inl short ↦ inr (inl (ground arith, ground arith, rw (fits, short)))
    | inr whole ↦
        let (m, e) = decode_body-eq-ok (take len rest) (4 + len) in
        inr (inr (ground arith, ground arith, (m, rw (fits, whole) e)))
  ]
]

-- `decode` on a buffer with a whole length prefix, by the length `len` that it declares: an
-- oversized frame is refused, whatever follows; an incomplete one asks for more bytes; and a
-- complete one is always decoded, to a message and the frame's whole length.
pub decode_outcomes :
    (a b c d : ℕ) (rest : List ℕ)
    → let len = u32_from_be_bytes a b c d in
      let r = Message.decode (a ∷ b ∷ c ∷ d ∷ rest) in
      ((Message.max_frame_len < len) × (r ≡ err (invalid "frame too large")))
      ⊎ ((len ≤ Message.max_frame_len) × (length rest < len) × (r ≡ ok none))
      ⊎ ((len ≤ Message.max_frame_len)
          × (len ≤ length rest)
          × ((m : Message.PeerMessage) × (r ≡ ok (some (m, 4 + len)))))
unfolding Message.decode
decode_outcomes a b c d rest = decode_frame_outcomes (u32_from_be_bytes a b c d) rest

-- Bytes that arrive behind a complete frame do not change what is decoded.
pub decode-append :
    (buf more : List ℕ) {m : Message.PeerMessage} {n : ℕ}
    → Message.decode buf ≡ ok (some (m, n))
    → Message.decode (buf ++ more) ≡ ok (some (m, n))
unfolding Message.decode Message.decode_frame
decode-append (a ∷ b ∷ c ∷ d ∷ rest) more e =
    ground (arith, length-append rest more, take-append_of_le (u32_from_be_bytes a b c d) rest more)
decode-append _ more e = absurd (cc e)

-- ===== src/Wire/Message/Canonical.antt =====
-- crates/ace-wire/src/message.rs: a decoded frame determines the bytes that it was read from.
use outpace.Prelude.{
  ℕ, suc, ◌+◌, ◌≤◌, ◌≡◌, refl, true, some, List, [], ◌∷◌, length, is_empty, take, length-take, All,
  All-take, arith, leb, ◌==◌, if-arm, ◌&&◌,
}
use outpace.Prelude.Bytes.{IsByte, u32_to_be_bytes, u32_from_be_bytes, u32_digits}
use outpace.Wire.{ok}
use outpace.Wire.Message

-- What re-encoding `m` writes behind the length prefix is the frame's body.
abbrev Writes : Message.PeerMessage → List ℕ → Type 0
Writes m body = (Message.encode_body m ≡ body) × (Message.body_len m ≡ length body)

word :
    (a b c d : ℕ)
    → IsByte a
    → IsByte b
    → IsByte c
    → IsByte d
    → u32_to_be_bytes (u32_from_be_bytes a b c d) ≡ a ∷ b ∷ c ∷ d ∷ []
word a b c d ha hb hc hd = let (p, q, r, s) = u32_digits a b c d ha hb hc hd in cc

read_have-Writes :
    (p : List ℕ) {m : Message.PeerMessage}
    → All IsByte p
    → length p ≡ 4
    → Message.read_have p ≡ ok (some m)
    → Writes m (4 ∷ p)
unfolding Message.read_have Message.encode_body Message.body_len
read_have-Writes (a ∷ b ∷ c ∷ d ∷ []) h n e = ground (arith, word a b c d)
read_have-Writes p h n e = absurd (omega arith)

read_request-Writes :
    (p : List ℕ) {m : Message.PeerMessage}
    → All IsByte p
    → length p ≡ 12
    → Message.read_request p ≡ ok (some m)
    → Writes m (6 ∷ p)
unfolding Message.read_request Message.encode_body Message.body_len
read_request-Writes (a ∷ b ∷ c ∷ d ∷ a' ∷ b' ∷ c' ∷ d' ∷ x ∷ y ∷ z ∷ w ∷ []) h n e =
    ground (arith, word a b c d, word a' b' c' d', word x y z w)
read_request-Writes p h n e = absurd (omega arith)

read_cancel-Writes :
    (p : List ℕ) {m : Message.PeerMessage}
    → All IsByte p
    → length p ≡ 12
    → Message.read_cancel p ≡ ok (some m)
    → Writes m (8 ∷ p)
unfolding Message.read_cancel Message.encode_body Message.body_len
read_cancel-Writes (a ∷ b ∷ c ∷ d ∷ a' ∷ b' ∷ c' ∷ d' ∷ x ∷ y ∷ z ∷ w ∷ []) h n e =
    ground (arith, word a b c d, word a' b' c' d', word x y z w)
read_cancel-Writes p h n e = absurd (omega arith)

read_piece-Writes :
    (p : List ℕ) {m : Message.PeerMessage}
    → All IsByte p
    → 8 ≤ length p
    → Message.read_piece p ≡ ok (some m)
    → Writes m (7 ∷ p)
unfolding Message.read_piece Message.encode_body Message.body_len
read_piece-Writes (a ∷ b ∷ c ∷ d ∷ a' ∷ b' ∷ c' ∷ d' ∷ block) h n e =
    ground (arith, word a b c d, word a' b' c' d')
read_piece-Writes p h n e = absurd (omega arith)

read_extended-Writes :
    (p : List ℕ) {m : Message.PeerMessage}
    → Message.read_extended p ≡ ok (some m)
    → Writes m (20 ∷ p)
unfolding Message.read_extended Message.encode_body Message.body_len
read_extended-Writes [] e = absurd (cc e)
read_extended-Writes (x ∷ p) e = ground arith

empty_of : (p : List ℕ) → is_empty p ≡ true → p ≡ []
empty_of [] h = refl
empty_of (x ∷ p) h = absurd (cc h)

decode_typed-Writes :
    (id : ℕ) (p : List ℕ) {m : Message.PeerMessage}
    → All IsByte p
    → Message.decode_typed id p ≡ ok (some m)
    → Writes m (id ∷ p)
unfolding Message.decode_typed Message.encode_body Message.body_len
decode_typed-Writes id p {m} h =
    if-arm (id == 0 && is_empty p) (λ c e. ground (arith, empty_of p))
      (if-arm (id == 1 && is_empty p) (λ c e. ground (arith, empty_of p))
        (if-arm (id == 2 && is_empty p) (λ c e. ground (arith, empty_of p))
          (if-arm (id == 3 && is_empty p) (λ c e. ground (arith, empty_of p))
            (if-arm (id == 4 && length p == 4) (λ c e. ground (arith, read_have-Writes p {m = m} h))
              (if-arm (id == 5) (λ c e. ground arith)
                (if-arm (id == 6 && length p == 12)
                  (λ c e. ground (arith, read_request-Writes p {m = m} h))
                  (if-arm (id == 7 && leb 8 (length p))
                    (λ c e. ground (arith, read_piece-Writes p {m = m} h))
                    (if-arm (id == 8 && length p == 12)
                      (λ c e. ground (arith, read_cancel-Writes p {m = m} h))
                      (if-arm (id == 20) (λ c e. ground (arith, read_extended-Writes p {m = m}))
                        (λ e. absurd (cc e)))))))))))

decode_body-Writes :
    (body : List ℕ) (total : ℕ) {m : Message.PeerMessage} {n : ℕ}
    → All IsByte body
    → Message.decode_body body total ≡ ok (some (m, n))
    → Writes m body × (n ≡ total)
unfolding Message.decode_body Message.encode_body Message.body_len
decode_body-Writes [] total h e = ground arith
decode_body-Writes (id ∷ p) total {m} h e = ground (arith, decode_typed-Writes id p {m = m} h.1)

decode_frame-Writes :
    (len : ℕ) (rest : List ℕ) {m : Message.PeerMessage} {n : ℕ}
    → All IsByte rest
    → Message.decode_frame len rest ≡ ok (some (m, n))
    → Writes m (take len rest) × (n ≡ 4 + len) × (len ≤ length rest) × (len ≤ Message.max_frame_len)
unfolding Message.decode_frame
decode_frame-Writes len rest {m} {n} h e = ground (
  arith,
  decode_body-Writes (take len rest) (4 + len) {m = m} {n = n} (All-take IsByte len rest h),
)

-- A frame that `decode` accepts is inside the buffer and at most 4 + 2 MiB long, and `encode`
-- gives exactly the bytes that it was read from, for every buffer of bytes.
pub encode-decode :
    (buf : List ℕ) {m : Message.PeerMessage} {n : ℕ}
    → All IsByte buf
    → Message.decode buf ≡ ok (some (m, n))
    → (Message.encode m ≡ take n buf) × (n ≤ length buf) × (n ≤ 4 + Message.max_frame_len)
unfolding Message.decode Message.encode
encode-decode (a ∷ b ∷ c ∷ d ∷ rest) {m} {n} h e =
    let len = u32_from_be_bytes a b c d in
    let (w, total, fits, small) = decode_frame-Writes len rest {m = m} {n = n} h.1.1.1.1 e in
    let bl : Message.body_len m ≡ len = omega (arith, length-take len rest) in
    let e4 : n ≡ suc (suc (suc (suc len))) = omega arith in
    let (p, q, r, s) = u32_digits a b c d h.0 h.1.0 h.1.1.0 h.1.1.1.0 in
    (rw (e4, bl, p, q, r, s, w.0), omega arith, omega arith)
encode-decode _ h e = absurd (cc e)

-- ===== src/Wire/Message/RoundTrip.antt =====
-- crates/ace-wire/src/message.rs: what `encode` writes is read back by `decode`.
use outpace.Prelude.{
  ℕ, zero, suc, ◌+◌, ◌≤◌, ◌<◌, ◌≡◌, refl, sym, ap, true, Option, none, some, ◌≢◌, List, [], ◌∷◌,
  ◌++◌, length, length-append, is_empty, take, length-take, arith, leb, ◌==◌, if-elim, ◌&&◌,
  take-length-append,
}
use outpace.Prelude.Bytes.{IsU32, u32_round_trip}
use outpace.Wire.{Result, ok}
use outpace.Wire.Message

-- An `unknown` message that is not the wire form of a typed one.
pub record IsUnmodelled (id : ℕ) (payload : List ℕ) : Type 0 where
  pub flags : id ≤ 3 → 0 < length payload
  pub have : id ≡ 4 → length payload ≢ 4
  pub bitfield : id ≢ 5
  pub request : id ≡ 6 → length payload ≢ 12
  pub piece : id ≡ 7 → length payload < 8
  pub cancel : id ≡ 8 → length payload ≢ 12
  pub extended : id ≡ 20 → length payload ≡ 0

-- The numbers of the message are u32 values, an `unknown` one is not a typed one in disguise,
-- and the body fits a frame.
abbrev pub HasWireFields : Message.PeerMessage → Type 0
HasWireFields (Message.have i) = IsU32 i
HasWireFields (Message.request index begin len) = IsU32 index × IsU32 begin × IsU32 len
HasWireFields (Message.cancel index begin len) = IsU32 index × IsU32 begin × IsU32 len
HasWireFields (Message.piece index begin block) = IsU32 index × IsU32 begin
HasWireFields (Message.unknown id payload) = IsUnmodelled id payload
HasWireFields _ = Unit {0}

is_empty-length : (p : List ℕ) → is_empty p ≡ true → length p ≡ 0
is_empty-length [] h = refl
is_empty-length (x ∷ p) h = absurd (cc h)

read_extended_empty : (p : List ℕ) → length p ≡ 0 → Message.read_extended p ≡ ok none
unfolding Message.read_extended
read_extended_empty [] h = refl
read_extended_empty (x ∷ p) h = absurd (omega arith)

decode_typed-IsUnmodelled :
    (id : ℕ) (p : List ℕ) → IsUnmodelled id p → Message.decode_typed id p ≡ ok none
unfolding Message.decode_typed
decode_typed-IsUnmodelled id p u =
    let E : Result (Option Message.PeerMessage) → Type 0 = λ r. r ≡ ok none in
    if-elim E (id == 0 && is_empty p) (λ c. absurd (ground (arith, is_empty-length p, u.flags)))
      λ c0.
        if-elim E (id == 1 && is_empty p) (λ c. absurd (ground (arith, is_empty-length p, u.flags)))
          λ c1.
            if-elim E (id == 2 && is_empty p)
              (λ c. absurd (ground (arith, is_empty-length p, u.flags)))
              λ c2.
                if-elim E (id == 3 && is_empty p)
                  (λ c. absurd (ground (arith, is_empty-length p, u.flags)))
                  λ c3.
                    if-elim E (id == 4 && length p == 4) (λ c. absurd (ground arith))
                      λ c4.
                        if-elim E (id == 5) (λ c. absurd (ground arith))
                          λ c5.
                            if-elim E (id == 6 && length p == 12) (λ c. absurd (ground arith))
                              λ c6.
                                if-elim E (id == 7 && leb 8 (length p)) (λ c. absurd (ground arith))
                                  λ c7.
                                    if-elim E (id == 8 && length p == 12)
                                      (λ c. absurd (ground arith))
                                      λ c8.
                                        if-elim E (id == 20)
                                          (λ c. read_extended_empty p (ground arith)) λ c20. refl

decode_body-encode_body :
    (m : Message.PeerMessage) (total : ℕ)
    → HasWireFields m
    → Message.decode_body (Message.encode_body m) total ≡ ok (some (m, total))
unfolding Message.decode_body Message.encode_body Message.decode_typed Message.read_have
    Message.read_request Message.read_piece Message.read_cancel Message.read_extended
decode_body-encode_body Message.keep_alive t h = refl
decode_body-encode_body Message.choke t h = refl
decode_body-encode_body Message.unchoke t h = refl
decode_body-encode_body Message.interested t h = refl
decode_body-encode_body Message.not_interested t h = refl
decode_body-encode_body (Message.have i) t h = rw (u32_round_trip i h)
decode_body-encode_body (Message.bitfield b) t h = refl
decode_body-encode_body (Message.request index begin len) t h =
    rw (u32_round_trip index h.0, u32_round_trip begin h.1, u32_round_trip len h.2)
decode_body-encode_body (Message.piece index begin block) t h =
    ground (arith, u32_round_trip index, u32_round_trip begin)
decode_body-encode_body (Message.cancel index begin len) t h =
    rw (u32_round_trip index h.0, u32_round_trip begin h.1, u32_round_trip len h.2)
decode_body-encode_body (Message.extended e p) t h = refl
decode_body-encode_body (Message.unknown id p) t h = rw (decode_typed-IsUnmodelled id p h)

length-encode_body : (m : Message.PeerMessage) → length (Message.encode_body m) ≡ Message.body_len m
unfolding Message.encode_body Message.body_len
length-encode_body Message.keep_alive = refl
length-encode_body (Message.bitfield b) = omega arith
length-encode_body (Message.piece index begin block) = omega arith
length-encode_body (Message.extended e p) = omega arith
length-encode_body (Message.unknown id p) = omega arith
length-encode_body m = refl

decode_frame-encode_body :
    (m : Message.PeerMessage) (len : ℕ) (rest : List ℕ)
    → HasWireFields m
    → len ≡ length (Message.encode_body m)
    → len ≤ Message.max_frame_len
    → Message.decode_frame len (Message.encode_body m ++ rest) ≡ ok (some (m, 4 + len))
unfolding Message.decode_frame
decode_frame-encode_body m len rest h e fits =
    ground (
      arith,
      length-append (Message.encode_body m) rest,
      cut,
      decode_body-encode_body m (4 + len) h,
    )
  where
    cut : take len (Message.encode_body m ++ rest) ≡ Message.encode_body m
    cut = rw e (take-length-append (Message.encode_body m) rest)

length-encode : (m : Message.PeerMessage) → length (Message.encode m) ≡ 4 + Message.body_len m
unfolding Message.encode
length-encode m = omega (arith, length-encode_body m)

-- Every message with wire fields whose body fits a frame is decoded from its encoding, with
-- exactly the encoding's bytes consumed, whatever bytes follow it.
pub decode-encode :
    (m : Message.PeerMessage) (rest : List ℕ)
    → HasWireFields m
    → Message.body_len m ≤ Message.max_frame_len
    → Message.decode (Message.encode m ++ rest) ≡ ok (some (m, length (Message.encode m)))
unfolding Message.decode Message.encode
decode-encode m rest h fits = rw (u32_round_trip (Message.body_len m) (omega arith)) (
    rw (decode_frame-encode_body m (Message.body_len m) rest h (sym (length-encode_body m)) fits)
      (ap (λ n. ok (some (m, n))) (omega (arith, length-encode_body m))))

-- A proper prefix of the encoding of a message whose body fits a frame is never an error and never
-- a message: `decode` asks for more bytes.
pub decode-take-encode :
    (m : Message.PeerMessage) (k : ℕ)
    → Message.body_len m ≤ Message.max_frame_len
    → k < 4 + Message.body_len m
    → Message.decode (take k (Message.encode m)) ≡ ok none
unfolding Message.decode Message.encode
decode-take-encode m zero fits h = refl
decode-take-encode m (suc zero) fits h = refl
decode-take-encode m (suc (suc zero)) fits h = refl
decode-take-encode m (suc (suc (suc zero))) fits h = refl
decode-take-encode m (suc (suc (suc (suc k)))) fits h =
    unfold Message.decode_frame in
    rw (u32_round_trip (Message.body_len m) (omega arith))
      (ground (arith, length-take k (Message.encode_body m)))

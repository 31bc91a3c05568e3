-- ===== src/Wire/SigningChunker/Pieces.antt =====
-- crates/ace-wire/src/signing_chunker.rs: what a source sends is signed pieces of its stream, in chunks
-- at their addresses.
use outpace.Prelude.{
  ℕ, zero, suc, ◌+◌, ◌*◌, ◌^◌, ◌≤◌, ◌<◌, ◌≡◌, refl, sym, ap, ◌∙◌, subst, true, false, some, List,
  [], ◌∷◌, ◌++◌, append_assoc, length, length-append, length-take, length-drop, take, drop,
  take-append-drop, All, leb, u64_mod, Bool-cases, inl, inr, arith,
}
use outpace.Wire.LiveAuth
use outpace.Wire.LiveAuth.{RsaCrate, Documented}
use outpace.Wire.LiveAuth.Signing.{signed-verifies}
use outpace.Wire.Chunker
use outpace.Wire.Chunker.{TsChunker, OutChunk}
use outpace.Wire.Chunker.Stream.{stream_of, Addressed}
use outpace.Wire.Chunker.Pieces.{stream_of-append, Addressed-append, OnePiece, push-OnePiece}
use outpace.Wire.SigningChunker
use outpace.Wire.SigningChunker.{SigningChunker}

abbrev pub joined : List (List ℕ) → List ℕ
joined [] = []
joined (p ∷ ps) = p ++ joined ps

module _ (rsa : RsaCrate) (key : rsa.PrivateKey) where
  -- The payloads with their signatures.
  abbrev pub signed : List (List ℕ) → List ℕ
  signed [] = []
  signed (p ∷ ps) = (p ++ LiveAuth.sign rsa key p) ++ signed ps

  -- What a viewer does with a piece: it is split into these parts, and they are accepted.
  abbrev pub Accepted : List ℕ → Type 0
  Accepted p =
      (LiveAuth.split_piece (p ++ LiveAuth.sign rsa key p) (LiveAuth.signature_len rsa key)
        ≡ some (p, LiveAuth.sign rsa key p))
      × (LiveAuth.verify_piece rsa (LiveAuth.pubkey_der rsa key) p (LiveAuth.sign rsa key p) ≡ true)

  module _ (chunk_length count : ℕ) where
    -- The signing chunker stands at a piece boundary, chunk `turn` of the stream; its buffer holds less
    -- than `pieces` payloads and one more, and the addresses of that many pieces are in range.
    pub record AtPiece (turn pieces : ℕ) (s : SigningChunker) : Type 0 where
      pub fits : s.payload_capacity + LiveAuth.signature_len rsa key ≡ count * chunk_length
      pub capacity : 0 < s.payload_capacity
      pub positive : 0 < chunk_length
      pub some_chunks : 0 < count
      pub few_chunks : count ≤ 2 ^ 16
      pub piece_length : s.chunker.piece_length ≡ count * chunk_length
      pub chunk_length_is : s.chunker.chunk_length ≡ chunk_length
      pub nothing_left : s.chunker.buf ≡ []
      pub offset_is : s.chunker.offset ≡ turn * chunk_length
      pub held : length s.buf < suc pieces * s.payload_capacity
      pub in_range :
          s.chunker.start_piece + s.chunker.offset + pieces * (count * chunk_length) < u64_mod

    -- What is sent from the state `s` on: the payloads of its buffer, each signed and accepted, in
    -- chunks at their addresses, with less than a payload kept back; the state stands behind the
    -- chunks of that many pieces, at a piece boundary of the same stream.
    pub record Sent (turn : ℕ) (s s' : SigningChunker) (out : List OutChunk) : Type 0 where
      pub payloads : List (List ℕ)
      pub content : joined payloads ++ s'.buf ≡ s.buf
      pub full : All (λ p. length p ≡ s.payload_capacity) payloads
      pub accepted : All Accepted payloads
      pub wire : stream_of out ≡ signed payloads
      pub addressed : Addressed chunk_length count s.chunker.start_piece turn out
      pub rest : length s'.buf < s.payload_capacity
      pub boundary : AtPiece (turn + length payloads * count) 0 s'
      pub same_start : s'.chunker.start_piece ≡ s.chunker.start_piece
      pub same_capacity : s'.payload_capacity ≡ s.payload_capacity

    piece_of : SigningChunker → List ℕ
    piece_of s =
        take s.payload_capacity s.buf ++ LiveAuth.sign rsa key (take s.payload_capacity s.buf)

    -- The state behind the loop's turn.
    abbrev turned : SigningChunker → SigningChunker
    turned s = record s {
      buf = drop s.payload_capacity s.buf;
      chunker = (Chunker.push s.chunker (piece_of s)).0;
    }

    first_piece :
        (turn pieces : ℕ) (s : SigningChunker)
        → Documented rsa
        → AtPiece turn (suc pieces) s
        → s.payload_capacity ≤ length s.buf
        → OnePiece chunk_length count turn s.chunker
            (turned s).chunker
            (piece_of s)
            (Chunker.push s.chunker (piece_of s)).1
    unfolding piece_of LiveAuth.sign LiveAuth.signature_len
    first_piece turn pieces s doc at long =
        let payload = take s.payload_capacity s.buf in
        let size : length (piece_of s) ≡ count * chunk_length = omega (
          arith,
          length-append payload (LiveAuth.sign rsa key payload),
          length-take s.payload_capacity s.buf,
          doc.signature_size key (rsa.digest payload),
          at.fits,
        ) in
        push-OnePiece chunk_length count turn s.chunker (piece_of s) at.nothing_left size (record {
          positive = at.positive;
          some_chunks = at.some_chunks;
          few_chunks = at.few_chunks;
          piece_length = at.piece_length;
          chunk_length_is = at.chunk_length_is;
          offset_is = at.offset_is;
          in_range = omega (
            arith,
            at.in_range,
            size,
            ap length at.nothing_left,
            length-append s.chunker.buf (piece_of s),
          );
        })

    turned-AtPiece :
        (turn pieces : ℕ) (s : SigningChunker) (out : List OutChunk)
        → AtPiece turn (suc pieces) s
        → s.payload_capacity ≤ length s.buf
        → OnePiece chunk_length count turn s.chunker (turned s).chunker (piece_of s) out
        → AtPiece (turn + count) pieces (turned s)
    turned-AtPiece turn pieces s out at long one = record {
      fits = at.fits;
      capacity = at.capacity;
      positive = at.positive;
      some_chunks = at.some_chunks;
      few_chunks = at.few_chunks;
      piece_length = one.state.piece_length;
      chunk_length_is = one.state.chunk_length_is;
      nothing_left = one.whole;
      offset_is = one.state.offset_is;
      held = omega (arith, at.held, length-drop s.payload_capacity s.buf);
      in_range = omega (arith, at.in_range, one.same_start, one.state.offset_is, at.offset_is);
    }

    next_turn : (turn n : ℕ) → turn + count + n * count ≡ turn + suc n * count
    next_turn turn n = omega arith

    no_turns : (turn : ℕ) → turn ≡ turn + 0 * count
    no_turns turn = omega arith

    turned-Sent :
        (turn : ℕ) (s s' : SigningChunker) (out outs : List OutChunk)
        → Documented rsa
        → s.payload_capacity ≤ length s.buf
        → OnePiece chunk_length count turn s.chunker (turned s).chunker (piece_of s) out
        → Sent (turn + count) (turned s) s' outs
        → Sent turn s s' (out ++ outs)
    unfolding piece_of
    turned-Sent turn s s' out outs doc long one sent =
        let payload = take s.payload_capacity s.buf in
        let (sized, split, verified) = signed-verifies rsa key payload doc in
        record {
          payloads = payload ∷ sent.payloads;
          content =
              append_assoc payload (joined sent.payloads) s'.buf
              ∙ (ap (λ t. payload ++ t) sent.content ∙ take-append-drop s.payload_capacity s.buf);
          full = (omega (arith, length-take s.payload_capacity s.buf), sent.full);
          accepted = ((split, verified), sent.accepted);
          wire =
              stream_of-append out outs
              ∙ (ap (λ t. t ++ stream_of outs) one.wire ∙ ap (λ t. piece_of s ++ t) sent.wire);
          addressed =
              Addressed-append chunk_length count s.chunker.start_piece turn out outs one.addressed
                (subst (λ n. Addressed chunk_length count s.chunker.start_piece (turn + n) outs)
                  (sym one.chunks)
                  (subst (λ p. Addressed chunk_length count p (turn + count) outs) one.same_start
                    sent.addressed));
          rest = sent.rest;
          boundary =
              subst (λ n. AtPiece n 0 s') (next_turn turn (length sent.payloads)) sent.boundary;
          same_start = sent.same_start ∙ one.same_start;
          same_capacity = sent.same_capacity;
        }

    push_loop_turn :
        (fuel : ℕ) (s : SigningChunker)
        → leb s.payload_capacity (length s.buf) ≡ true
        → SigningChunker.push_loop rsa (suc fuel) s key ≡ (
          (SigningChunker.push_loop rsa fuel (turned s) key).0,
          (Chunker.push s.chunker (piece_of s)).1
              ++ (SigningChunker.push_loop rsa fuel (turned s) key).1,
        )
    unfolding SigningChunker.push_loop piece_of
    push_loop_turn fuel s e = rw (e, SigningChunker.push_loop) refl

    push_loop_end :
        (fuel : ℕ) (s : SigningChunker)
        → leb s.payload_capacity (length s.buf) ≡ false
        → SigningChunker.push_loop rsa (suc fuel) s key ≡ (s, [])
    unfolding SigningChunker.push_loop
    push_loop_end fuel s e = rw (e, SigningChunker.push_loop) refl

    nothing-Sent :
        (turn pieces : ℕ) (s : SigningChunker)
        → AtPiece turn pieces s
        → length s.buf < s.payload_capacity
        → Sent turn s s []
    nothing-Sent turn pieces s at short = record {
      payloads = [];
      content = refl;
      full = tt;
      accepted = tt;
      wire = refl;
      addressed = tt;
      rest = short;
      boundary =
          subst (λ n. AtPiece n 0 s) (no_turns turn)
            (record {
              fits = at.fits;
              capacity = at.capacity;
              positive = at.positive;
              some_chunks = at.some_chunks;
              few_chunks = at.few_chunks;
              piece_length = at.piece_length;
              chunk_length_is = at.chunk_length_is;
              nothing_left = at.nothing_left;
              offset_is = at.offset_is;
              held = omega arith;
              in_range = omega (arith, at.in_range);
            });
      same_start = refl;
      same_capacity = refl;
    }

    push_loop-Sent :
        (fuel turn pieces : ℕ) (s : SigningChunker)
        → Documented rsa
        → AtPiece turn pieces s
        → length s.buf ≤ fuel
        → Sent turn s
            (SigningChunker.push_loop rsa fuel s key).0
            (SigningChunker.push_loop rsa fuel s key).1
    push_loop-Sent zero turn pieces s doc at h =
        unfold SigningChunker.push_loop in
        nothing-Sent turn pieces s at (omega (arith, at.capacity))
    push_loop-Sent (suc fuel) turn zero s doc at h =
        let short : length s.buf < s.payload_capacity = omega (arith, at.held) in
        rw (push_loop_end fuel s (ground (arith, short))) (nothing-Sent turn zero s at short)
    push_loop-Sent (suc fuel) turn (suc pieces) s doc at h =
        elim (Bool-cases (leb s.payload_capacity (length s.buf))) [
          | inr e ↦
              rw (push_loop_end fuel s e) (nothing-Sent turn (suc pieces) s at (ground (arith, e)))
          | inl e ↦
              let long : s.payload_capacity ≤ length s.buf = ground arith in
              let one = first_piece turn pieces s doc at long in
              rw (push_loop_turn fuel s e) (
                turned-Sent turn s _ _ _ doc long one (
                  push_loop-Sent fuel (turn + count) pieces (turned s) doc
                    (turned-AtPiece turn pieces s _ at long one)
                    (omega (arith, at.capacity, length-drop s.payload_capacity s.buf, h))))
        ]

-- At a piece boundary and with a crate that keeps what it documents, a push sends the buffered and
-- the new bytes in full payloads, each with its signature, as whole pieces in chunks at their
-- addresses; each payload is split off its piece and accepted under the source's public key; less
-- than a payload is kept back, and the chunker stands at a piece boundary of the same stream again,
-- as many chunks further as were sent, with nothing in its own buffer. The geometry is whole
-- chunks, and the addresses are in range.
pub push-Sent :
    (rsa : RsaCrate) (key : rsa.PrivateKey) (chunk_length count turn pieces : ℕ)
    (s : SigningChunker) (bytes : List ℕ)
    → Documented rsa
    → AtPiece rsa key chunk_length count turn pieces (record s { buf = s.buf ++ bytes })
    → Sent rsa key chunk_length count turn
        (record s { buf = s.buf ++ bytes })
        (SigningChunker.push rsa s bytes key).0
        (SigningChunker.push rsa s bytes key).1
unfolding SigningChunker.push
push-Sent rsa key chunk_length count turn pieces s bytes doc at =
    push_loop-Sent rsa key chunk_length count (length (s.buf ++ bytes)) turn pieces
      (record s { buf = s.buf ++ bytes }) doc at (omega arith)

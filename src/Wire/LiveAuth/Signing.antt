-- ===== src/Wire/LiveAuth/Signing.antt =====
-- crates/ace-wire/src/live_auth.rs: signing against verifying.
use outpace.Prelude.{
  ℕ, ◌-◌, ◌≡◌, refl, true, some, List, ◌++◌, length, length-append, take-length-append,
  drop-length-append, arith,
}
use outpace.Wire.LiveAuth
use outpace.Wire.LiveAuth.{RsaCrate, Documented}

-- With a crate that keeps what it documents: a payload that the source signs, with its signature
-- behind it, is split at the length that the source's public key tells into these two parts, and the
-- check under that key accepts them.
pub signed-verifies :
    (rsa : RsaCrate) (key : rsa.PrivateKey) (payload : List ℕ)
    → Documented rsa
    → let signature = LiveAuth.sign rsa key payload in
      let der = LiveAuth.pubkey_der rsa key in
      (LiveAuth.signature_len_from_pubkey_der rsa der ≡ some (LiveAuth.signature_len rsa key))
      × (LiveAuth.split_piece (payload ++ signature) (LiveAuth.signature_len rsa key)
          ≡ some (payload, signature))
      × (LiveAuth.verify_piece rsa der payload signature ≡ true)
unfolding LiveAuth.sign LiveAuth.pubkey_der LiveAuth.signature_len LiveAuth.split_piece
    LiveAuth.signature_len_from_pubkey_der LiveAuth.verify_piece
signed-verifies rsa key payload doc =
    let signature = LiveAuth.sign rsa key payload in
    let known = doc.der_round_trip (rsa.public_key key) in
    let size : length signature ≡ rsa.size (rsa.public_key key) =
      doc.signature_size key (rsa.digest payload) in
    let cut : length (payload ++ signature) - rsa.size (rsa.public_key key) ≡ length payload =
      omega (arith, length-append payload signature) in
    (
      rw (known, LiveAuth.signature_len_from_pubkey_der) refl,
      ground (
        arith,
        length-append payload signature,
        cut,
        take-length-append payload signature,
        drop-length-append payload signature,
      ),
      rw (known, LiveAuth.verify_piece) (doc.accepts key (rsa.digest payload)),
    )

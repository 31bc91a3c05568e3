-- ===== src/Wire/LiveAuth.antt =====
-- crates/ace-wire/src/live_auth.rs: live-source signatures. The `rsa` and `sha1` crates are the
-- parameter `RsaCrate`; the laws that clients rely on are those that PKCS#1 v1.5 documents.
pub mod Signing
pub mod Tests
use outpace.Prelude.{
  ℕ, ◌-◌, Bool, true, false, Option, none, some, List, length, take, drop, ltb, ◌≡◌, if◌then◌else◌,
}

pub record RsaCrate : Type 1 where
  pub PublicKey : Type 0
  pub PrivateKey : Type 0
  pub public_key : PrivateKey → PublicKey
  pub to_public_key_der : PublicKey → List ℕ
  pub from_public_key_der : List ℕ → Option PublicKey
  pub size : PublicKey → ℕ
  pub digest : List ℕ → List ℕ
  pub sign_digest : PrivateKey → List ℕ → List ℕ
  pub verify_digest : PublicKey → List ℕ → List ℕ → Bool

-- A key survives its DER form, a signature is as long as the key's modulus, and the matching
-- public key accepts it.
pub record Documented (rsa : RsaCrate) : Type 0 where
  pub der_round_trip :
      (k : rsa.PublicKey) → rsa.from_public_key_der (rsa.to_public_key_der k) ≡ some k
  pub signature_size :
      (k : rsa.PrivateKey) (d : List ℕ) → length (rsa.sign_digest k d) ≡ rsa.size (rsa.public_key k)
  pub accepts :
      (k : rsa.PrivateKey) (d : List ℕ)
      → rsa.verify_digest (rsa.public_key k) d (rsa.sign_digest k d) ≡ true

module _ (rsa : RsaCrate) where
  unfoldable pub signature_len : rsa.PrivateKey → ℕ
  signature_len key = rsa.size (rsa.public_key key)

  unfoldable pub pubkey_der : rsa.PrivateKey → List ℕ
  pubkey_der key = rsa.to_public_key_der (rsa.public_key key)

  unfoldable pub sign : rsa.PrivateKey → List ℕ → List ℕ
  sign key payload = rsa.sign_digest key (rsa.digest payload)

  unfoldable pub verify_piece : (pubkey_der payload signature : List ℕ) → Bool
  verify_piece pubkey payload signature = elim (rsa.from_public_key_der pubkey) [
    | none ↦ false
    | some key ↦ rsa.verify_digest key (rsa.digest payload) signature
  ]

  unfoldable pub signature_len_from_pubkey_der : List ℕ → Option ℕ
  signature_len_from_pubkey_der pubkey = elim (rsa.from_public_key_der pubkey) [
    | none ↦ none
    | some key ↦ some (rsa.size key)
  ]

unfoldable pub split_piece : List ℕ → ℕ → Option (List ℕ × List ℕ)
split_piece piece sig_len =
    if ltb (length piece) sig_len
    then none
    else some (take (length piece - sig_len) piece, drop (length piece - sig_len) piece)

-- ===== src/Wire/Identity.antt =====
-- crates/ace-wire/src/identity.rs: the key of a node, and the signature of its handshake. The ed25519-dalek
-- and sha2 crates are the parameter `Ed25519Crate`.
use outpace.Prelude.{ℕ, Bool, true, false, Option, none, some, List, replicate, ◌≡◌}
use outpace.Wire.Bencode
use outpace.Wire.Bencode.{Fields, dict, bytes}
use outpace.Wire.Extended.Names

pub record Ed25519Crate : Type 1 where
  pub SigningKey : Type 0
  pub VerifyingKey : Type 0
  pub verifying_key : SigningKey → VerifyingKey
  pub to_bytes : VerifyingKey → List ℕ
  pub from_bytes : List ℕ → Option VerifyingKey
  pub sign : SigningKey → List ℕ → List ℕ
  pub verify : VerifyingKey → (msg signature : List ℕ) → Bool
  pub sha256 : List ℕ → List ℕ

-- A key survives its byte form, and the matching key accepts a signature.
pub record Documented (ed : Ed25519Crate) : Type 0 where
  pub key_round_trip : (k : ed.VerifyingKey) → ed.from_bytes (ed.to_bytes k) ≡ some k
  pub accepts :
      (k : ed.SigningKey) (msg : List ℕ) → ed.verify (ed.verifying_key k) msg (ed.sign k msg) ≡ true

abbrev pub signature_len : ℕ
signature_len = 64

module _ (ed : Ed25519Crate) where
  unfoldable pub node_id : ed.SigningKey → List ℕ
  node_id key = ed.to_bytes (ed.verifying_key key)

  unfoldable pub sign : ed.SigningKey → List ℕ → List ℕ
  sign key msg = ed.sign key msg

  unfoldable pub handshake_digest : Fields → List ℕ
  handshake_digest fields = ed.sha256 (
      Bencode.encode
        (dict (Bencode.insert_field Names.signature (bytes (replicate signature_len 0)) fields)))

  unfoldable pub verify_handshake : (node_id signature : List ℕ) → Fields → Bool
  verify_handshake node_id signature fields = elim (ed.from_bytes node_id) [
    | none ↦ false
    | some key ↦ ed.verify key (handshake_digest fields) signature
  ]

-- ===== src/Wire.antt =====
-- crates/ace-wire/src/lib.rs: the errors of decoding untrusted wire bytes, and the result type
-- that the crate's modules share.
pub mod Message
pub mod LiveAuth
pub mod Reassembly
pub mod LiveCodec
pub mod Chunker
pub mod SigningChunker
pub mod Handshake
pub mod PeerExchange
pub mod Bencode
pub mod Live
pub mod UtMetadata
pub mod Identity
pub mod Extended
use Prim.Native.String.{String}
use outpace.Prelude.{◌≡◌, refl, ◌⊎◌, inl, inr}

pub data WireError : Type 0 where
  truncated invalid_protection signature_rejected : WireError
  invalid : String → WireError

pub data Result {ℓ} (A : Type ℓ) : Type ℓ where
  ok : A → Result A
  err : WireError → Result A

infixl 5 ◌>>=◌
abbrev pub ◌>>=◌ {ℓ κ} : {A : Type ℓ} {B : Type κ} → Result A → (A → Result B) → Result B
ok a >>= f = f a
err e >>= f = err e

pub Result-cases {ℓ} :
    {A : Type ℓ} (r : Result A) → ((a : A) × (r ≡ ok a)) ⊎ ((e : WireError) × (r ≡ err e))
Result-cases (ok a) = inl (a, refl)
Result-cases (err e) = inr (e, refl)

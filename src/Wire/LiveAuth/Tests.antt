-- ===== src/Wire/LiveAuth/Tests.antt =====
-- The theorem of crates/ace-wire/src/live_auth.rs with a toy signature in place of the crates.
use outpace.Prelude.{ℕ, ◌≡◌, refl, true, some, List, [], ◌∷◌, list_eq, length, arith}
use outpace.Wire.LiveAuth.{RsaCrate, Documented}

-- The signature is the first byte of the digest, and the digest is the payload.
abbrev pub first_of : List ℕ → List ℕ
first_of [] = 0 ∷ []
first_of (x ∷ xs) = x ∷ []

abbrev pub toy : RsaCrate
toy = record {
  PublicKey = Unit {0};
  PrivateKey = Unit {0};
  public_key = λ k. k;
  to_public_key_der = λ k. 0 ∷ [];
  from_public_key_der = λ der. some tt;
  size = λ k. 1;
  digest = λ payload. payload;
  sign_digest = λ k d. first_of d;
  verify_digest = λ k d s. list_eq (first_of d) s;
}

toy_size : (d : List ℕ) → length (first_of d) ≡ 1
toy_size [] = refl
toy_size (x ∷ xs) = refl

toy_accepts : (d : List ℕ) → list_eq (first_of d) (first_of d) ≡ true
toy_accepts [] = refl
toy_accepts (x ∷ xs) = ground arith

pub toy-Documented : Documented toy
toy-Documented = record {
  der_round_trip = λ k. refl;
  signature_size = λ k d. toy_size d;
  accepts = λ k d. toy_accepts d;
}

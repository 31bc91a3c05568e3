-- ===== src/Wire/Extended/Tests.antt =====
-- Runs of crates/ace-wire/src/extended.rs and identity.rs with toy crates.
use outpace.Prelude.{ℕ, ◌≡◌, refl, true, some, List, [], ◌∷◌, list_eq, arith}
use outpace.Prelude.Ints.{pos}
use outpace.Wire.{ok}
use outpace.Wire.Bencode
use outpace.Wire.Bencode.Decimal
use outpace.Wire.Identity
use outpace.Wire.Identity.{Ed25519Crate, Documented}
use outpace.Wire.Extended
use outpace.Wire.Extended.{LivePosition, OutgoingExtendedHandshake, ExtendedHandshake, default_node}
use outpace.Wire.Extended.Signed.{IsOutgoing}
use outpace.Wire.Extended.Reading.{Readable, parse-sign_and_encode}

-- The digest and the signature are the first byte.
abbrev first_of : List ℕ → List ℕ
first_of [] = []
first_of (x ∷ xs) = x ∷ []

abbrev toy : Ed25519Crate
toy = record {
  SigningKey = Unit {0};
  VerifyingKey = Unit {0};
  verifying_key = λ k. k;
  to_bytes = λ k. 9 ∷ [];
  from_bytes = λ b. some tt;
  sign = λ k msg. first_of msg;
  verify = λ k msg signature. list_eq (first_of msg) signature;
  sha256 = first_of;
}

toy_accepts : (msg : List ℕ) → list_eq (first_of msg) (first_of msg) ≡ true
toy_accepts [] = refl
toy_accepts (x ∷ xs) = ground arith

toy-Documented : Documented toy
toy-Documented = record { key_round_trip = λ k. refl; accepts = λ k msg. toy_accepts msg }

abbrev head_position : LivePosition
head_position = record {
  min_piece = pos 100;
  max_piece = pos 200;
  position = pos 200;
  distance_from_source = pos 0;
}

abbrev outgoing : OutgoingExtendedHandshake
outgoing = record {
  ace_metadata_version = pos 1;
  ut_metadata_id = pos 2;
  mi = some head_position;
  node = default_node;
  peer_ip = some (203 ∷ 0 ∷ 113 ∷ 7 ∷ []);
  metadata_size = some (pos 420);
}

outgoing-IsOutgoing : IsOutgoing outgoing
outgoing-IsOutgoing = record {
  version = omega arith;
  metadata_id = omega arith;
  position = record {
    low = omega arith;
    high = omega arith;
    place = omega arith;
    distance = omega arith;
  };
  node_is = record {
    ts_is = omega arith;
    v_is = omega arith;
    pv_is = omega arith;
    p_is = omega arith;
    nt_is = omega arith;
    platform_is = omega arith;
  };
  size = omega arith;
  ip = refl;
}

program : Unit {0}
unfolding Identity.node_id Identity.sign Identity.handshake_digest Extended.inserted
    Extended.inserted_option Extended.map_option Extended.position_fields Extended.base_fields
    Extended.not_negative Extended.le_int Extended.has_live_head Extended.source_end
    Extended.live_window_size Extended.full_position Extended.root_lsp Extended.node_state
    Extended.node_entries Extended.signed_fields Extended.with_signature Extended.sign_and_encode
    Bencode.insert_field Bencode.bytes_lt Bencode.encode Decimal.print_digits Decimal.print_i64
program = tt

parse-sign_and_encode_example :
    (e : ExtendedHandshake) × (Extended.parse (Extended.sign_and_encode toy outgoing tt) ≡ ok e)
    × Readable toy tt outgoing e
unfolding program
parse-sign_and_encode_example =
    parse-sign_and_encode toy tt outgoing toy-Documented outgoing-IsOutgoing (omega arith)

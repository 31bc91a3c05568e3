-- ===== src/Tracker/Codec/Tests.antt =====
-- Runs of crates/ace-tracker/src/codec.rs, and its theorems at concrete packets.
use outpace.Prelude.{ℕ, ◌≡◌, refl, List, [], ◌∷◌, ◌++◌, replicate, arith}
use outpace.Prelude.Ints.{negsuc}
use outpace.Prelude.Net.{SocketAddrV4}
use outpace.Tracker.{ok, err, tracker, transaction_mismatch}
use outpace.Tracker.Codec
use outpace.Tracker.Codec.{TransferState}
use outpace.Tracker.Codec.RoundTrip.{parse_announce_response-build_announce_response}
use outpace.Tracker.Codec.Announce.{parse_announce_request-build_announce_request}

program : Unit {0}
unfolding Codec.parse_connect_request Codec.build_connect_request Codec.parse_connect_response
    Codec.build_connect_response Codec.parse_announce_response Codec.build_announce_response
    Codec.parse_peers Codec.peer_bytes Codec.parse_announce_request Codec.build_announce_request
    Codec.event_code Codec.event_of_code Codec.i32_bits Codec.i32_of_bits
program = tt

abbrev address : (a b c d port : ℕ) → SocketAddrV4
address a b c d port = record { ip = record { a = a; b = b; c = c; d = d }; port = port }

-- The response of the unit test `parse_announce_peers`.
abbrev two_peers : List ℕ
two_peers =
    0 ∷ 0 ∷ 0 ∷ 1 ∷ 0x11 ∷ 0x11 ∷ 0x22 ∷ 0x22 ∷ 0 ∷ 0 ∷ 7 ∷ 8 ∷ 0 ∷ 0 ∷ 0 ∷ 0 ∷ 0 ∷ 0 ∷ 0 ∷ 2 ∷ 5
    ∷ 252 ∷ 161 ∷ 218 ∷ 0x0a ∷ 0x96 ∷ 1 ∷ 2 ∷ 3 ∷ 4 ∷ 0x21 ∷ 0xad ∷ []

abbrev addresses : List SocketAddrV4
addresses = address 5 252 161 218 2710 ∷ address 1 2 3 4 8621 ∷ []

two_peers_parsed : Codec.parse_announce_response two_peers 0x11112222 ≡ ok (1800, addresses)
unfolding program
two_peers_parsed = refl

two_peers_built : Codec.build_announce_response 0x11112222 1800 0 2 addresses ≡ two_peers
unfolding program
two_peers_built = refl

error_action :
    Codec.parse_announce_response (0 ∷ 0 ∷ 0 ∷ 3 ∷ 0 ∷ 0 ∷ 0 ∷ 7 ∷ 110 ∷ 111 ∷ []) 7
    ≡ err (tracker (110 ∷ 111 ∷ []))
unfolding program
error_action = refl

foreign_transaction : Codec.parse_announce_response two_peers 7 ≡ err transaction_mismatch
unfolding program
foreign_transaction = refl

unknown_event : Codec.event_of_code 7 ≡ Codec.no_event
unfolding program
unknown_event = refl

minus_one : Codec.i32_bits (negsuc 0) ≡ 0xffffffff
unfolding program
minus_one = refl

abbrev counters : TransferState
counters = record { downloaded = 0x1122; left = 0x3344; uploaded = 0x5566 }

parse_announce_response-build_announce_response_example :
    Codec.parse_announce_response
      (Codec.build_announce_response 0x11112222 1800 0 2 addresses ++ (9 ∷ 9 ∷ []))
      0x11112222
    ≡ ok (1800, addresses)
parse_announce_response-build_announce_response_example =
    parse_announce_response-build_announce_response 0x11112222 1800 0 2 addresses (9 ∷ 9 ∷ [])
      (omega arith) (omega arith) (omega arith, (omega arith, tt)) (omega arith)

parse_announce_request-build_announce_request_example :
    Codec.parse_announce_request (
      Codec.build_announce_request 5 0x11112222
        (replicate 20 0xab)
        (replicate 20 0xcd)
        6881
        (negsuc 0)
        counters
        Codec.started)
    ≡ ok (record {
      connection_id = 5;
      txid = 0x11112222;
      infohash = replicate 20 0xab;
      peer_id = replicate 20 0xcd;
      transfer = counters;
      event = Codec.started;
      key = 0;
      num_want = negsuc 0;
      port = 6881;
    })
parse_announce_request-build_announce_request_example =
    parse_announce_request-build_announce_request 5 0x11112222 (replicate 20 0xab)
      (replicate 20 0xcd) 6881 (negsuc 0) counters Codec.started (omega arith) (omega arith) refl
      refl (omega arith) (omega arith) (omega arith, omega arith, omega arith)

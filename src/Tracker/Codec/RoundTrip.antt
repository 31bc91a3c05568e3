-- ===== src/Tracker/Codec/RoundTrip.antt =====
-- crates/ace-tracker/src/codec.rs: what one side builds, the other side reads.
use outpace.Prelude.{
  ℕ, ◌+◌, ◌-◌, ◌<◌, ◌≡◌, refl, ap, ◌∙◌, List, [], ◌∷◌, ◌++◌, length, take, drop, All, arith,
  drop-append, length-append, take-length-append,
}
use outpace.Prelude.Bytes.{
  IsU32, IsU64, u16_round_trip, u32_round_trip, u16_to_be_bytes, u32_to_be_bytes, u64_to_be_bytes,
}
use outpace.Prelude.Ints.{ℤ, pos, negsuc}
use outpace.Prelude.Net.{SocketAddrV4, IsAddr}
use outpace.Tracker.{ok}
use outpace.Tracker.Codec
use outpace.Tracker.Codec.{TransferState, AnnounceEvent, ConnectRequest, AnnounceRequest}

-- For a u32 transaction and a u64 connection id, a connect request is read back with its transaction,
-- and a connect response to that transaction with its connection id.
pub parse_connect-build_connect :
    (txid connection_id : ℕ)
    → IsU32 txid
    → IsU64 connection_id
    → (Codec.parse_connect_request (Codec.build_connect_request txid) ≡ ok (record { txid = txid }))
      × (Codec.parse_connect_response (Codec.build_connect_response txid connection_id) txid
          ≡ ok connection_id)
unfolding Codec.parse_connect_request Codec.build_connect_request Codec.parse_connect_response
    Codec.build_connect_response
parse_connect-build_connect txid connection_id ht hc =
    (ground (arith, u32_round_trip txid ht), ground (arith, u32_round_trip txid ht))

parse_peers-peer_bytes :
    (peers : List SocketAddrV4) (rest : List ℕ)
    → All IsAddr peers
    → length rest < 6
    → Codec.parse_peers (Codec.peer_bytes peers ++ rest) ≡ peers
unfolding Codec.parse_peers Codec.peer_bytes
parse_peers-peer_bytes [] [] h short = refl
parse_peers-peer_bytes [] (_ ∷ []) h short = refl
parse_peers-peer_bytes [] (_ ∷ _ ∷ []) h short = refl
parse_peers-peer_bytes [] (_ ∷ _ ∷ _ ∷ []) h short = refl
parse_peers-peer_bytes [] (_ ∷ _ ∷ _ ∷ _ ∷ []) h short = refl
parse_peers-peer_bytes [] (_ ∷ _ ∷ _ ∷ _ ∷ _ ∷ []) h short = refl
parse_peers-peer_bytes [] (_ ∷ _ ∷ _ ∷ _ ∷ _ ∷ _ ∷ _) h short = absurd (omega arith)
parse_peers-peer_bytes (peer ∷ peers) rest h short =
    let later = parse_peers-peer_bytes peers rest h.1 short in
    let port = u16_round_trip peer.port h.0.4 in rw (port, later) refl

-- An announce response whose transaction, interval and addresses have their widths is read back under
-- its transaction: its interval and its peers in order, also if up to five stray bytes follow.
pub parse_announce_response-build_announce_response :
    (txid interval leechers seeders : ℕ) (peers : List SocketAddrV4) (rest : List ℕ)
    → IsU32 txid
    → IsU32 interval
    → All IsAddr peers
    → length rest < 6
    → Codec.parse_announce_response
        (Codec.build_announce_response txid interval leechers seeders peers ++ rest)
        txid
      ≡ ok (interval, peers)
unfolding Codec.parse_announce_response Codec.build_announce_response
parse_announce_response-build_announce_response txid interval leechers seeders peers rest ht hi h
      short =
    ground (
      arith,
      u32_round_trip txid ht,
      u32_round_trip interval hi,
      parse_peers-peer_bytes peers rest h short,
    )

-- An i32 in range.
abbrev pub IsI32 : ℤ → Type 0
IsI32 (pos n) = n < 0x80000000
IsI32 (negsuc n) = n < 0x80000000

pub i32_round_trip :
    (n : ℤ) → IsI32 n → IsU32 (Codec.i32_bits n) × (Codec.i32_of_bits (Codec.i32_bits n) ≡ n)
unfolding Codec.i32_of_bits Codec.i32_bits
i32_round_trip (pos n) h = (omega arith, ground arith)
i32_round_trip (negsuc n) h =
    let back : 4294967296 - 1 - (4294967296 - 1 - n) ≡ n = omega arith in
    (omega arith, ground (arith, back))

pub event_round_trip :
    (event : AnnounceEvent)
    → IsU32 (Codec.event_code event) × (Codec.event_of_code (Codec.event_code event) ≡ event)
unfolding Codec.event_code Codec.event_of_code
event_round_trip Codec.no_event = (omega arith, refl)
event_round_trip Codec.completed = (omega arith, refl)
event_round_trip Codec.started = (omega arith, refl)
event_round_trip Codec.stopped = (omega arith, refl)

-- The part of an announce request behind the peer id.
abbrev pub request_tail : (port : ℕ) (num_want : ℤ) → TransferState → AnnounceEvent → List ℕ
request_tail port num_want transfer event =
    u64_to_be_bytes transfer.downloaded
    ++ (u64_to_be_bytes transfer.left
        ++ (u64_to_be_bytes transfer.uploaded
            ++ (u32_to_be_bytes (Codec.event_code event)
                ++ (u32_to_be_bytes 0
                    ++ (u32_to_be_bytes 0
                        ++ (u32_to_be_bytes (Codec.i32_bits num_want) ++ u16_to_be_bytes port))))))

-- The fields behind the two ids are read from the tail.
pub tail_reads :
    (connection_id txid : ℕ) (infohash peer_id : List ℕ) (port : ℕ) (num_want : ℤ)
    (transfer : TransferState) (event : AnnounceEvent)
    → length infohash ≡ 20
    → length peer_id ≡ 20
    → (m k : ℕ) → m ≡ 16 + (20 + (20 + k))
    → drop m (
        Codec.build_announce_request connection_id txid infohash peer_id port num_want transfer
          event)
      ≡ drop k (request_tail port num_want transfer event)
unfolding Codec.build_announce_request
tail_reads connection_id txid infohash peer_id port num_want transfer event hi hp m k e =
    let tail = request_tail port num_want transfer event in
    let front =
      u64_to_be_bytes connection_id
      ++ (u32_to_be_bytes Codec.action_announce ++ u32_to_be_bytes txid) in
    rw e (
      drop-append front (infohash ++ (peer_id ++ tail)) 16 (20 + (20 + k)) refl
      ∙ drop-append infohash (peer_id ++ tail) 20 (20 + k) hi
      ∙ drop-append peer_id tail 20 k hp)

pub ids_read :
    (connection_id txid : ℕ) (infohash peer_id : List ℕ) (port : ℕ) (num_want : ℤ)
    (transfer : TransferState) (event : AnnounceEvent)
    → length infohash ≡ 20
    → length peer_id ≡ 20
    → let buf =
        Codec.build_announce_request connection_id txid infohash peer_id port num_want transfer
          event in
      (take 20 (drop 16 buf) ≡ infohash) × (take 20 (drop 36 buf) ≡ peer_id) × (length buf ≡ 98)
unfolding Codec.build_announce_request
ids_read connection_id txid infohash peer_id port num_want transfer event hi hp =
    let tail = request_tail port num_want transfer event in
    let first : take 20 (infohash ++ (peer_id ++ tail)) ≡ infohash =
      rw⁻¹ hi (take-length-append infohash (peer_id ++ tail)) in
    let second : take 20 (drop (20 + 0) (infohash ++ (peer_id ++ tail))) ≡ peer_id =
      ap (take 20) (drop-append infohash (peer_id ++ tail) 20 0 hi)
      ∙ rw⁻¹ hp (take-length-append peer_id tail) in
    (
      first,
      second,
      omega (arith, length-append infohash (peer_id ++ tail), length-append peer_id tail),
    )

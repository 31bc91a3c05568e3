-- ===== src/Tracker/Codec.antt =====
-- crates/ace-tracker/src/codec.rs: the packets of the UDP tracker protocol, from both sides.
pub mod RoundTrip
pub mod Announce
pub mod Acceptance
mod Tests
use outpace.Prelude.{
  ℕ, ◌+◌, ◌-◌, ◌<◌, not, List, [], ◌∷◌, ◌++◌, length, take, drop, ltb, ◌==◌, if◌then◌else◌, u32_mod,
}
use outpace.Prelude.Bytes.{
  u16_to_be_bytes, u32_to_be_bytes, u64_to_be_bytes, u16_from_be_bytes, u16_at, u32_at, u64_at,
}
use outpace.Prelude.Ints.{ℤ, pos, negsuc}
use outpace.Prelude.Net.{Ipv4Addr, SocketAddrV4, octets}
use outpace.Tracker.{Result, ok, err, malformed, transaction_mismatch, tracker}

abbrev pub protocol_id : ℕ
protocol_id = 0x41727101980

abbrev pub action_connect : ℕ
action_connect = 0

abbrev pub action_announce : ℕ
action_announce = 1

abbrev pub action_error : ℕ
action_error = 3

pub data AnnounceEvent : Type 0 where
  no_event completed started stopped : AnnounceEvent

-- `event as u32`.
unfoldable pub event_code : AnnounceEvent → ℕ
event_code no_event = 0
event_code completed = 1
event_code started = 2
event_code stopped = 3

-- The match on a received event.
unfoldable pub event_of_code : ℕ → AnnounceEvent
event_of_code code =
    if code == 1
    then completed
    else if code == 2
    then started
    else if code == 3
    then stopped
    else no_event

-- The two's complement of an i32.
unfoldable pub i32_bits : ℤ → ℕ
i32_bits (pos n) = n
i32_bits (negsuc n) = u32_mod - 1 - n

unfoldable pub i32_of_bits : ℕ → ℤ
i32_of_bits n = if ltb n 0x80000000 then pos n else negsuc (u32_mod - 1 - n)

unfoldable pub build_connect_request : (txid : ℕ) → List ℕ
build_connect_request txid =
    u64_to_be_bytes protocol_id ++ (u32_to_be_bytes action_connect ++ u32_to_be_bytes txid)

unfoldable pub parse_connect_response : (buf : List ℕ) (txid : ℕ) → Result ℕ
parse_connect_response buf txid =
    if ltb (length buf) 16
    then err (malformed "connect resp < 16")
    else if not (u32_at buf 4 == txid)
    then err transaction_mismatch
    else if not (u32_at buf 0 == action_connect)
    then err (malformed "not a connect action")
    else ok (u64_at buf 8)

pub record TransferState : Type 0 where
  pub downloaded : ℕ
  pub left : ℕ
  pub uploaded : ℕ

unfoldable pub build_announce_request :
    (connection_id txid : ℕ) (infohash peer_id : List ℕ) (port : ℕ) (num_want : ℤ)
    → TransferState
    → AnnounceEvent
    → List ℕ
unfolding event_code i32_bits
build_announce_request connection_id txid infohash peer_id port num_want transfer event =
    u64_to_be_bytes connection_id
    ++ (u32_to_be_bytes action_announce
        ++ (u32_to_be_bytes txid
            ++ (infohash
                ++ (peer_id
                    ++ (u64_to_be_bytes transfer.downloaded
                        ++ (u64_to_be_bytes transfer.left
                            ++ (u64_to_be_bytes transfer.uploaded
                                ++ (u32_to_be_bytes (event_code event)
                                    ++ (u32_to_be_bytes 0
                                        ++ (u32_to_be_bytes 0
                                            ++ (u32_to_be_bytes (i32_bits num_want)
                                                ++ u16_to_be_bytes port)))))))))))

-- `while i + 6 <= buf.len()`, on the bytes from `i` on.
unfoldable pub parse_peers : List ℕ → List SocketAddrV4
parse_peers (a ∷ b ∷ c ∷ d ∷ hi ∷ lo ∷ rest) =
    record { ip = record { a = a; b = b; c = c; d = d }; port = u16_from_be_bytes hi lo }
    ∷ parse_peers rest
parse_peers _ = []

unfoldable pub parse_announce_response : (buf : List ℕ) (txid : ℕ) → Result (ℕ × List SocketAddrV4)
unfolding parse_peers
parse_announce_response buf txid =
    if ltb (length buf) 8
    then err (malformed "announce resp < 8")
    else if not (u32_at buf 4 == txid)
    then err transaction_mismatch
    else if u32_at buf 0 == action_error
    then err (tracker (drop 8 buf))
    else if not (u32_at buf 0 == action_announce)
    then err (malformed "not an announce action")
    else if ltb (length buf) 20
    then err (malformed "announce header < 20")
    else ok (u32_at buf 8, parse_peers (drop 20 buf))

pub record ConnectRequest : Type 0 where
  pub txid : ℕ

unfoldable pub parse_connect_request : List ℕ → Result ConnectRequest
parse_connect_request buf =
    if ltb (length buf) 16
    then err (malformed "connect req < 16")
    else if not (u64_at buf 0 == protocol_id)
    then err (malformed "bad protocol id")
    else if not (u32_at buf 8 == action_connect)
    then err (malformed "not a connect action")
    else ok (record { txid = u32_at buf 12 })

unfoldable pub build_connect_response : (txid connection_id : ℕ) → List ℕ
build_connect_response txid connection_id =
    u32_to_be_bytes action_connect ++ (u32_to_be_bytes txid ++ u64_to_be_bytes connection_id)

pub record AnnounceRequest : Type 0 where
  pub connection_id : ℕ
  pub txid : ℕ
  pub infohash : List ℕ
  pub peer_id : List ℕ
  pub transfer : TransferState
  pub event : AnnounceEvent
  pub key : ℕ
  pub num_want : ℤ
  pub port : ℕ

unfoldable pub parse_announce_request : List ℕ → Result AnnounceRequest
unfolding event_of_code i32_of_bits
parse_announce_request buf =
    if ltb (length buf) 98
    then err (malformed "announce req < 98")
    else if not (u32_at buf 8 == action_announce)
    then err (malformed "not an announce action")
    else ok (record {
      connection_id = u64_at buf 0;
      txid = u32_at buf 12;
      infohash = take 20 (drop 16 buf);
      peer_id = take 20 (drop 36 buf);
      transfer = record {
        downloaded = u64_at buf 56;
        left = u64_at buf 64;
        uploaded = u64_at buf 72;
      };
      event = event_of_code (u32_at buf 80);
      key = u32_at buf 88;
      num_want = i32_of_bits (u32_at buf 92);
      port = u16_at buf 96;
    })

-- The loop that writes the peers.
unfoldable pub peer_bytes : List SocketAddrV4 → List ℕ
peer_bytes [] = []
peer_bytes (peer ∷ peers) = octets peer.ip ++ (u16_to_be_bytes peer.port ++ peer_bytes peers)

unfoldable pub build_announce_response :
    (txid interval leechers seeders : ℕ) → List SocketAddrV4 → List ℕ
unfolding peer_bytes
build_announce_response txid interval leechers seeders peers =
    u32_to_be_bytes action_announce
    ++ (u32_to_be_bytes txid
        ++ (u32_to_be_bytes interval
            ++ (u32_to_be_bytes leechers ++ (u32_to_be_bytes seeders ++ peer_bytes peers))))

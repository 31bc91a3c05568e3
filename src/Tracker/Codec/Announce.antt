-- ===== src/Tracker/Codec/Announce.antt =====
-- crates/ace-tracker/src/codec.rs: an announce request from the client to the server.
use outpace.Prelude.{ℕ, ◌≡◌, refl, List, length, take, drop, arith}
use outpace.Prelude.Bytes.{
  IsU16, IsU32, IsU64, u16_round_trip, u32_round_trip, u64_digits, u32_at, u16_at, u64_at,
}
use outpace.Prelude.Ints.{ℤ}
use outpace.Tracker.{ok}
use outpace.Tracker.Codec
use outpace.Tracker.Codec.{TransferState, AnnounceEvent, AnnounceRequest}
use outpace.Tracker.Codec.RoundTrip.{IsI32, i32_round_trip, event_round_trip, tail_reads, ids_read}

-- The fields of a request whose reads are known.
read_fields :
    (buf infohash peer_id : List ℕ) (connection_id txid : ℕ) (transfer : TransferState)
    (event : AnnounceEvent) (num_want : ℤ) (port : ℕ)
    → length buf ≡ 98
    → u32_at buf 8 ≡ 1
    → u64_at buf 0 ≡ connection_id
    → u32_at buf 12 ≡ txid
    → take 20 (drop 16 buf) ≡ infohash
    → take 20 (drop 36 buf) ≡ peer_id
    → u64_at buf 56 ≡ transfer.downloaded
    → u64_at buf 64 ≡ transfer.left
    → u64_at buf 72 ≡ transfer.uploaded
    → Codec.event_of_code (u32_at buf 80) ≡ event
    → u32_at buf 88 ≡ 0
    → Codec.i32_of_bits (u32_at buf 92) ≡ num_want
    → u16_at buf 96 ≡ port
    → Codec.parse_announce_request buf
      ≡ ok (record {
        connection_id = connection_id;
        txid = txid;
        infohash = infohash;
        peer_id = peer_id;
        transfer = transfer;
        event = event;
        key = 0;
        num_want = num_want;
        port = port;
      })
unfolding Codec.parse_announce_request
read_fields buf ih pid cid txid transfer event nw port len act e0 e1 e2 e3 e4 e5 e6 e7 e8 e9 e10 =
    ground arith

-- The counters of a transfer are u64.
abbrev pub IsTransfer : TransferState → Type 0
IsTransfer t = IsU64 t.downloaded × IsU64 t.left × IsU64 t.uploaded

-- An announce request with fields of their width is read back whole by the server, the key as zero.
pub parse_announce_request-build_announce_request :
    (connection_id txid : ℕ) (infohash peer_id : List ℕ) (port : ℕ) (num_want : ℤ)
    (transfer : TransferState) (event : AnnounceEvent)
    → IsU64 connection_id
    → IsU32 txid
    → length infohash ≡ 20
    → length peer_id ≡ 20
    → IsU16 port
    → IsI32 num_want
    → IsTransfer transfer
    → Codec.parse_announce_request (
        Codec.build_announce_request connection_id txid infohash peer_id port num_want transfer
          event)
      ≡ ok (record {
        connection_id = connection_id;
        txid = txid;
        infohash = infohash;
        peer_id = peer_id;
        transfer = transfer;
        event = event;
        key = 0;
        num_want = num_want;
        port = port;
      })
parse_announce_request-build_announce_request cid txid ih pid port nw transfer event hc ht hi hp
      hport hn (hd, hl, hu) =
    let buf = Codec.build_announce_request cid txid ih pid port nw transfer event in
    let ids = ids_read cid txid ih pid port nw transfer event hi hp in
    let (n_fits, n_back) = i32_round_trip nw hn in
    let (e_fits, e_back) = event_round_trip event in
    let at = tail_reads cid txid ih pid port nw transfer event hi hp in
    read_fields buf ih pid cid txid transfer event nw port ids.2
      (unfold Codec.build_announce_request in refl)
      (unfold Codec.build_announce_request in u64_digits cid hc)
      (unfold Codec.build_announce_request in u32_round_trip txid ht) ids.0 ids.1
      (rw (at 56 0 refl, at 60 4 refl) (u64_digits transfer.downloaded hd))
      (rw (at 64 8 refl, at 68 12 refl) (u64_digits transfer.left hl))
      (rw (at 72 16 refl, at 76 20 refl) (u64_digits transfer.uploaded hu))
      (rw (at 80 24 refl, u32_round_trip (Codec.event_code event) e_fits) e_back)
      (rw (at 88 32 refl) refl)
      (rw (at 92 36 refl, u32_round_trip (Codec.i32_bits nw) n_fits) n_back)
      (rw (at 96 40 refl) (u16_round_trip port hport))

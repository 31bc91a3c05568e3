-- ===== src/Tracker/Codec/Acceptance.antt =====
-- crates/ace-tracker/src/codec.rs: what a response that is accepted looked like.
use outpace.Prelude.{
  ℕ, ◌+◌, ◌*◌, ◌≤◌, ◌<◌, ◌≡◌, ap, List, [], ◌∷◌, length, drop, length-drop, arith,
}
use outpace.Prelude.Bytes.{u32_at}
use outpace.Prelude.Net.{SocketAddrV4}
use outpace.Tracker.{ok}
use outpace.Tracker.Codec

length-parse_peers :
    (bytes : List ℕ)
    → (6 * length (Codec.parse_peers bytes) ≤ length bytes)
      × (length bytes < 6 * length (Codec.parse_peers bytes) + 6)
unfolding Codec.parse_peers
length-parse_peers [] = omega arith
length-parse_peers (_ ∷ []) = omega arith
length-parse_peers (_ ∷ _ ∷ []) = omega arith
length-parse_peers (_ ∷ _ ∷ _ ∷ []) = omega arith
length-parse_peers (_ ∷ _ ∷ _ ∷ _ ∷ []) = omega arith
length-parse_peers (_ ∷ _ ∷ _ ∷ _ ∷ _ ∷ []) = omega arith
length-parse_peers (_ ∷ _ ∷ _ ∷ _ ∷ _ ∷ _ ∷ rest) = omega (arith, length-parse_peers rest)

accepted_reads :
    (buf : List ℕ) (txid : ℕ) {interval : ℕ} {peers : List SocketAddrV4}
    → Codec.parse_announce_response buf txid ≡ ok (interval, peers)
    → (20 ≤ length buf)
      × (u32_at buf 4 ≡ txid)
      × (u32_at buf 0 ≡ Codec.action_announce)
      × (Codec.parse_peers (drop 20 buf) ≡ peers)
unfolding Codec.parse_announce_response
accepted_reads buf txid f = (ground arith, ground arith, ground arith, ground arith)

-- An announce response that is accepted carries the transaction and the announce action, has its
-- twenty header bytes, and gives as many peers as six-byte records fit behind them.
pub parse_announce_response_accepts :
    (buf : List ℕ) (txid : ℕ) {interval : ℕ} {peers : List SocketAddrV4}
    → Codec.parse_announce_response buf txid ≡ ok (interval, peers)
    → (u32_at buf 4 ≡ txid)
      × (u32_at buf 0 ≡ Codec.action_announce)
      × (20 + 6 * length peers ≤ length buf)
      × (length buf < 20 + 6 * length peers + 6)
parse_announce_response_accepts buf txid {interval} {peers} e =
    let (long, same, act, records) = accepted_reads buf txid e in
    let (fits, all) = length-parse_peers (drop 20 buf) in
    (
      same,
      act,
      omega (arith, length-drop 20 buf, ap length records),
      omega (arith, length-drop 20 buf, ap length records),
    )

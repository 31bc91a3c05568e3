-- ===== src/Wire/PeerExchange/Records.antt =====
-- crates/ace-wire/src/peer_exchange.rs: what is read from the records of a message.
use outpace.Prelude.{
  ℕ, zero, suc, ◌+◌, ◌-◌, ◌*◌, ◌/◌, min, ◌≤◌, ◌<◌, ◌≡◌, ◌≢◌, refl, sym, drop-drop, ap, ◌∙◌, false,
  Option, none, some, List, length, take, drop, All, ltb, Bool-cases, inl, inr, arith, mul_le_mono,
  ltb_of_le, u32_mod,
}
use mathlib.Core.List.{Memᴰ}
use mathlib.Core.List.Memᴰ.{head, tail}
use native.Mathlib.Nat.{div-mul-le_self}
use outpace.Prelude.Bytes.{u16_at, u32_at}
use outpace.Wire.PeerExchange
use outpace.Wire.PeerExchange.{PexPeer, PieceWindow, is_unusable}

-- A window that a peer can serve, or none.
abbrev pub IsWindow : Option PieceWindow → Type 0
IsWindow none = Unit {0}
IsWindow (some w) = (0 < w.min) × (w.min ≤ w.max) × (w.max ≢ u32_mod - 1)

abbrev pub IsUsable : PexPeer → Type 0
IsUsable p = (is_unusable p.addr ≡ false) × IsWindow p.window

some-IsWindow :
    (lo hi : ℕ) (w : PieceWindow) → PeerExchange.window_of lo hi ≡ some w → IsWindow (some w)
unfolding PeerExchange.window_of
some-IsWindow lo hi w e = (ground arith, ground arith, λ f. ground arith)

window_of-IsWindow : (lo hi : ℕ) → IsWindow (PeerExchange.window_of lo hi)
window_of-IsWindow lo hi = shown (PeerExchange.window_of lo hi) refl
  where
    shown : (o : Option PieceWindow) → PeerExchange.window_of lo hi ≡ o → IsWindow o
    shown none e = tt
    shown (some w) e = some-IsWindow lo hi w e

parse_window-IsWindow : (bytes : List ℕ) → IsWindow (PeerExchange.parse_window bytes)
unfolding PeerExchange.parse_window
parse_window-IsWindow bytes =
    elim (Bool-cases (ltb (length bytes) PeerExchange.window_end_in_record)) [
      | inl short ↦ rw short tt
      | inr long ↦ rw long (
          window_of-IsWindow (u32_at bytes PeerExchange.min_piece_offset_in_record)
            (u32_at bytes PeerExchange.position_offset_in_record))
    ]

parse_records-All :
    (n size : ℕ) (bytes : List ℕ)
    → All IsUsable (PeerExchange.parse_records n size bytes)
      × (length (PeerExchange.parse_records n size bytes) ≤ n)
unfolding PeerExchange.parse_records
parse_records-All zero size bytes = (tt, omega arith)
parse_records-All (suc n) size bytes =
    let (all, few) = parse_records-All n size (drop size bytes) in
    let addr = PeerExchange.addr_at (take size bytes) PeerExchange.ip_offset_in_record in
    elim (Bool-cases (is_unusable addr)) [
      | inl skip ↦ rw skip (all, omega (arith, few))
      | inr good ↦
          rw good (((good, parse_window-IsWindow (take size bytes)), all), omega (arith, few))
    ]

-- The peer of a record.
abbrev pub peer_of : List ℕ → PexPeer
peer_of entry = record {
  addr = PeerExchange.addr_at entry PeerExchange.ip_offset_in_record;
  window = PeerExchange.parse_window entry;
}

parse_records-Mem :
    (n size i : ℕ) (bytes : List ℕ)
    → i < n
    → let peer = peer_of (take size (drop (i * size) bytes)) in
      is_unusable peer.addr ≡ false → Memᴰ peer (PeerExchange.parse_records n size bytes)
unfolding PeerExchange.parse_records
parse_records-Mem zero size i bytes inside = absurd (omega arith)
parse_records-Mem (suc n) size zero bytes inside =
    let here : 0 * size ≡ 0 = omega arith in rw here (λ good. rw good (head refl))
parse_records-Mem (suc n) size (suc i) bytes inside =
    let later = parse_records-Mem n size i (drop size bytes) (omega arith) in
    let next : suc i * size ≡ size + i * size = omega arith in
    let moved : drop (suc i * size) bytes ≡ drop (i * size) (drop size bytes) =
      ap (λ k. drop k bytes) next ∙ sym (drop-drop (i * size) size bytes) in
    rw moved (λ good.
      elim (Bool-cases
        (is_unusable (PeerExchange.addr_at (take size bytes) PeerExchange.ip_offset_in_record))) [
          | inl skip ↦ rw skip (later good)
          | inr keep ↦ rw keep (tail (later good))
        ])

-- The number of records that a message has room for.
abbrev pub record_count : List ℕ → ℕ
record_count payload =
    min (u16_at payload PeerExchange.count_offset)
      ((length payload - PeerExchange.header_len) / u32_at payload PeerExchange.record_size_offset)

-- Each peer that a message yields has an address and a port that are not zero, and its window, if it
-- has one, starts above zero, is not inverted and does not end at the unknown mark. There are no more
-- than the message counts, and the message is long enough for their records.
pub parse_peer_exchange_detailed-All :
    (payload : List ℕ)
    → let peers = PeerExchange.parse_peer_exchange_detailed payload in
      All IsUsable peers
      × (length peers ≤ u16_at payload PeerExchange.count_offset)
      × (length peers * u32_at payload PeerExchange.record_size_offset
          ≤ length payload - PeerExchange.header_len)
unfolding PeerExchange.parse_peer_exchange_detailed
parse_peer_exchange_detailed-All payload =
    let size = u32_at payload PeerExchange.record_size_offset in
    elim (Bool-cases (ltb (length payload) PeerExchange.header_len)) [
      | inl short ↦ rw short (tt, omega arith, omega arith)
      | inr long ↦ elim (Bool-cases (ltb size (PeerExchange.ip_offset_in_record + 6))) [
        | inl small ↦ rw (long, small) (tt, omega arith, omega arith)
        | inr large ↦
            let (all, few) = parse_records-All (record_count payload) size (drop 16 payload) in
            let room = div-mul-le_self (length payload - 16) size in
            rw (long, large)
              (
                all,
                omega (arith, few),
                omega (
                  arith,
                  room,
                  mul_le_mono
                      (length
                        (PeerExchange.parse_records (record_count payload) size (drop 16 payload)))
                      ((length payload - 16) / size) size (omega (arith, few)),
                ),
              )
      ]
    ]

-- The bytes of a record.
abbrev pub record_at : List ℕ → ℕ → List ℕ
record_at payload i =
    let size = u32_at payload PeerExchange.record_size_offset in
    take size (drop (i * size) (drop PeerExchange.header_len payload))

-- No usable peer is missed: where the header is there and the records are of at least 17 bytes, each
-- record that is counted and in the message has its peer in the result, unless its address or port
-- is zero.
pub parse_peer_exchange_detailed-Mem :
    (payload : List ℕ) (i : ℕ)
    → PeerExchange.header_len ≤ length payload
    → PeerExchange.ip_offset_in_record + 6 ≤ u32_at payload PeerExchange.record_size_offset
    → i < record_count payload
    → is_unusable (peer_of (record_at payload i)).addr ≡ false
    → Memᴰ (peer_of (record_at payload i)) (PeerExchange.parse_peer_exchange_detailed payload)
unfolding PeerExchange.parse_peer_exchange_detailed
parse_peer_exchange_detailed-Mem payload i long large inside good =
    let size = u32_at payload PeerExchange.record_size_offset in
    let there = parse_records-Mem (record_count payload) size i (drop 16 payload) inside good in
    rw (ltb_of_le (length payload) 16 long, ltb_of_le size 17 large) there

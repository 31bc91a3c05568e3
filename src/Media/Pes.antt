-- ===== src/Media/Pes.antt =====
-- crates/ace-media/src/mpegts.rs: the start of a video PES packet, and whether a picture that a
-- decoder can begin with stands in it.
use outpace.Prelude.{
  ℕ, ◌+◌, ◌-◌, ◌*◌, ◌/◌, ◌%◌, min, ◌==◌, ◌&&◌, ◌||◌, not, Bool, true, false, Option, none, some,
  List, [], ◌∷◌, length, take, drop, ltb, leb, list_eq, if◌then◌else◌,
}
use outpace.Media.{byte_at, has_bit, then_some, ◌>>=◌}
use outpace.Media.Packet
use outpace.Media.Psi.{VideoCodec, mpeg2, h264, hevc}

-- The local `take`: the next field, and what is behind it.
unfoldable pub take_field : ℕ → List ℕ → Option (List ℕ × List ℕ)
take_field n bytes = then_some (leb n (length bytes)) (take n bytes, drop n bytes)

unfoldable pub timestamp : List ℕ → (prefix : ℕ) → Bool
timestamp f prefix =
    (byte_at f 0 / 16 == prefix)
    && (has_bit 1 (byte_at f 0) && (has_bit 1 (byte_at f 2) && has_bit 1 (byte_at f 4)))

-- A field of `n` bytes that passes a test; what is behind it is left.
unfoldable pub checked_field : ℕ → (List ℕ → Bool) → List ℕ → Option (List ℕ)
checked_field n test bytes = do (f, rest) ← take_field n bytes; then_some (test f) rest

-- The field is there where its flag is set.
unfoldable pub flagged : Bool → (List ℕ → Option (List ℕ)) → List ℕ → Option (List ℕ)
flagged flag read bytes = if flag then read bytes else some bytes

unfoldable pub timestamps : (flags : ℕ) → List ℕ → Option (List ℕ)
timestamps flags bytes =
    let kind = flags / 64 % 4 in
    if kind == 0
    then some bytes
    else if kind == 1
    then none
    else if kind == 2
    then checked_field 5 (λ f. timestamp f 2) bytes
    else checked_field 5 (λ f. timestamp f 3) bytes >>= checked_field 5 (λ f. timestamp f 1)

unfoldable pub escr_valid : List ℕ → Bool
escr_valid f =
    has_bit 4 (byte_at f 0)
    && (has_bit 4 (byte_at f 2) && (has_bit 4 (byte_at f 4) && has_bit 1 (byte_at f 5)))

unfoldable pub rate_valid : List ℕ → Bool
rate_valid f = has_bit 0x80 (byte_at f 0) && has_bit 1 (byte_at f 2)

unfoldable pub trick_valid : List ℕ → Bool
trick_valid f =
    let trick = byte_at f 0 in
    not (ltb 4 (trick / 32) || ((trick / 32 == 2) && not (trick % 8 == 7)))

-- The length of the pack header, and that header.
unfoldable pub pack_header : List ℕ → Option (List ℕ)
pack_header bytes = do (f, rest) ← take_field 1 bytes; checked_field (byte_at f 0) (λ _. true) rest

unfoldable pub all_stuffing : List ℕ → Bool
all_stuffing [] = true
all_stuffing (b ∷ bs) = (b == 0xff) && all_stuffing bs

unfoldable pub selector_valid : List ℕ → Option (List ℕ)
selector_valid extra = do
  (f, rest) ← take_field 1 extra
  let selector = byte_at f 0
  flagged (has_bit 0x80 selector)
      (λ r.
        if not (selector / 2 % 64 == 63)
        then none
        else flagged (not (has_bit 1 selector)) (checked_field 5 (λ f. timestamp f 0xf)) r)
      rest

unfoldable pub second_extension : List ℕ → Option (List ℕ)
second_extension bytes = do
  (f, rest) ← take_field 1 bytes
  let size = byte_at f 0
  _ ← then_some (has_bit 0x80 size) size
  (extra, left) ← take_field (size % 128) rest
  stuffing ← selector_valid extra
  then_some (all_stuffing stuffing) left

unfoldable pub pes_extension : List ℕ → Option (List ℕ)
pes_extension bytes = do
  (f, d0) ← take_field 1 bytes
  let extension = byte_at f 0
  _ ← then_some (extension / 2 % 8 == 7) extension
  d1 ← flagged (has_bit 0x80 extension) (checked_field 16 (λ _. true)) d0
  d2 ← flagged (has_bit 0x40 extension) pack_header d1
  d3 ←
      flagged (has_bit 0x20 extension)
        (checked_field 2 (λ s. has_bit 0x80 (byte_at s 0) && has_bit 0x80 (byte_at s 1))) d2
  d4 ← flagged (has_bit 0x10 extension) (checked_field 2 (λ s. byte_at s 0 / 64 % 4 == 1)) d3
  flagged (has_bit 1 extension) second_extension d4

unfoldable pub optional_header : (flags : ℕ) → List ℕ → Option (List ℕ)
optional_header flags bytes = do
  d0 ← timestamps flags bytes
  d1 ← flagged (has_bit 0x20 flags) (checked_field 6 escr_valid) d0
  d2 ← flagged (has_bit 0x10 flags) (checked_field 3 rate_valid) d1
  d3 ← flagged (has_bit 8 flags) (checked_field 1 trick_valid) d2
  d4 ← flagged (has_bit 4 flags) (checked_field 1 (λ f. has_bit 0x80 (byte_at f 0))) d3
  d5 ← flagged (has_bit 2 flags) (checked_field 2 (λ _. true)) d4
  flagged (has_bit 1 flags) pes_extension d5

unfoldable pub mpeg2_pes_optional_header_valid : (flags : ℕ) → List ℕ → Bool
mpeg2_pes_optional_header_valid flags bytes = elim (optional_header flags bytes) [
  | none ↦ false
  | some rest ↦ all_stuffing rest
]

unfoldable pub video_pes_elementary_payload : List ℕ → Option (List ℕ)
video_pes_elementary_payload payload =
    let declared_length = byte_at payload 4 * 256 + byte_at payload 5 in
    let end =
      if declared_length == 0 then length payload else min (6 + declared_length) (length payload) in
    let start = 9 + byte_at payload 8 in
    if ltb (length payload) 9
      || (not (list_eq (take 3 payload) (0 ∷ 0 ∷ 1 ∷ []))
          || (not (leb 0xe0 (byte_at payload 3) && leb (byte_at payload 3) 0xef)
              || not (byte_at payload 6 / 64 % 4 == 2)))
    then none
    else if ltb end start
        || not (
            mpeg2_pes_optional_header_valid (byte_at payload 7) (take (start - 9) (drop 9 payload)))
    then none
    else some (take (end - start) (drop start payload))

-- `windows(4)` with the start code 00 00 01 00: the first picture header decides.
unfoldable pub mpeg2_has_i_picture : List ℕ → Bool
mpeg2_has_i_picture (a ∷ b ∷ c ∷ d ∷ rest) =
    let later = mpeg2_has_i_picture (b ∷ c ∷ d ∷ rest) in
    if list_eq (a ∷ b ∷ c ∷ d ∷ []) (0 ∷ 0 ∷ 1 ∷ 0 ∷ [])
    then leb 4 (length rest) && (byte_at rest 1 / 8 % 8 == 1)
    else later
mpeg2_has_i_picture _ = false

unfoldable pub is_key_nal : VideoCodec → ℕ → Bool
is_key_nal mpeg2 b = false
is_key_nal h264 b = b % 32 == 5
is_key_nal hevc b = leb 16 (b / 2 % 64) && leb (b / 2 % 64) 21

unfoldable pub any_key_nal : VideoCodec → List ℕ → Bool
any_key_nal codec (a ∷ b ∷ c ∷ d ∷ rest) =
    let later = any_key_nal codec (b ∷ c ∷ d ∷ rest) in
    ((a == 0) && ((b == 0) && ((c == 1) && is_key_nal codec d))) || later
any_key_nal codec _ = false

unfoldable pub picture_starts : VideoCodec → List ℕ → Bool
picture_starts mpeg2 elementary = mpeg2_has_i_picture elementary
picture_starts h264 elementary = any_key_nal h264 elementary
picture_starts hevc elementary = any_key_nal hevc elementary

unfoldable pub elementary_of : List ℕ → Option (List ℕ)
elementary_of pkt = do
  off ← Packet.ts_payload_offset pkt
  video_pes_elementary_payload (drop off pkt)

unfoldable pub payload_has_irap : List ℕ → Option VideoCodec → Bool
payload_has_irap pkt none = false
payload_has_irap pkt (some codec) = elim (elementary_of pkt) [
  | none ↦ false
  | some elementary ↦ picture_starts codec elementary
]

unfoldable pub is_random_access_point : List ℕ → Option VideoCodec → Bool
is_random_access_point pkt codec =
    Packet.ts_pusi pkt && (Packet.ts_random_access_indicator pkt || payload_has_irap pkt codec)

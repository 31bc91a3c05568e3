-- ===== src/Media/Sdt.antt =====
-- crates/ace-media/src/mpegts.rs: the service description table, which carries a stream's title. A
-- `str` is the list of its bytes.
pub mod RoundTrip
mod Tests
use outpace.Prelude.{
  ℕ, zero, suc, ◌+◌, ◌-◌, ◌*◌, ◌/◌, ◌%◌, min, ◌==◌, ◌||◌, not, Bool, true, false, Option, none,
  some, List, [], ◌∷◌, ◌++◌, length, take, drop, replicate, ltb, leb, if◌then◌else◌,
}
use outpace.Prelude.Bytes.{u16_to_be_bytes, u32_to_be_bytes}
use outpace.Media.{ts_sync, ts_packet_len, byte_at, get, then_some, ◌>>=◌}
use outpace.Media.Packet
use outpace.Media.Psi
use outpace.Media.Crc

abbrev pub sdt_pid : ℕ
sdt_pid = 0x11

-- The bytes of "outpace".
abbrev pub provider_name : List ℕ
provider_name = 0x6f ∷ 0x75 ∷ 0x74 ∷ 0x70 ∷ 0x61 ∷ 0x63 ∷ 0x65 ∷ []

abbrev pub max_service_name_bytes : ℕ
max_service_name_bytes = 151

-- The service descriptor, and the section with its checksum.
unfoldable pub service_descriptor : (name : List ℕ) → List ℕ
service_descriptor name =
    0x48 ∷ ((10 + length name) % 256) ∷ 0x01 ∷ 7 ∷ (provider_name ++ ((length name % 256) ∷ name))

unfoldable pub sdt_content : (service_id : ℕ) (name : List ℕ) (transport_stream_id : ℕ) → List ℕ
sdt_content service_id name transport_stream_id =
    let desc = service_descriptor name in
    let section_length = 8 + 5 + length desc + 4 in
    0x42
    ∷ (0xF0 + section_length / 256 % 16)
    ∷ (section_length % 256)
    ∷ (u16_to_be_bytes transport_stream_id
        ++ (0xC1
            ∷ 0
            ∷ 0
            ∷ 0xFF
            ∷ 1
            ∷ 0xFF
            ∷ (u16_to_be_bytes service_id
                ++ (0xFC ∷ (0x80 + length desc / 256 % 16) ∷ (length desc % 256) ∷ desc))))

unfoldable pub sdt_section : (service_id : ℕ) (name : List ℕ) (transport_stream_id : ℕ) → List ℕ
sdt_section service_id name transport_stream_id =
    let content = sdt_content service_id name transport_stream_id in
    content ++ u32_to_be_bytes (Crc.mpeg_crc32 content)

-- One packet; the source writes the section over the stuffing.
unfoldable pub build_sdt_with_transport :
    (service_id : ℕ) (name : List ℕ) (transport_stream_id : ℕ) → List ℕ
build_sdt_with_transport service_id name transport_stream_id =
    let sec = sdt_section service_id name transport_stream_id in
    ts_sync ∷ 0x40 ∷ 0x11 ∷ 0x10 ∷ 0 ∷ (sec ++ replicate (183 - length sec) 0xFF)

unfoldable pub build_sdt : (service_id : ℕ) (name : List ℕ) → List ℕ
build_sdt service_id name = build_sdt_with_transport service_id name 1

-- `pkt.get(p..p + n)`.
unfoldable pub get_range : List ℕ → (p n : ℕ) → Option (List ℕ)
get_range pkt p n = then_some (leb (p + n) (length pkt)) (take n (drop p pkt))

-- What a packet decides: the answer of the whole read, or that the next packet is looked at.
pub data Verdict : Type 0 where
  next_packet : Verdict
  answer : Option (List ℕ) → Verdict

-- `String::from_utf8` of std accepts the texts that `is_utf8` does.
module _ (is_utf8 : List ℕ → Bool) where
  unfoldable pub descriptor_name : List ℕ → (pos : ℕ) → Option (List ℕ)
  descriptor_name pkt pos = do
    provlen ← get pkt (pos + 3)
    namelen ← get pkt (pos + 4 + provlen)
    name ← get_range pkt (pos + 5 + provlen) namelen
    then_some (is_utf8 name) name

  unfoldable pub scan_descriptors : ℕ → List ℕ → (pos end : ℕ) → Verdict
  scan_descriptors zero pkt pos end = next_packet
  scan_descriptors (suc fuel) pkt pos end =
      let rest = scan_descriptors fuel pkt (pos + (2 + byte_at pkt (pos + 1))) end in
      if not (leb (pos + 2) end)
      then next_packet
      else if byte_at pkt pos == 0x48
      then answer (descriptor_name pkt pos)
      else rest

  -- The first entry of the service loop.
  unfoldable pub read_entry : List ℕ → (pos : ℕ) → Verdict
  read_entry pkt pos = elim (get pkt (pos + 3)) [
    | none ↦ answer none
    | some high ↦ elim (get pkt (pos + 4)) [
      | none ↦ answer none
      | some low ↦
          let end = min (pos + 5 + (high % 16 * 256 + low)) ts_packet_len in
          scan_descriptors ts_packet_len pkt (pos + 5) end
    ]
  ]

  unfoldable pub read_packet : List ℕ → Verdict
  read_packet pkt =
      if not (byte_at pkt 0 == ts_sync) || not (Packet.ts_pid pkt == sdt_pid)
      then next_packet
      else elim (Psi.psi_section_start pkt) [
        | none ↦ next_packet
        | some sec ↦ elim (get pkt sec) [
          | none ↦ answer none
          | some table_id ↦ if table_id == 0x42 then read_entry pkt (sec + 11) else next_packet
        ]
      ]

  -- The whole packets of `ts`, of which there are `packets`.
  unfoldable pub read_packets : (packets : ℕ) → List ℕ → Option (List ℕ)
  read_packets zero ts = none
  read_packets (suc packets) ts = elim (read_packet (take ts_packet_len ts)) [
    | answer name ↦ name
    | next_packet ↦ read_packets packets (drop ts_packet_len ts)
  ]

  unfoldable pub read_sdt_service_name : List ℕ → Option (List ℕ)
  read_sdt_service_name ts = read_packets (length ts / ts_packet_len) ts

-- ===== src/Media/Sdt/RoundTrip.antt =====
-- crates/ace-media/src/mpegts.rs: the title that a built service description table carries is the one
-- that read_sdt_service_name finds, and the table's checksum is right.
use outpace.Prelude.{
  ℕ, suc, ◌+◌, ◌-◌, ◌/◌, ◌%◌, ◌≤◌, ◌≡◌, refl, sym, ap, ◌∙◌, Bool, true, Option, some, List, ◌++◌,
  append_assoc, length, length-append, length-replicate, take, drop, take-length-append, replicate,
  arith,
}
use outpace.Prelude.Bytes.{u32_to_be_bytes}
use outpace.Media.{byte_at, get}
use outpace.Media.Packet
use outpace.Media.Psi
use outpace.Media.Crc
use outpace.Media.Crc.Residue.{mpeg_crc32-residue}
use outpace.Media.Sdt
use outpace.Media.Sdt.{Verdict, answer, next_packet}

-- The checksum of a table's section, its own checksum included, is zero.
pub mpeg_crc32-sdt_section :
    (service_id : ℕ) (name : List ℕ) (transport_stream_id : ℕ)
    → Crc.mpeg_crc32 (Sdt.sdt_section service_id name transport_stream_id) ≡ 0
unfolding Sdt.sdt_section
mpeg_crc32-sdt_section service_id name transport_stream_id =
    mpeg_crc32-residue (Sdt.sdt_content service_id name transport_stream_id)

length-sdt_section :
    (service_id : ℕ) (name : List ℕ) (transport_stream_id : ℕ)
    → length (Sdt.sdt_section service_id name transport_stream_id) ≡ length name + 32
unfolding Sdt.sdt_section Sdt.sdt_content Sdt.service_descriptor
length-sdt_section service_id name transport_stream_id = omega (
  arith,
  length-append name
      (u32_to_be_bytes (Crc.mpeg_crc32 (Sdt.sdt_content service_id name transport_stream_id))),
)

pub length-build_sdt_with_transport :
    (service_id : ℕ) (name : List ℕ) (transport_stream_id : ℕ)
    → length name ≤ 151
    → length (Sdt.build_sdt_with_transport service_id name transport_stream_id) ≡ 188
unfolding Sdt.build_sdt_with_transport
length-build_sdt_with_transport service_id name transport_stream_id h =
    let sec = Sdt.sdt_section service_id name transport_stream_id in
    omega (
      arith,
      length-append sec (replicate (183 - length sec) 0xFF),
      length-replicate {A = ℕ} (183 - length sec) 0xFF,
      length-sdt_section service_id name transport_stream_id,
    )

title_bytes :
    (service_id : ℕ) (name : List ℕ) (transport_stream_id : ℕ)
    → length name ≤ 151
    → Sdt.get_range
        (Sdt.build_sdt_with_transport service_id name transport_stream_id)
        33
        (length name)
      ≡ some name
unfolding Sdt.get_range
title_bytes service_id name transport_stream_id h =
    let pkt = Sdt.build_sdt_with_transport service_id name transport_stream_id in
    let size : length pkt ≡ 188 =
      length-build_sdt_with_transport service_id name transport_stream_id h in
    let found : take (length name) (drop 33 pkt) ≡ name =
      unfold Sdt.build_sdt_with_transport Sdt.sdt_section Sdt.sdt_content Sdt.service_descriptor in
      ap (take (length name)) (append_assoc name _ _) ∙ take-length-append name _ in
    ground (arith, size, found)

module _ (is_utf8 : List ℕ → Bool) where
  found_name :
      (pkt : List ℕ) (pos provlen namelen : ℕ) (name : List ℕ)
      → get pkt (pos + 3) ≡ some provlen
      → get pkt (pos + 4 + provlen) ≡ some namelen
      → Sdt.get_range pkt (pos + 5 + provlen) namelen ≡ some name
      → is_utf8 name ≡ true
      → Sdt.descriptor_name is_utf8 pkt pos ≡ some name
  unfolding Sdt.descriptor_name
  found_name pkt pos provlen namelen name p q r valid =
      rw (p, Sdt.descriptor_name) (rw (q, Sdt.descriptor_name) (rw (r, valid) refl))

  descriptor_name-built :
      (service_id : ℕ) (name : List ℕ) (transport_stream_id : ℕ)
      → length name ≤ 151
      → is_utf8 name ≡ true
      → Sdt.descriptor_name is_utf8
          (Sdt.build_sdt_with_transport service_id name transport_stream_id)
          21
        ≡ some name
  unfolding Sdt.build_sdt_with_transport Sdt.sdt_section Sdt.sdt_content Sdt.service_descriptor
  descriptor_name-built service_id name transport_stream_id h valid =
      let small : length name % 256 ≡ length name = omega arith in
      let pkt = Sdt.build_sdt_with_transport service_id name transport_stream_id in
      found_name pkt 21 7 (length name % 256) name refl refl
        (ap (Sdt.get_range pkt 33) small ∙ title_bytes service_id name transport_stream_id h) valid

  first_descriptor :
      (pkt : List ℕ) (fuel end : ℕ)
      → byte_at pkt 21 ≡ 0x48
      → 23 ≤ end
      → Sdt.scan_descriptors is_utf8 (suc fuel) pkt 21 end
        ≡ answer (Sdt.descriptor_name is_utf8 pkt 21)
  unfolding Sdt.scan_descriptors
  first_descriptor pkt fuel end e h = ground (arith, e)

  read_packet-built :
      (service_id : ℕ) (name : List ℕ) (transport_stream_id : ℕ)
      → length name ≤ 151
      → is_utf8 name ≡ true
      → Sdt.read_packet is_utf8 (Sdt.build_sdt_with_transport service_id name transport_stream_id)
        ≡ answer (some name)
  unfolding Sdt.read_packet Sdt.read_entry Packet.ts_pid Packet.ts_payload_offset
      Packet.adaptation_control Psi.psi_section_start Sdt.build_sdt_with_transport Sdt.sdt_section
      Sdt.sdt_content Sdt.service_descriptor
  read_packet-built service_id name transport_stream_id h valid =
      first_descriptor (Sdt.build_sdt_with_transport service_id name transport_stream_id) 187 _ refl
        (omega arith)
      ∙ ap answer (descriptor_name-built service_id name transport_stream_id h valid)

first_packet :
    (is_utf8 : List ℕ → Bool) (packets : ℕ) (pkt rest : List ℕ) (name : Option (List ℕ))
    → take 188 (pkt ++ rest) ≡ pkt
    → Sdt.read_packet is_utf8 pkt ≡ answer name
    → Sdt.read_packets is_utf8 (suc packets) (pkt ++ rest) ≡ name
unfolding Sdt.read_packets
first_packet is_utf8 packets pkt rest name front e =
    let decided : Sdt.read_packet is_utf8 (take 188 (pkt ++ rest)) ≡ answer name =
      ap (Sdt.read_packet is_utf8) front ∙ e in
    rw (decided, Sdt.read_packets) refl

-- A title of at most 151 bytes, put in a table in front of whatever packets, is read back.
pub read_sdt_service_name-build_sdt_with_transport :
    (is_utf8 : List ℕ → Bool) (service_id : ℕ) (name : List ℕ) (transport_stream_id : ℕ)
    (rest : List ℕ)
    → length name ≤ 151
    → is_utf8 name ≡ true
    → Sdt.read_sdt_service_name is_utf8
        (Sdt.build_sdt_with_transport service_id name transport_stream_id ++ rest)
      ≡ some name
unfolding Sdt.read_sdt_service_name
read_sdt_service_name-build_sdt_with_transport is_utf8 service_id name transport_stream_id rest h
      valid =
    let pkt = Sdt.build_sdt_with_transport service_id name transport_stream_id in
    let size : length pkt ≡ 188 =
      length-build_sdt_with_transport service_id name transport_stream_id h in
    let front : take 188 (pkt ++ rest) ≡ pkt =
      ap (λ n. take n (pkt ++ rest)) (sym size) ∙ take-length-append pkt rest in
    let turns : length (pkt ++ rest) / 188 ≡ suc (length rest / 188) =
      omega (arith, length-append pkt rest, size) in
    ap (λ n. Sdt.read_packets is_utf8 n (pkt ++ rest)) turns
    ∙ first_packet is_utf8 (length rest / 188) pkt rest (some name) front
        (read_packet-built is_utf8 service_id name transport_stream_id h valid)

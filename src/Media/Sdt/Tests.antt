-- ===== src/Media/Sdt/Tests.antt =====
-- Runs of crates/ace-media/src/mpegts.rs's service description tables.
use outpace.Prelude.{ℕ, ◌≡◌, refl, true, some, List, [], ◌∷◌, ◌++◌, arith}
use outpace.Media.Crc
use outpace.Media.Sdt
use outpace.Media.Sdt.RoundTrip.{
  mpeg_crc32-sdt_section, read_sdt_service_name-build_sdt_with_transport,
}

-- The published check value of this checksum, of the text 123456789.
check_value :
    Crc.mpeg_crc32 (0x31 ∷ 0x32 ∷ 0x33 ∷ 0x34 ∷ 0x35 ∷ 0x36 ∷ 0x37 ∷ 0x38 ∷ 0x39 ∷ []) ≡ 0x0376E6E7
unfolding Crc.crc_bit Crc.crc_bits Crc.crc_byte Crc.crc_from Crc.mpeg_crc32
check_value = refl

-- "TV".
abbrev title : List ℕ
title = 0x54 ∷ 0x56 ∷ []

mpeg_crc32-sdt_section_example : Crc.mpeg_crc32 (Sdt.sdt_section 1 title 1) ≡ 0
mpeg_crc32-sdt_section_example = mpeg_crc32-sdt_section 1 title 1

read_sdt_service_name-build_sdt_with_transport_example :
    Sdt.read_sdt_service_name (λ _. true) (Sdt.build_sdt_with_transport 1 title 9 ++ (0x47 ∷ []))
    ≡ some title
read_sdt_service_name-build_sdt_with_transport_example =
    read_sdt_service_name-build_sdt_with_transport (λ _. true) 1 title 9 (0x47 ∷ []) (omega arith)
      refl

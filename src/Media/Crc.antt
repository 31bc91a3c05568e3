-- ===== src/Media/Crc.antt =====
-- crates/ace-media/src/mpegts.rs: the checksum of table sections. A u32 is a number below 2^32.
pub mod Residue
use Prim.Native.Nat.{bit_xor}
use outpace.Prelude.{ℕ, zero, suc, ◌*◌, ◌%◌, ◌^◌, ◌/◌, List, [], ◌∷◌, ltb, if◌then◌else◌}

unfoldable pub crc_bit : ℕ → ℕ
crc_bit crc =
    let shifted = crc * 2 % 2 ^ 32 in
    if ltb crc 0x80000000 then shifted else bit_xor shifted 0x04C11DB7

unfoldable pub crc_bits : ℕ → ℕ → ℕ
crc_bits zero crc = crc
crc_bits (suc n) crc = crc_bits n (crc_bit crc)

unfoldable pub crc_byte : ℕ → ℕ → ℕ
crc_byte crc byte = crc_bits 8 (bit_xor crc (byte * 2 ^ 24))

unfoldable pub crc_from : ℕ → List ℕ → ℕ
crc_from crc [] = crc
crc_from crc (byte ∷ bytes) = crc_from (crc_byte crc byte) bytes

unfoldable pub mpeg_crc32 : List ℕ → ℕ
mpeg_crc32 bytes = crc_from 0xFFFFFFFF bytes

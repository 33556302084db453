-- ===== src/Ota/Checksum.antt =====
-- `calculate_crc32` of src/ota/bootloader.c.
use embed_rtos.Base.{ℕ, zero, suc, ◌-◌, List, [], ◌∷◌, bit_and, bit_xor, ◌>>>◌, ◌==◌, if◌then◌else◌}

pub crc_bit : ℕ → ℕ
crc_bit crc = if bit_and crc 1 == 0 then crc >>> 1 else bit_xor (crc >>> 1) 0xedb88320

pub crc_bits : ℕ → ℕ → ℕ
unfolding crc_bit
crc_bits zero crc = crc
crc_bits (suc n) crc = crc_bits n (crc_bit crc)

pub crc32_from : ℕ → List ℕ → ℕ
unfolding crc_bits
crc32_from crc [] = crc
crc32_from crc (byte ∷ bytes) = crc32_from (crc_bits 8 (bit_xor crc byte)) bytes

-- `~crc` is the distance to the greatest word.
unfoldable pub calculate_crc32 : List ℕ → ℕ
unfolding crc32_from
calculate_crc32 bytes = 0xffffffff - crc32_from 0xffffffff bytes

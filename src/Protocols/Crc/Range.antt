-- ===== src/Protocols/Crc/Range.antt =====
-- A checksum is a `uint16_t`.
use embed_rtos.Base.{ℕ, ◌<◌, List, [], ◌∷◌, arith}
use embed_rtos.Protocols.Crc.{crc_step, crc_from, calculate_crc}

pub crc_step-lt : (crc byte : ℕ) → crc_step crc byte < 65536
unfolding crc_step
crc_step-lt crc byte = omega arith

pub crc_from-lt : (crc : ℕ) (bytes : List ℕ) → crc < 65536 → crc_from crc bytes < 65536
unfolding crc_from
crc_from-lt crc [] h = h
crc_from-lt crc (b ∷ bytes) h = crc_from-lt (crc_step crc b) bytes (crc_step-lt crc b)

pub calculate_crc-lt : (bytes : List ℕ) → calculate_crc bytes < 65536
unfolding calculate_crc
calculate_crc-lt bytes = crc_from-lt 0xffff bytes (omega arith)

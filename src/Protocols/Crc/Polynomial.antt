-- ===== src/Protocols/Crc/Polynomial.antt =====
-- The CRC table against the polynomial x^16 + x^12 + x^5 + 1, bit by bit.
use embed_rtos.Base.{
  ℕ, zero, suc, ◌<◌, ◌+◌, ◌≡◌, refl, ap, ◌∙◌, Bool, true, ◌&&◌, List, [], ◌∷◌, arith, get_or,
  length, ltb, ◌==◌, if◌then◌else◌, u16, ◌<<<◌, bit_xor,
}
use embed_rtos.Protocols.Crc.{crc_table}

-- One bit of the division by the polynomial, high bit first.
pub shift_bit : ℕ → ℕ
shift_bit crc = if ltb 0x7fff crc then bit_xor (u16 (crc <<< 1)) 0x1021 else crc <<< 1

pub shift_bits : ℕ → ℕ → ℕ
unfolding shift_bit
shift_bits zero crc = crc
shift_bits (suc n) crc = shift_bits n (shift_bit crc)

-- A table against a function, entry by entry.
module _ (f : ℕ → ℕ) where
  matches_from : ℕ → List ℕ → Bool
  matches_from i [] = true
  matches_from i (x ∷ xs) = (x == f i) && matches_from (i + 1) xs

  matches_at :
      (i : ℕ) (xs : List ℕ) (k : ℕ)
      → matches_from i xs ≡ true
      → k < length xs
      → get_or xs k 0 ≡ f (i + k)
  unfolding matches_from
  matches_at i [] k h l = absurd (omega arith)
  matches_at i (x ∷ xs) zero h l = let e : x ≡ f i = ground arith in e ∙ ap f (omega arith)
  matches_at i (x ∷ xs) (suc k) h l =
      matches_at (i + 1) xs k (ground arith) (omega arith) ∙ ap f (omega arith)

abbrev top_byte : ℕ → ℕ
top_byte i = shift_bits 8 (i <<< 8)

table_checked : (matches_from top_byte 0 crc_table ≡ true) × (length crc_table ≡ 256)
unfolding matches_from crc_table shift_bits
table_checked = (refl, refl)

-- Entry `i` of `crc_table` is the remainder of the byte `i` at the top of the register after eight
-- bits of the division by the polynomial, for every byte.
pub crc_table-eq-shift_bits : (i : ℕ) → i < 256 → get_or crc_table i 0 ≡ shift_bits 8 (i <<< 8)
crc_table-eq-shift_bits i h =
    matches_at top_byte 0 crc_table i table_checked.0 (rw (table_checked.1) h)
    ∙ ap top_byte (omega arith)

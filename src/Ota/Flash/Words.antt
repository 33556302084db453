-- ===== src/Ota/Flash/Words.antt =====
-- Words of flash: `flash_write_word`, `flash_read_word` and `flash_erase_page`.
use embed_rtos.Base.{
  ℕ, suc, ◌+◌, ◌-◌, ◌*◌, ◌/◌, ◌%◌, ◌^◌, ◌<◌, ◌≤◌, ◌≡◌, refl, ap, ◌∙◌, true, some, List, [], ◌∷◌,
  arith, length, leb-false, le→leb, splice, slice, length-splice, slice-splice_self,
  get_elem?-in_range, read_bytes-in_range, write_bytes-in_range, bit_or,
}
use embed_rtos.Base.Bits.{bit_or-field, bit_or_comm, bit_and-mask}
use embed_rtos.Ota.Flash.{
  Layout, boot_ok, flash_erase, erase_page, erased, word_bytes, bytes_word, write_word, read_word,
}

pub or_above : (k q r : ℕ) → r < 2 ^ k → bit_or r (q * 2 ^ k) ≡ q * 2 ^ k + r
or_above k q r h = bit_or_comm r (q * 2 ^ k) ∙ bit_or-field k q r h

-- A word as a number.
pub bytes_word-sum :
    (a b c d : ℕ)
    → a < 256
    → b < 256
    → c < 256
    → d < 256
    → bytes_word a b c d ≡ d * 16777216 + (c * 65536 + (b * 256 + a))
bytes_word-sum a b c d ha hb hc hd =
    rw
      (
        or_above 8 b a ha,
        or_above 16 c (b * 256 + a) (omega arith),
        or_above 24 d (c * 65536 + (b * 256 + a)) (omega arith),
      )
      (omega arith)

pub word_bytes-digits :
    (w : ℕ) → word_bytes w ≡ (w % 256 ∷ w / 256 % 256 ∷ w / 65536 % 256 ∷ w / 16777216 % 256 ∷ [])
word_bytes-digits w =
    rw
      (
        bit_and-mask 8 w,
        bit_and-mask 8 (w / 2 ^ 8),
        bit_and-mask 8 (w / 2 ^ 16),
        bit_and-mask 8 (w / 2 ^ 24),
      )
      refl

pub word_bytes-bytes_word :
    (a b c d : ℕ)
    → a < 256
    → b < 256
    → c < 256
    → d < 256
    → word_bytes (bytes_word a b c d) ≡ (a ∷ b ∷ c ∷ d ∷ [])
word_bytes-bytes_word a b c d ha hb hc hd =
    word_bytes-digits (bytes_word a b c d)
    ∙ rw (bytes_word-sum a b c d ha hb hc hd) (
        let w : ℕ = d * 16777216 + (c * 65536 + (b * 256 + a)) in
        let ea : w % 256 ≡ a = omega arith in
        let eb : w / 256 % 256 ≡ b = omega arith in
        let ec : w / 65536 % 256 ≡ c = omega arith in
        let ed : w / 16777216 % 256 ≡ d = omega arith in rw (ea, eb, ec, ed) refl)

pub bytes_word-word_bytes :
    (w : ℕ)
    → w < 4294967296
    → bytes_word (w % 256) (w / 256 % 256) (w / 65536 % 256) (w / 16777216 % 256) ≡ w
bytes_word-word_bytes w h =
    bytes_word-sum (w % 256) (w / 256 % 256) (w / 65536 % 256) (w / 16777216 % 256) (omega arith)
      (omega arith) (omega arith) (omega arith)
    ∙ omega arith

abbrev word_at : List ℕ → ℕ
word_at (a ∷ b ∷ c ∷ d ∷ rest) = bytes_word a b c d
word_at _ = 0

module _ (layout : Layout) where
  pub write_word-erased :
      (address w : ℕ) (memory : List ℕ)
      → length memory ≡ layout.total_size
      → address + 4 ≤ layout.total_size
      → erased (slice memory 0 address 4) ≡ true
      → write_word layout address w memory ≡ some (boot_ok, splice memory address (word_bytes w))
  unfolding write_word
  write_word-erased address w memory len room e =
      rw
        (
          leb-false (layout.total_size - 3) address (omega arith),
          read_bytes-in_range memory address 4 (omega arith),
          e,
          write_bytes-in_range memory address (word_bytes w) (omega arith),
        )
        refl

  read_word-bytes :
      (address : ℕ) (memory : List ℕ)
      → length memory ≡ layout.total_size
      → address + 4 ≤ layout.total_size
      → read_word layout address memory ≡ some (word_at (slice memory 0 address 4))
  unfolding read_word
  read_word-bytes address memory len room =
      let e1 : address + 1 ≡ suc address = omega arith in
      let e2 : address + 2 ≡ suc (suc address) = omega arith in
      let e3 : address + 3 ≡ suc (suc (suc address)) = omega arith in
      rw
        (
          leb-false (layout.total_size - 3) address (omega arith),
          get_elem?-in_range memory address (omega arith),
          e1,
          e2,
          e3,
          get_elem?-in_range memory (suc address) (omega arith),
          get_elem?-in_range memory (suc (suc address)) (omega arith),
          get_elem?-in_range memory (suc (suc (suc address))) (omega arith),
        )
        refl

  -- Where four bytes within the flash are erased, `flash_write_word` of a word succeeds, and
  -- `flash_read_word` then gives the word back.
  pub write_word-read_word :
      (address w : ℕ) (memory : List ℕ)
      → length memory ≡ layout.total_size
      → address + 4 ≤ layout.total_size
      → w < 4294967296
      → erased (slice memory 0 address 4) ≡ true
      → (memory' : List ℕ) × (write_word layout address w memory ≡ some (boot_ok, memory'))
        × (read_word layout address memory' ≡ some w)
        × (length memory' ≡ length memory)
  write_word-read_word address w memory len room hw e =
      let m : List ℕ = splice memory address (word_bytes w) in
      let same : length m ≡ length memory = length-splice memory address (word_bytes w) in
      let back : slice m 0 address 4 ≡ word_bytes w =
        slice-splice_self memory 0 address (word_bytes w) (omega arith) in
      (
        m,
        write_word-erased address w memory len room e,
        read_word-bytes address m (same ∙ len) room
            ∙ ap (λ bytes. some (word_at bytes)) (back ∙ word_bytes-digits w)
            ∙ ap some (bytes_word-word_bytes w hw),
        same,
      )

  pub erase_page-past :
      (address : ℕ) (memory : List ℕ)
      → layout.total_size ≤ address
      → erase_page layout address memory ≡ some (flash_erase, memory)
  unfolding erase_page
  erase_page-past address memory h = rw (le→leb layout.total_size address h) refl

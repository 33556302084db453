-- ===== src/Ota/Flash.antt =====
-- The simulated flash of src/ota/bootloader.c: `flash_memory`, a list of bytes, and the functions
-- `flash_*`. The outer `Option` of a result is `none` for an access out of bounds. The sizes of
-- bootloader.h are a parameter; `source_layout` is their values, with which both slots lie behind
-- the array.
pub mod Words
pub mod Chunks
pub mod Padding
use embed_rtos.Base.{
  ℕ, zero, suc, ◌+◌, ◌-◌, ◌*◌, Bool, true, false, ◌&&◌, Option, none, some, List, [], ◌∷◌, ◌>>=◌,
  ◌==◌, ltb, leb, if◌then◌else◌, length, u32, add32, sub32, bit_and, bit_or, ◌<<<◌, ◌>>>◌,
  read_bytes, write_bytes, replicate, get_elem?,
}

pub record Layout : Type 0 where
  pub slot_a : ℕ
  pub slot_b : ℕ
  pub page_size : ℕ
  pub total_size : ℕ

abbrev pub source_layout : Layout
source_layout = record {
  slot_a = 0x08004000;
  slot_b = 0x08020000;
  page_size = 0x800;
  total_size = 0x100000;
}

pub data BootError : Type 0 where
  boot_ok no_app crc_mismatch magic_mismatch flash_write flash_erase invalid_size update_in_progress
        rollback_failed :
      BootError

-- Every byte of a list is 0xff.
abbrev pub erased : List ℕ → Bool
erased [] = true
erased (b ∷ bytes) = (b == 0xff) && erased bytes

-- The four bytes of a word, the low one first.
abbrev pub word_bytes : ℕ → List ℕ
word_bytes word =
    bit_and word 0xff
    ∷ bit_and (word >>> 8) 0xff
    ∷ bit_and (word >>> 16) 0xff
    ∷ bit_and (word >>> 24) 0xff
    ∷ []

-- The word of four bytes.
abbrev pub bytes_word : ℕ → ℕ → ℕ → ℕ → ℕ
bytes_word b0 b1 b2 b3 = u32 (bit_or (bit_or (bit_or b0 (b1 <<< 8)) (b2 <<< 16)) (b3 <<< 24))

module _ (layout : Layout) where
  unfoldable pub erase_page : ℕ → List ℕ → Option (BootError × List ℕ)
  erase_page address memory =
      if leb layout.total_size address
      then some (flash_erase, memory)
      else (let page_start = bit_and address (sub32 0xffffffff (layout.page_size - 1)) in
          write_bytes memory page_start (replicate layout.page_size 0xff) >>= λ memory'.
          some (boot_ok, memory'))

  unfoldable pub write_word : ℕ → ℕ → List ℕ → Option (BootError × List ℕ)
  write_word address word memory =
      if leb (layout.total_size - 3) address
      then some (flash_write, memory)
      else (read_bytes memory address 4 >>= λ old.
          if erased old
          then (write_bytes memory address (word_bytes word) >>= λ memory'. some (boot_ok, memory'))
          else some (flash_write, memory))

  pub read_word : ℕ → List ℕ → Option ℕ
  read_word address memory =
      if leb (layout.total_size - 3) address
      then some 0xffffffff
      else (get_elem? memory address >>= λ b0. get_elem? memory (address + 1) >>= λ b1.
          get_elem? memory (address + 2) >>= λ b2.
          get_elem? memory (address + 3) >>= λ b3. some (bytes_word b0 b1 b2 b3))

  -- The bytes of a chunk that are left, as one word: up to four of them, from the low end.
  unfoldable pub chunk_word : List ℕ → ℕ
  chunk_word [] = 0
  chunk_word (a ∷ []) = a
  chunk_word (a ∷ b ∷ []) = bit_or a (b <<< 8)
  chunk_word (a ∷ b ∷ c ∷ []) = bit_or (bit_or a (b <<< 8)) (c <<< 16)
  chunk_word (a ∷ b ∷ c ∷ d ∷ rest) = bytes_word a b c d

  unfoldable pub chunk_rest : List ℕ → List ℕ
  chunk_rest (a ∷ b ∷ c ∷ d ∷ rest) = rest
  chunk_rest _ = []

  -- The loop of `ota_manager_receive_chunk` over the bytes that are left, by words; an error of a
  -- write ends it.
  unfoldable pub write_words : ℕ → ℕ → List ℕ → List ℕ → Option (BootError × List ℕ)
  unfolding write_word
  write_words fuel address [] memory = some (boot_ok, memory)
  write_words zero address (a ∷ rest) memory = none
  write_words (suc fuel) address (a ∷ rest) memory =
      write_word address (chunk_word (a ∷ rest)) memory >>= λ r. elim r.0 [
        | boot_ok ↦ write_words fuel (add32 address 4) (chunk_rest (a ∷ rest)) r.1
        | error ↦ some (error, r.1)
      ]

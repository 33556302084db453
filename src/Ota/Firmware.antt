-- ===== src/Ota/Firmware.antt =====
-- The firmware header of src/ota/bootloader.h, and its checks in src/ota/bootloader.c.
use embed_rtos.Base.{
  inl, inr, ◌≤◌, ◌≡◌, length, arith, Option-cases, read_bytes-in_range, ℕ, ◌+◌, Bool, Option, some,
  List, ◌>>=◌, not, ◌&&◌, ◌||◌, ◌==◌, ltb, leb, if◌then◌else◌, u32, sub32, bit_or, ◌<<<◌,
  read_bytes, get_or, slice, replicate,
}
use embed_rtos.Ota.Flash.{
  Layout, BootError, boot_ok, invalid_size, magic_mismatch, crc_mismatch, bytes_word,
}
use embed_rtos.Ota.Checksum.{calculate_crc32}

abbrev pub firmware_magic : ℕ
firmware_magic = 0xdeadbeef

-- `sizeof(firmware_header_t)`.
abbrev pub header_size : ℕ
header_size = 80

pub record Header : Type 0 where
  pub magic : ℕ
  pub version_major : ℕ
  pub version_minor : ℕ
  pub version_patch : ℕ
  pub version_string : List ℕ
  pub timestamp : ℕ
  pub size : ℕ
  pub crc32 : ℕ
  pub entry_point : ℕ
  pub reserved : List ℕ

-- The header that `memset` leaves.
abbrev pub zero_header : Header
zero_header = record {
  magic = 0;
  version_major = 0;
  version_minor = 0;
  version_patch = 0;
  version_string = replicate 16 0;
  timestamp = 0;
  size = 0;
  crc32 = 0;
  entry_point = 0;
  reserved = replicate 32 0;
}

-- The little-endian word at an index of the bytes of a header.
abbrev word_at : List ℕ → ℕ → ℕ
word_at bytes i =
    bytes_word (get_or bytes i 0) (get_or bytes (i + 1) 0) (get_or bytes (i + 2) 0)
      (get_or bytes (i + 3) 0)

-- `memcpy` of a header out of flash.
unfoldable pub read_header : List ℕ → ℕ → Option Header
read_header memory address = read_bytes memory address header_size >>= λ bytes. some (record {
  magic = word_at bytes 0;
  version_major = word_at bytes 4;
  version_minor = word_at bytes 8;
  version_patch = word_at bytes 12;
  version_string = slice bytes 0 16 16;
  timestamp = word_at bytes 32;
  size = word_at bytes 36;
  crc32 = word_at bytes 40;
  entry_point = word_at bytes 44;
  reserved = slice bytes 0 48 32;
})

pub header-is_read :
    (slot : ℕ) (memory : List ℕ)
    → slot + 80 ≤ length memory
    → (header : Header) × (read_header memory slot ≡ some header)
unfolding read_header
header-is_read slot memory room =
    let read = read_bytes-in_range memory slot 80 room in
    elim (Option-cases (read_header memory slot)) [
      | inl e ↦ absurd (grind (arith, e, read))
      | inr found ↦ found
    ]

unfoldable pub validate_firmware_header : Header → Bool
validate_firmware_header header =
    (header.magic == firmware_magic) && (ltb 0 header.size && not (header.entry_point == 0))

-- The checksum of the bytes behind a header, as many as its size says.
unfoldable pub image_checksum : List ℕ → ℕ → Header → Option ℕ
image_checksum memory address header =
    read_bytes memory (address + header_size) (sub32 header.size header_size) >>= λ bytes.
    some (calculate_crc32 bytes)

-- `(major << 16) | (minor << 8) | patch`.
unfoldable pub version_number : Header → ℕ
version_number header = u32 (
    bit_or (bit_or (header.version_major <<< 16) (header.version_minor <<< 8)) header.version_patch)

unfoldable pub validate_firmware : Layout → ℕ → List ℕ → Option BootError
unfolding read_header image_checksum
validate_firmware layout address memory =
    if leb layout.total_size address
    then some invalid_size
    else (read_header memory address >>= λ header.
        if not (header.magic == firmware_magic)
        then some magic_mismatch
        else (if (header.size == 0) || ltb (sub32 layout.total_size address) header.size
            then some invalid_size
            else (image_checksum memory address header >>= λ calculated_crc.
                if not (calculated_crc == header.crc32) then some crc_mismatch else some boot_ok)))

-- ===== src/Ota/Dump.antt =====
-- The text forms of src/ota/bootloader.c: the version, and the bytes that flash_dump prints.
pub mod Guard
use embed_rtos.Base.{
  ℕ, suc, ◌+◌, ◌-◌, Bool, ◌||◌, Option, none, some, List, [], ◌∷◌, ◌++◌, ◌>>=◌, if◌then◌else◌, ltb,
  leb, ◌==◌, add32, get_elem?, take, codes,
}
use embed_rtos.Base.Print.{decimal}
use embed_rtos.Base.Rows.{read_rows}
use embed_rtos.Ota.Flash.{Layout}
use embed_rtos.Ota.Firmware.{Header}

-- The buffer of the version has 32 bytes, the last of them the NUL.
pub get_version_string : Header → List ℕ
get_version_string h = take 31 (
    codes "v"
    ++ decimal h.version_major
    ++ codes "."
    ++ decimal h.version_minor
    ++ codes "."
    ++ decimal h.version_patch)

-- The guard of flash_dump, whose sum has 32 bits.
pub dump_refused : Layout → ℕ → ℕ → Bool
dump_refused layout address size =
    leb layout.total_size address || size == 0 || ltb layout.total_size (add32 address size)

-- The rows, of which each is printed twice, in hexadecimal and as characters; none where the
-- parameters are refused.
pub flash_dump : Layout → List ℕ → ℕ → ℕ → Option (List (List ℕ))
flash_dump layout flash address size =
    if dump_refused layout address size
    then some []
    else read_rows (get_elem? flash) (suc size) address size 0

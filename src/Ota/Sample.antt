-- ===== src/Ota/Sample.antt =====
-- Test data of the boot and update code: a flash of 100 bytes with its second slot at 8, and firmware
-- of one byte behind its header.
use embed_rtos.Base.{ℕ, false, List, [], ◌∷◌, ◌++◌, replicate}
use embed_rtos.Ota.Flash.{Layout, boot_ok}
use embed_rtos.Ota.Firmware.{Header, zero_header}
use embed_rtos.Ota.Bootloader.{Bootloader, initial}

abbrev pub small_layout : Layout
small_layout = record { slot_a = 0; slot_b = 8; page_size = 8; total_size = 100 }

abbrev pub boot_with : List ℕ → Bootloader
boot_with flash = record {
  state = initial;
  last_error = boot_ok;
  active_slot = 0;
  update_slot = 8;
  active_header = zero_header;
  update_header = zero_header;
  boot_count = 1;
  update_pending = false;
  rollback_requested = false;
  last_boot_time = 0;
  flash = flash;
}

-- The header, the byte 0x61, and its checksum in the header.
abbrev pub firmware : List ℕ
firmware =
    0xef
    ∷ 0xbe
    ∷ 0xad
    ∷ 0xde
    ∷ 1
    ∷ 0
    ∷ 0
    ∷ 0
    ∷ 1
    ∷ 0
    ∷ 0
    ∷ 0
    ∷ 0
    ∷ 0
    ∷ 0
    ∷ 0
    ∷ (replicate 20 0
        ++ (81
            ∷ 0
            ∷ 0
            ∷ 0
            ∷ 0x43
            ∷ 0xbe
            ∷ 0xb7
            ∷ 0xe8
            ∷ 0
            ∷ 0x20
            ∷ 0
            ∷ 8
            ∷ (replicate 32 0 ++ (0x61 ∷ []))))

abbrev pub firmware_header : Header
firmware_header = record zero_header {
  magic = 0xdeadbeef;
  version_major = 1;
  version_minor = 1;
  size = 81;
  crc32 = 0xe8b7be43;
  entry_point = 0x08002000;
}

-- The flash with the firmware in the second slot.
abbrev pub programmed : List ℕ
programmed = replicate 8 0xff ++ (firmware ++ replicate 11 0xff)

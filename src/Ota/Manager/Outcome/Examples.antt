-- ===== src/Ota/Manager/Outcome/Examples.antt =====
-- Firmware of four bytes behind its header, sent in two chunks, in the layout of the source and in a
-- flash of 100 bytes.
use embed_rtos.Base.{
  inl, ℕ, ◌≡◌, refl, Bool, true, false, none, List, [], ◌∷◌, ◌++◌, arith, replicate, ltb,
  if◌then◌else◌, read_bytes,
}
use embed_rtos.Ota.Flash.{Layout, source_layout}
use embed_rtos.Ota.Checksum.{calculate_crc32}
use embed_rtos.Ota.Flash.Chunks.{AllBytes}
use embed_rtos.Ota.Firmware.{Header, read_header, image_checksum, validate_firmware_header}
use embed_rtos.Ota.Sample.{small_layout, boot_with, firmware_header}
use embed_rtos.Ota.Manager.{Manager, waiting_for_start, no_error, accepts, no_chunks}
use embed_rtos.Ota.Manager.Install.{IsImage}
use embed_rtos.Ota.Manager.Outcome.{Ends, receive_all-Ends}
use embed_rtos.Ota.Manager.Update.{IsChunk, joined}

abbrev header_bytes : List ℕ
header_bytes =
    0xef
    ∷ 0xbe
    ∷ 0xad
    ∷ 0xde
    ∷ 1
    ∷ 0
    ∷ 0
    ∷ 0
    ∷ 1
    ∷ 0
    ∷ 0
    ∷ 0
    ∷ 0
    ∷ 0
    ∷ 0
    ∷ 0
    ∷ (replicate 20 0
        ++ (0x54 ∷ 0 ∷ 0 ∷ 0 ∷ 0x11 ∷ 0xcd ∷ 0x82 ∷ 0xed ∷ 0 ∷ 0x20 ∷ 0 ∷ 8 ∷ (replicate 32 0)))

abbrev body_bytes : List ℕ
body_bytes = 0x61 ∷ 0x62 ∷ 0x63 ∷ 0x64 ∷ []

abbrev header : Header
header = record firmware_header { size = 84; crc32 = 0xed82cd11 }

abbrev waiting : Manager
waiting = record {
  state = waiting_for_start;
  last_error = no_error;
  chunk_info = record no_chunks { total_size = 84; chunk_size = 80; total_chunks = 2 };
  firmware_header = firmware_header;
  update_address = 8;
  start_time = 0;
  last_activity_time = 0;
  timeout_ms = 30000;
  abort_requested = false;
  restart_required = false;
  progress_percent = 0;
  total_updates = 1;
  successful_updates = 0;
  failed_updates = 0;
  has_progress_callback = true;
  has_status_callback = false;
  validate_callback = none;
  notices = [];
  bootloader = boot_with (replicate 100 0xff);
}

abbrev at_source : Manager
at_source = record waiting { bootloader = boot_with (replicate source_layout.total_size 0xff) }

abbrev all_small : List ℕ → Bool
all_small [] = true
all_small (b ∷ bytes) = if ltb b 256 then all_small bytes else false

all_small-AllBytes : (bytes : List ℕ) → all_small bytes ≡ true → AllBytes bytes
all_small-AllBytes [] h = _
all_small-AllBytes (b ∷ bytes) h = (ground (arith, h), all_small-AllBytes bytes (ground (arith, h)))

header-IsChunk : IsChunk 80 header_bytes
header-IsChunk = record {
  words = 20;
  whole = refl;
  some_bytes = omega arith;
  are_bytes = all_small-AllBytes header_bytes refl;
  short = omega arith;
}

body-IsChunk : IsChunk 80 body_bytes
body-IsChunk = record {
  words = 1;
  whole = refl;
  some_bytes = omega arith;
  are_bytes = all_small-AllBytes body_bytes refl;
  short = omega arith;
}

sample-IsImage :
    (layout : Layout) (o : Manager)
    → o.validate_callback ≡ none
    → IsImage layout (joined (header_bytes ∷ body_bytes ∷ [])) o
unfolding read_header read_bytes validate_firmware_header image_checksum calculate_crc32 accepts
sample-IsImage layout o free = record {
  header = header;
  is_read = refl;
  is_firmware = refl;
  same_size = refl;
  same_checksum = refl;
  accepted = rw free refl;
}

-- It is installed in the flash of 100 bytes.
installs : Ends small_layout 0 header_bytes (body_bytes ∷ []) waiting
installs =
    receive_all-Ends small_layout 0 header_bytes (body_bytes ∷ []) waiting (omega arith)
      (omega arith) (record { open_for = refl; received = refl; storage = refl })
      (inl (record { room = omega arith; clear = refl })) (header-IsChunk, (body-IsChunk, _)) refl
      (sample-IsImage small_layout waiting refl)

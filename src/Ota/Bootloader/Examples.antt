-- ===== src/Ota/Bootloader/Examples.antt =====
-- An update that is found, switched to and started.
use embed_rtos.Base.{◌≡◌, refl, arith, inl, some, List, [], ◌∷◌, read_bytes}
use embed_rtos.Ota.Checksum.{calculate_crc32}
use embed_rtos.Ota.Flash.{source_layout}
use embed_rtos.Ota.Firmware.{read_header, image_checksum, validate_firmware, version_number}
use embed_rtos.Ota.Bootloader.{
  Bootloader, jump_to_app, check_for_update, switch_to_update, start_app,
}
use embed_rtos.Ota.Bootloader.Images.{Starts, init-Starts}
use embed_rtos.Ota.Bootloader.Slots.{Call, check, switch, jump, call, run, IsSafe, run-IsSafe}
use embed_rtos.Ota.Sample.{small_layout, boot_with, firmware_header, programmed}

abbrev calls : List Call
calls = check ∷ switch ∷ jump 8 ∷ []

abbrev switched : Bootloader
switched = record (boot_with programmed) {
  state = jump_to_app;
  active_slot = 8;
  active_header = firmware_header;
  update_header = firmware_header;
  boot_count = 2;
}

runs : run small_layout calls (boot_with programmed) ≡ some switched
unfolding run call check_for_update switch_to_update start_app validate_firmware read_header
    image_checksum calculate_crc32 read_bytes version_number
runs = refl

run-IsSafe_example : IsSafe small_layout switched × (switched.flash ≡ programmed)
run-IsSafe_example = run-IsSafe small_layout calls (boot_with programmed) (inl refl) runs

-- A start at the time 7 in the layout of the source.
init-Starts_example : Starts source_layout 7
init-Starts_example = init-Starts source_layout 7 (omega arith)

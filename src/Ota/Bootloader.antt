-- ===== src/Ota/Bootloader.antt =====
-- The bootloader of src/ota/bootloader.c: `bootloader_ctx` and `flash_memory` are one record that
-- each function takes and returns. The outer `Option` of a result is `none` for an access out of
-- bounds.
pub mod Slots
pub mod Images
mod Examples
use embed_rtos.Base.{
  ℕ, ◌+◌, Bool, true, false, not, ◌||◌, Option, none, some, List, [], ◌∷◌, ◌++◌, ◌>>=◌, ◌==◌, ltb,
  if◌then◌else◌, u32, add32, write_bytes, replicate,
}
use embed_rtos.Ota.Flash.{Layout, BootError, boot_ok, no_app}
use embed_rtos.Ota.Firmware.{Header, zero_header, read_header, version_number, validate_firmware}

pub data BootState : Type 0 where
  initial check_update validate_app jump_to_app update_in_progress error : BootState

pub record Bootloader : Type 0 where
  pub state : BootState
  pub last_error : BootError
  pub active_slot : ℕ
  pub update_slot : ℕ
  pub active_header : Header
  pub update_header : Header
  pub boot_count : ℕ
  pub update_pending : Bool
  pub rollback_requested : Bool
  pub last_boot_time : ℕ
  pub flash : List ℕ

-- `simulated_firmware_a` and `simulated_firmware_b`.
abbrev pub simulated_firmware_a : List ℕ
simulated_firmware_a =
    0xde ∷ 0xad ∷ 0xbe ∷ 0xef ∷ 1 ∷ 0 ∷ 0 ∷ 0 ∷ 0 ∷ 0 ∷ 0 ∷ 0 ∷ 0 ∷ 0 ∷ 0 ∷ 0 ∷ b'v' ∷ b'1' ∷ b'.'
    ∷ b'0' ∷ b'.' ∷ b'0' ∷ 0 ∷ 0 ∷ 0 ∷ 0 ∷ 0 ∷ 0 ∷ 0 ∷ 0 ∷ 0 ∷ 0 ∷ 0 ∷ 0 ∷ 0 ∷ 0 ∷ 0 ∷ 0x10 ∷ 0 ∷ 0
    ∷ 0xaa ∷ 0xbb ∷ 0xcc ∷ 0xdd ∷ 0 ∷ 0x40 ∷ 0 ∷ 8 ∷ []

abbrev pub simulated_firmware_b : List ℕ
simulated_firmware_b =
    0xde ∷ 0xad ∷ 0xbe ∷ 0xef ∷ 1 ∷ 0 ∷ 0 ∷ 0 ∷ 1 ∷ 0 ∷ 0 ∷ 0 ∷ 0 ∷ 0 ∷ 0 ∷ 0 ∷ b'v' ∷ b'1' ∷ b'.'
    ∷ b'1' ∷ b'.' ∷ b'0' ∷ 0 ∷ 0 ∷ 0 ∷ 0 ∷ 0 ∷ 0 ∷ 0 ∷ 0 ∷ 0 ∷ 0 ∷ 0 ∷ 0 ∷ 0 ∷ 0 ∷ 0 ∷ 0x10 ∷ 0 ∷ 0
    ∷ 0xee ∷ 0xff ∷ 0 ∷ 0x11 ∷ 0 ∷ 0x20 ∷ 0 ∷ 8 ∷ []

module _ (layout : Layout) where
  -- `now` is the host's time.
  pub init : ℕ → Option Bootloader
  init now =
      write_bytes (replicate layout.total_size 0xff) layout.slot_a simulated_firmware_a
      >>= λ with_a. write_bytes with_a layout.slot_b simulated_firmware_b >>= λ flash.
          read_header flash layout.slot_a >>= λ header. some (record {
            state = initial;
            last_error = boot_ok;
            active_slot = layout.slot_a;
            update_slot = layout.slot_b;
            active_header = header;
            update_header = zero_header;
            boot_count = 1;
            update_pending = false;
            rollback_requested = false;
            last_boot_time = u32 now;
            flash = flash;
          })

  pub check_for_update : Bootloader → Option (BootError × Bootloader)
  check_for_update b =
      let checking = record b { state = check_update } in
      validate_firmware layout layout.slot_b b.flash >>= λ result. elim result [
        | boot_ok ↦ read_header b.flash layout.slot_b >>= λ header. some (
          boot_ok,
          record checking {
            update_header = header;
            update_pending = ltb (version_number b.active_header) (version_number header);
          },
        )
        | failure ↦ some (failure, record checking { update_pending = false })
      ]

  pub switch_to_update : Bootloader → Option (BootError × Bootloader)
  switch_to_update b =
      if not b.update_pending
      then some (no_app, b)
      else (validate_firmware layout layout.slot_b b.flash >>= λ result. elim result [
        | boot_ok ↦ some (
          boot_ok,
          record b {
            state = update_in_progress;
            active_slot = layout.slot_b;
            active_header = b.update_header;
            update_pending = false;
            boot_count = add32 b.boot_count 1;
          },
        )
        | failure ↦ some (failure, record b { last_error = failure; state = error })
      ])

  pub rollback : Bootloader → Option (BootError × Bootloader)
  rollback b = validate_firmware layout layout.slot_a b.flash >>= λ result. elim result [
    | boot_ok ↦ read_header b.flash layout.slot_a >>= λ header. some (
      boot_ok,
      record b {
        active_slot = layout.slot_a;
        active_header = header;
        rollback_requested = true;
        boot_count = add32 b.boot_count 1;
      },
    )
    | failure ↦ some (failure, b)
  ]

  pub start_app : ℕ → Bootloader → Bootloader
  start_app address b =
      if (address == layout.slot_a) || (address == layout.slot_b)
      then record b { state = jump_to_app }
      else b

pub get_active_slot : Bootloader → ℕ
get_active_slot b = b.active_slot

-- ===== src/Ota/Manager/Limits.antt =====
-- What the manager refuses, and what it has checked when it accepts.
use embed_rtos.Base.{
  ℕ, ◌≡◌, ◌≢◌, refl, Bool, true, false, Bool-cases, bind-some, some-injective, ==_iff, ap, sym, ◌∙◌,
  inl, inr, not, ◌||◌, Option, some, List, arith, if◌then◌else◌, ltb, ◌==◌,
}
use embed_rtos.Ota.Flash.{Layout, source_layout, erase_page, flash_erase}
use embed_rtos.Ota.Flash.Words.{erase_page-past}
use embed_rtos.Ota.Firmware.{Header, read_header, image_checksum, validate_firmware_header}
use embed_rtos.Ota.Manager.{
  Manager, OtaError, no_error, invalid_state, invalid_size, error, complete, flash_error, is_idle,
  start_update, validate_update, finalize_update, fail, accepts, with_flash, validation_failed,
  crc_mismatch, is_receiving, validating, begin, update_state, update_progress,
}

no_erase :
    (memory : List ℕ) → erase_page source_layout 0x08020000 memory ≡ some (flash_erase, memory)
no_erase memory = erase_page-past source_layout 0x08020000 memory (omega arith)

-- With the addresses and sizes of bootloader.h, `ota_manager_start_update` never succeeds, whatever
-- the state and the sizes asked for: the second slot is above the end of the flash, so the erase
-- fails. No update is counted and the flash is as before.
pub start_fails :
    (now total_size chunk_size : ℕ) (o : Manager)
    → (e : OtaError) × (o' : Manager) × (start_update source_layout now total_size chunk_size o
        ≡ some (e, o'))
      × (e ≢ no_error)
      × (o'.total_updates ≡ o.total_updates)
      × (o'.bootloader.flash ≡ o.bootloader.flash)
unfolding start_update begin update_state
start_fails now total_size chunk_size o = elim (Bool-cases (is_idle o.state)) [
  | inr a ↦ (invalid_state, o, rw a refl, λ h. ground arith, refl, refl)
  | inl a ↦ elim (Bool-cases ((total_size == 0) || ((chunk_size == 0) || ltb 1024 chunk_size))) [
    | inl b ↦ (invalid_size, o, rw (a, b) refl, λ h. ground arith, refl, refl)
    | inr b ↦ elim (Bool-cases (ltb 0xf80e0000 total_size)) [
      | inl c ↦ (invalid_size, o, rw (a, b, c) refl, λ h. ground arith, refl, refl)
      | inr c ↦ (
        flash_error,
        update_state error flash_error
            (with_flash o.bootloader.flash (begin source_layout now total_size chunk_size o)),
        rw (a, b, c, no_erase o.bootloader.flash) refl,
        λ h. ground arith,
        refl,
        refl,
      )
    ]
  ]
]

module _ (layout : Layout) where
  -- What the validation looks at.
  pub record IsChecked (o : Manager) : Type 0 where
    pub header : Header
    pub is_read : read_header o.bootloader.flash layout.slot_b ≡ some header
    pub is_firmware : validate_firmware_header header ≡ true
    pub same_size : header.size ≡ o.chunk_info.total_size
    pub same_checksum : image_checksum o.bootloader.flash layout.slot_b header ≡ some header.crc32
    pub accepted : accepts layout o.validate_callback header ≡ true

  tested :
      (b : Bool) (e : OtaError) (m o' : Manager) {rest : Option (OtaError × Manager)}
      → e ≢ no_error
      → (if not b then some (e, m) else rest) ≡ some (no_error, o')
      → (b ≡ true) × (rest ≡ some (no_error, o'))
  tested true e m o' ne h = (refl, h)
  tested false e m o' ne h = absurd (ne (ap (λ (r : OtaError × Manager). r.0) (some-injective h)))

  -- A test that fails the validation was passed, if it ends without an error.
  passed :
      (b : Bool) (e : OtaError) (o o' : Manager) {rest : Option (OtaError × Manager)}
      → e ≢ no_error
      → (if not b then fail layout e o else rest) ≡ some (no_error, o')
      → (b ≡ true) × (rest ≡ some (no_error, o'))
  unfolding fail
  passed true e o o' ne h = (refl, h)
  passed false e o o' ne h = absurd (ne (ap (λ (r : OtaError × Manager). r.0) (some-injective h)))

  validate_update-IsChecked :
      (o o' : Manager)
      → validate_update layout o ≡ some (no_error, o')
      → IsChecked o × (o'.state ≡ complete) × (o'.restart_required ≡ true)
  unfolding validate_update update_state update_progress
  validate_update-IsChecked o o' h =
      let (header, read, h1) = bind-some (read_header o.bootloader.flash layout.slot_b) h in
      let (firmware, h2) =
        passed (validate_firmware_header header) validation_failed
          (record o { firmware_header = header }) o' (λ e. ground arith) h1 in
      let (size, h3) =
        passed (header.size == o.chunk_info.total_size) validation_failed
          (record o { firmware_header = header }) o' (λ e. ground arith) h2 in
      let (crc, summed, h4) =
        bind-some (image_checksum o.bootloader.flash layout.slot_b header) h3 in
      let (same, h5) =
        passed (crc == header.crc32) crc_mismatch (record o { firmware_header = header }) o'
          (λ e. ground arith) h4 in
      let (ok, h6) =
        passed (accepts layout o.validate_callback header) validation_failed
          (record o { firmware_header = header }) o' (λ e. ground arith) h5 in
      let last : _ ≡ o' = ap (λ (r : OtaError × Manager). r.1) (some-injective h6) in
      (
        record {
          header = header;
          is_read = read;
          is_firmware = firmware;
          same_size = (==_iff header.size o.chunk_info.total_size).0 size;
          same_checksum = summed ∙ ap some ((==_iff crc header.crc32).0 same);
          accepted = ok;
        },
        sym (ap (λ (m : Manager). m.state) last),
        sym (ap (λ (m : Manager). m.restart_required) last),
      )

  -- If `ota_manager_finalize_update` ends without an error, every byte of the update had been
  -- received, and the header in the second slot passes `validate_firmware_header`, has the size of
  -- the update and the checksum of the bytes behind it, and passes the application's own check; the
  -- update is then complete and a restart is asked for.
  pub finalize_update-IsChecked :
      (o o' : Manager)
      → finalize_update layout o ≡ some (no_error, o')
      → (o.chunk_info.received_bytes ≡ o.chunk_info.total_size)
        × IsChecked o
        × (o'.state ≡ complete)
        × (o'.restart_required ≡ true)
  unfolding finalize_update update_state update_progress
  finalize_update-IsChecked o o' h =
      let (receiving, h1) =
        tested (is_receiving o.state) invalid_state o o' (λ e. ground arith) h in
      let (all, h2) =
        tested (o.chunk_info.received_bytes == o.chunk_info.total_size) invalid_size o o'
          (λ e. ground arith) h1 in
      let (v, done, restart) =
        validate_update-IsChecked (update_progress 95 (update_state validating no_error o)) o' h2 in
      (
        (==_iff o.chunk_info.received_bytes o.chunk_info.total_size).0 all,
        record {
          header = v.header;
          is_read = v.is_read;
          is_firmware = v.is_firmware;
          same_size = v.same_size;
          same_checksum = v.same_checksum;
          accepted = v.accepted;
        },
        done,
        restart,
      )

-- ===== src/Ota/Bootloader/Images.antt =====
-- The images that `bootloader_init` puts into the flash.
use embed_rtos.Base.{
  write_bytes, ◌<◌, Bool-cases, none, leb, read_bytes, ℕ, suc, ◌+◌, ◌≤◌, ◌≡◌, refl, ap, ◌∙◌, inl,
  inr, false, some, List, [], ◌∷◌, ◌++◌, arith, ◌>>=◌, length, replicate, length-replicate, slice,
  splice, slice-add, slice-splice_self, slice-splice_apart, length-splice, read_bytes-in_range,
  write_bytes-in_range, leb-false, u32,
}
use embed_rtos.Ota.Flash.{Layout, boot_ok, magic_mismatch, no_app}
use embed_rtos.Ota.Firmware.{header-is_read, Header, zero_header, read_header, validate_firmware}
use embed_rtos.Ota.Bootloader.{
  Bootloader, simulated_firmware_a, simulated_firmware_b, check_update, initial, init,
  check_for_update, switch_to_update, rollback,
}

-- The bytes behind the magic number.
abbrev behind : List ℕ → List ℕ
behind (a ∷ b ∷ c ∷ d ∷ rest) = rest
behind _ = []

module _ (layout : Layout) where
  -- Four bytes of a slot that begin with DE AD BE EF.
  BeginsWrong : ℕ → List ℕ → Type 0
  BeginsWrong slot memory = slice memory 0 slot 4 ≡ (0xde ∷ 0xad ∷ 0xbe ∷ 0xef ∷ [])

  -- Read with the low byte first, they are not the magic number.
  validate-BeginsWrong :
      (slot : ℕ) (memory : List ℕ)
      → length memory ≡ layout.total_size
      → slot + 80 ≤ layout.total_size
      → BeginsWrong slot memory
      → validate_firmware layout slot memory ≡ some magic_mismatch
  unfolding validate_firmware read_header BeginsWrong
  validate-BeginsWrong slot memory len room wrong =
      let split : slice memory 0 slot 80
          ≡ (0xde ∷ 0xad ∷ 0xbe ∷ 0xef ∷ []) ++ slice memory 0 (slot + 4) 76 =
        slice-add memory 0 slot 4 76 ∙ ap (λ front. front ++ slice memory 0 (slot + 4) 76) wrong in
      let read = read_bytes-in_range memory slot 80 (omega arith) ∙ ap some split in
      rw (leb-false layout.total_size slot (omega arith), read, ◌>>=◌) refl

  -- Bytes that are written so to a slot.
  splice-BeginsWrong :
      (slot : ℕ) (rest memory : List ℕ)
      → slot + 4 ≤ length memory
      → BeginsWrong slot (splice memory slot (0xde ∷ 0xad ∷ 0xbe ∷ 0xef ∷ rest))
  unfolding BeginsWrong
  splice-BeginsWrong slot rest memory room =
      let front : List ℕ = 0xde ∷ 0xad ∷ 0xbe ∷ 0xef ∷ [] in
      slice-splice_apart (splice memory slot front) 0 (suc (suc (suc (suc slot)))) rest slot 4
        (inl (omega arith))
      ∙ slice-splice_self memory 0 slot front (omega arith)

  -- The state after a start.
  abbrev installed : ℕ → Header → List ℕ → Bootloader
  installed now header flash = record {
    state = initial;
    last_error = boot_ok;
    active_slot = layout.slot_a;
    update_slot = layout.slot_b;
    active_header = header;
    update_header = zero_header;
    boot_count = 1;
    update_pending = false;
    rollback_requested = false;
    last_boot_time = u32 now;
    flash = flash;
  }

  -- What a start leaves, and what its functions then answer.
  pub record FindsNothing (b : Bootloader) : Type 0 where
    pub active : b.active_slot ≡ layout.slot_a
    pub first_refused : validate_firmware layout layout.slot_a b.flash ≡ some magic_mismatch
    pub second_refused : validate_firmware layout layout.slot_b b.flash ≡ some magic_mismatch
    pub checked : Bootloader
    pub check_fails : check_for_update layout b ≡ some (magic_mismatch, checked)
    pub not_pending : checked.update_pending ≡ false
    pub no_switch : switch_to_update layout b ≡ some (no_app, b)
    pub no_switch_after : switch_to_update layout checked ≡ some (no_app, checked)
    pub no_rollback : rollback layout b ≡ some (magic_mismatch, b)

  answers :
      (b : Bootloader)
      → b.active_slot ≡ layout.slot_a
      → b.update_pending ≡ false
      → validate_firmware layout layout.slot_a b.flash ≡ some magic_mismatch
      → validate_firmware layout layout.slot_b b.flash ≡ some magic_mismatch
      → FindsNothing b
  unfolding check_for_update switch_to_update rollback
  answers b active quiet first second = record {
    active = active;
    first_refused = first;
    second_refused = second;
    checked = record b { state = check_update; update_pending = false };
    check_fails = rw (second, ◌>>=◌) refl;
    not_pending = refl;
    no_switch = rw quiet refl;
    no_switch_after = refl;
    no_rollback = rw (first, ◌>>=◌) refl;
  }

  -- A start in a layout without the room that it needs writes out of bounds.
  init-overruns : (now : ℕ) → layout.total_size < layout.slot_b + 48 → init layout now ≡ none
  unfolding init write_bytes
  init-overruns now short =
      let empty : List ℕ = replicate layout.total_size 0xff in
      let size : length empty ≡ layout.total_size = length-replicate layout.total_size 0xff in
      let with_a : List ℕ = splice empty layout.slot_a simulated_firmware_a in
      let size_a : length with_a ≡ layout.total_size =
        length-splice empty layout.slot_a simulated_firmware_a ∙ size in
      let behind_b : leb (layout.slot_b + 48) (length with_a) ≡ false =
        ground (arith, short, size_a) in
      elim (Bool-cases (leb (layout.slot_a + 48) (length empty))) [
        | inl e ↦ rw (e, ◌>>=◌, behind_b, ◌>>=◌) refl
        | inr e ↦ rw (e, ◌>>=◌) refl
      ]

  -- What a start leaves in a layout with the room that it needs.
  record IsInstalled (b : Bootloader) : Type 0 where
    active : b.active_slot ≡ layout.slot_a
    quiet : b.update_pending ≡ false
    storage : length b.flash ≡ layout.total_size
    wrong_a : BeginsWrong layout.slot_a b.flash
    wrong_b : BeginsWrong layout.slot_b b.flash

  init-IsInstalled :
      (now : ℕ)
      → layout.slot_a + 80 ≤ layout.slot_b
      → layout.slot_b + 48 ≤ layout.total_size
      → (b : Bootloader) × (init layout now ≡ some b) × IsInstalled b
  unfolding init BeginsWrong
  init-IsInstalled now apart room =
      let empty : List ℕ = replicate layout.total_size 0xff in
      let with_a : List ℕ = splice empty layout.slot_a simulated_firmware_a in
      let flash : List ℕ = splice with_a layout.slot_b simulated_firmware_b in
      let size : length empty ≡ layout.total_size = length-replicate layout.total_size 0xff in
      let size_a : length with_a ≡ layout.total_size =
        length-splice empty layout.slot_a simulated_firmware_a ∙ size in
      let size_b : length flash ≡ layout.total_size =
        length-splice with_a layout.slot_b simulated_firmware_b ∙ size_a in
      let (header, is_read) = header-is_read layout.slot_a flash (omega (arith, size_b)) in
      (
        installed now header flash,
        rw
            (
              write_bytes-in_range empty layout.slot_a simulated_firmware_a (omega (arith, size)),
              ◌>>=◌,
              write_bytes-in_range with_a layout.slot_b simulated_firmware_b
                  (omega (arith, size_a)),
              ◌>>=◌,
              is_read,
              ◌>>=◌,
            )
            refl,
        record {
          active = refl;
          quiet = refl;
          storage = size_b;
          wrong_a =
              slice-splice_apart with_a 0 layout.slot_b simulated_firmware_b layout.slot_a 4
                (inl (omega arith))
              ∙ splice-BeginsWrong layout.slot_a (behind simulated_firmware_a) empty
                  (omega (arith, size));
          wrong_b =
              splice-BeginsWrong layout.slot_b (behind simulated_firmware_b) with_a
                (omega (arith, size_a));
        },
      )

  -- In a slot without room for a header, the check for an update reads behind the flash.
  check-overruns :
      (b : Bootloader)
      → IsInstalled b
      → layout.slot_b < layout.total_size
      → layout.total_size < layout.slot_b + 80
      → check_for_update layout b ≡ none
  unfolding check_for_update validate_firmware read_header read_bytes
  check-overruns b i begins short =
      let far : leb (layout.slot_b + 80) (length b.flash) ≡ false = ground (arith, i, short) in
      rw (leb-false layout.total_size layout.slot_b begins, far, ◌>>=◌) refl

  -- What a start at the time `now` comes to: the images are installed and found to be none; the second
  -- slot holds its image but no header; or the image goes beyond the flash.
  pub data Starts (now : ℕ) : Type 0 where
    in_bounds :
        (b : Bootloader)
        → layout.slot_b + 80 ≤ layout.total_size
        → init layout now ≡ some b
        → FindsNothing b
        → Starts now
    short_slot :
        (b : Bootloader)
        → layout.slot_b + 48 ≤ layout.total_size
        → layout.total_size < layout.slot_b + 80
        → init layout now ≡ some b
        → check_for_update layout b ≡ none
        → Starts now
    overruns : layout.total_size < layout.slot_b + 48 → init layout now ≡ none → Starts now

  -- In every layout whose second slot comes after a first with room for a header, bootloader_init ends
  -- in one of three ways. With room for a header in the second slot as well, it makes no access out of
  -- bounds; but neither of the images that it installs passes validation, since their magic number has
  -- its bytes the other way round: a check for an update fails, and neither a switch, before the check
  -- or after it, nor a rollback succeeds. With room for the 48 bytes of the second image only, the
  -- check for an update reads behind the flash. With less, as with the constants of bootloader.h,
  -- bootloader_init itself writes behind the flash.
  pub init-Starts : (now : ℕ) → layout.slot_a + 80 ≤ layout.slot_b → Starts now
  init-Starts now apart = elim (Bool-cases (leb (layout.slot_b + 48) layout.total_size)) [
    | inl e ↦
        let room : layout.slot_b + 48 ≤ layout.total_size = ground (arith, e) in
        let (b, is_init, i) = init-IsInstalled now apart room in
        elim (Bool-cases (leb (layout.slot_b + 80) layout.total_size)) [
          | inl e' ↦
              let more : layout.slot_b + 80 ≤ layout.total_size = ground (arith, e') in
              in_bounds b more is_init (
                answers b i.active i.quiet
                  (validate-BeginsWrong layout.slot_a b.flash i.storage (omega arith) i.wrong_a)
                  (validate-BeginsWrong layout.slot_b b.flash i.storage more i.wrong_b))
          | inr e' ↦
              let short : layout.total_size < layout.slot_b + 80 = ground (arith, e') in
              short_slot b room short is_init (check-overruns b i (omega arith) short)
        ]
    | inr e ↦
        let short : layout.total_size < layout.slot_b + 48 = ground (arith, e) in
        overruns short (init-overruns now short)
  ]

-- ===== src/Ota/Manager/Reads.antt =====
-- The reads of an update that is finalized.
use embed_rtos.Base.{
  ℕ, ◌+◌, ◌≤◌, ◌<◌, ◌≡◌, refl, ◌⊎◌, inl, inr, Bool, true, false, Bool-cases, not, none, some, arith,
  ◌>>=◌, if◌then◌else◌, ◌==◌, ==_iff, ltb, length, slice, add32, sub32, leb, ◌&&◌, read_bytes,
  read_bytes-in_range,
}
use embed_rtos.Ota.Flash.{Layout}
use embed_rtos.Ota.Checksum.{calculate_crc32}
use embed_rtos.Ota.Firmware.{
  Header, header-is_read, read_header, image_checksum, validate_firmware_header,
}
use embed_rtos.Ota.Manager.{
  Manager, OtaError, no_error, crc_mismatch, validation_failed, complete, error, validating,
  is_receiving, fail, accepts, update_state, update_progress, finalize_update, validate_update,
}

-- All bytes of an update have been received; the flash has the size of the layout.
pub record IsReceived (layout : Layout) (o : Manager) : Type 0 where
  pub receiving : is_receiving o.state ≡ true
  pub all : o.chunk_info.received_bytes ≡ o.chunk_info.total_size
  pub total_is_word : o.chunk_info.total_size < 4294967296
  pub storage : length o.bootloader.flash ≡ layout.total_size

-- The header is valid and has the size of the update.
abbrev pub is_right : Manager → Header → Bool
is_right o header = validate_firmware_header header && (header.size == o.chunk_info.total_size)

-- What ota_manager_finalize_update does: the header lies behind the flash; the header is not right;
-- the body lies within the flash; or it does not, or its size wraps around.
pub data Reads (layout : Layout) (o : Manager) : Type 0 where
  header_outside :
      layout.total_size < layout.slot_b + 80 → finalize_update layout o ≡ none → Reads layout o
  header_refused :
      (header : Header) (o' : Manager)
      → layout.slot_b + 80 ≤ layout.total_size
      → read_header o.bootloader.flash layout.slot_b ≡ some header
      → is_right o header ≡ false
      → finalize_update layout o ≡ some (validation_failed, o')
      → o'.state ≡ error
      → Reads layout o
  body_inside :
      (header : Header) (r : OtaError × Manager)
      → read_header o.bootloader.flash layout.slot_b ≡ some header
      → is_right o header ≡ true
      → 80 ≤ o.chunk_info.total_size
      → layout.slot_b + o.chunk_info.total_size ≤ layout.total_size
      → finalize_update layout o ≡ some r
      → Reads layout o
  body_outside :
      (header : Header)
      → layout.slot_b + 80 ≤ layout.total_size
      → read_header o.bootloader.flash layout.slot_b ≡ some header
      → is_right o header ≡ true
      → (o.chunk_info.total_size < 80)
        ⊎ (layout.total_size < layout.slot_b + o.chunk_info.total_size)
      → finalize_update layout o ≡ none
      → Reads layout o

module _ (layout : Layout) (small : layout.total_size < 4294967296) where
  -- The state in which the header is checked.
  abbrev checked : Header → Manager → Manager
  checked header o = record (update_progress 95 (update_state validating no_error o)) {
    firmware_header = header;
  }

  right-positive : (o : Manager) (h : Header) → is_right o h ≡ true → 0 < h.size
  unfolding validate_firmware_header
  right-positive o h e = ground (arith, e)

  right-same : (o : Manager) (h : Header) → is_right o h ≡ true → h.size ≡ o.chunk_info.total_size
  right-same o h e = ground (arith, e)

  right-valid : (o : Manager) (h : Header) → is_right o h ≡ true → validate_firmware_header h ≡ true
  right-valid o h e = grind (arith, e)

  -- The body lies within the flash.
  checksum-inside :
      (o : Manager) (f : IsReceived layout o) (h : Header)
      → h.size ≡ o.chunk_info.total_size
      → 80 ≤ o.chunk_info.total_size
      → layout.slot_b + o.chunk_info.total_size ≤ layout.total_size
      → (crc : ℕ) × (image_checksum o.bootloader.flash layout.slot_b h ≡ some crc)
  unfolding image_checksum
  checksum-inside o f h same long within =
      let in_range =
        read_bytes-in_range o.bootloader.flash (layout.slot_b + 80) (sub32 h.size 80)
          (omega (arith, f, same, long, within)) in
      (
        calculate_crc32 (slice o.bootloader.flash 0 (layout.slot_b + 80) (sub32 h.size 80)),
        rw (in_range, ◌>>=◌) refl,
      )

  -- The body begins within the flash and ends behind it.
  checksum-outside :
      (o : Manager) (f : IsReceived layout o) (h : Header)
      → 0 < h.size
      → h.size ≡ o.chunk_info.total_size
      → (o.chunk_info.total_size < 80)
        ⊎ (layout.total_size < layout.slot_b + o.chunk_info.total_size)
      → image_checksum o.bootloader.flash layout.slot_b h ≡ none
  unfolding image_checksum read_bytes
  checksum-outside o f h positive same (inl short) =
      let far : length o.bootloader.flash < layout.slot_b + 80 + sub32 h.size 80 =
        omega (arith, f, small, same, short, positive) in
      ground (arith, far)
  checksum-outside o f h positive same (inr long) =
      let far : length o.bootloader.flash < layout.slot_b + 80 + sub32 h.size 80 =
        omega (arith, f, small, same, long, positive) in
      ground (arith, far)

  validated-ends :
      (same ok : Bool) (o m : Manager)
      → (r : OtaError × Manager) × ((if not same
            then fail layout crc_mismatch o
            else (if not ok then fail layout validation_failed o else some (no_error, m)))
          ≡ some r)
  unfolding fail
  validated-ends true true o m = (_, refl)
  validated-ends true false o m = (_, refl)
  validated-ends false ok o m = (_, refl)

  finalize-outside :
      (o : Manager)
      → IsReceived layout o
      → layout.total_size < layout.slot_b + 80
      → finalize_update layout o ≡ none
  unfolding finalize_update validate_update update_state update_progress read_header read_bytes
  finalize-outside o f far =
      let total = (==_iff o.chunk_info.received_bytes o.chunk_info.total_size).1 f.all in
      let behind : leb (layout.slot_b + 80) (length o.bootloader.flash) ≡ false =
        ground (arith, f, far) in
      rw (f.receiving, total, behind, ◌>>=◌) refl

  finalize-refused :
      (o : Manager) (h : Header)
      → IsReceived layout o
      → read_header o.bootloader.flash layout.slot_b ≡ some h
      → is_right o h ≡ false
      → (o' : Manager) × (finalize_update layout o ≡ some (validation_failed, o'))
        × (o'.state ≡ error)
  unfolding finalize_update validate_update update_state update_progress fail
  finalize-refused o h f is_read wrong =
      let total = (==_iff o.chunk_info.received_bytes o.chunk_info.total_size).1 f.all in
      elim (Bool-cases (validate_firmware_header h)) [
        | inl e ↦
            let other : (h.size == o.chunk_info.total_size) ≡ false = grind (arith, wrong, e) in
            (
              record (checked h o) {
                state = error;
                last_error = validation_failed;
                failed_updates = add32 o.failed_updates 1;
                notices = (update_state error validation_failed (checked h o)).notices;
              },
              rw (f.receiving, total, is_read, ◌>>=◌, e, other) refl,
              refl,
            )
        | inr e ↦ (
          record (checked h o) {
            state = error;
            last_error = validation_failed;
            failed_updates = add32 o.failed_updates 1;
            notices = (update_state error validation_failed (checked h o)).notices;
          },
          rw (f.receiving, total, is_read, ◌>>=◌, e) refl,
          refl,
        )
      ]

  finalize-inside :
      (o : Manager) (h : Header)
      → IsReceived layout o
      → read_header o.bootloader.flash layout.slot_b ≡ some h
      → is_right o h ≡ true
      → 80 ≤ o.chunk_info.total_size
      → layout.slot_b + o.chunk_info.total_size ≤ layout.total_size
      → (r : OtaError × Manager) × (finalize_update layout o ≡ some r)
  unfolding finalize_update validate_update update_state update_progress
  finalize-inside o h f is_read right long within =
      let total = (==_iff o.chunk_info.received_bytes o.chunk_info.total_size).1 f.all in
      let same = right-same o h right in
      let size = (==_iff h.size o.chunk_info.total_size).1 same in
      let (crc, summed) = checksum-inside o f h same long within in
      let (r, ends) =
        validated-ends (crc == h.crc32) (accepts layout o.validate_callback h) (checked h o)
          (record (update_progress 100 (update_state complete no_error (checked h o))) {
            successful_updates = add32 o.successful_updates 1;
            restart_required = true;
          }) in
      (r, rw (f.receiving, total, is_read, ◌>>=◌, right-valid o h right, size, summed, ◌>>=◌) ends)

  finalize-overruns :
      (o : Manager) (h : Header)
      → IsReceived layout o
      → read_header o.bootloader.flash layout.slot_b ≡ some h
      → is_right o h ≡ true
      → (o.chunk_info.total_size < 80)
        ⊎ (layout.total_size < layout.slot_b + o.chunk_info.total_size)
      → finalize_update layout o ≡ none
  unfolding finalize_update validate_update update_state update_progress
  finalize-overruns o h f is_read right far =
      let total = (==_iff o.chunk_info.received_bytes o.chunk_info.total_size).1 f.all in
      let same = right-same o h right in
      let size = (==_iff h.size o.chunk_info.total_size).1 same in
      let summed = checksum-outside o f h (right-positive o h right) same far in
      rw (f.receiving, total, is_read, ◌>>=◌, right-valid o h right, size, summed, ◌>>=◌) refl

  -- Of an update whose bytes have all been received, in any layout with a flash of its size, both
  -- sizes below 2 ^ 32, ota_manager_finalize_update reads behind the flash exactly in these cases: the second slot
  -- has no room for a header, as with the constants of bootloader.h; or the header is valid and of
  -- the update's size, and this size is below the 80 bytes of the header, so that the number of
  -- bytes behind the header wraps around, or goes beyond the flash. A header that is not valid or of
  -- another size is refused as a failed validation, and in the case that is left the call returns.
  pub finalize_update-Reads : (o : Manager) → IsReceived layout o → Reads layout o
  finalize_update-Reads o f = elim (Bool-cases (leb (layout.slot_b + 80) layout.total_size)) [
    | inl fits ↦
        let room : layout.slot_b + 80 ≤ layout.total_size = ground (arith, fits) in
        let (h, is_read) =
          header-is_read layout.slot_b o.bootloader.flash (omega (arith, f, room)) in
        elim (Bool-cases (is_right o h)) [
          | inl right ↦ elim (Bool-cases (ltb o.chunk_info.total_size 80)) [
            | inl e ↦
                let short : (o.chunk_info.total_size < 80)
                    ⊎ (layout.total_size < layout.slot_b + o.chunk_info.total_size) =
                  inl (ground (arith, e)) in
                body_outside h room is_read right short
                  (finalize-overruns o h f is_read right short)
            | inr e ↦
                elim (Bool-cases
                  (ltb layout.total_size (layout.slot_b + o.chunk_info.total_size))) [
                    | inl e' ↦
                        let beyond : (o.chunk_info.total_size < 80)
                            ⊎ (layout.total_size < layout.slot_b + o.chunk_info.total_size) =
                          inr (ground (arith, e')) in
                        body_outside h room is_read right beyond
                          (finalize-overruns o h f is_read right beyond)
                    | inr e' ↦
                        let long : 80 ≤ o.chunk_info.total_size = ground (arith, e) in
                        let within : layout.slot_b + o.chunk_info.total_size ≤ layout.total_size =
                          ground (arith, e') in
                        let (r, ends) = finalize-inside o h f is_read right long within in
                        body_inside h r is_read right long within ends
                  ]
          ]
          | inr wrong ↦
              let (o', refused, state) = finalize-refused o h f is_read wrong in
              header_refused h o' room is_read wrong refused state
        ]
    | inr e ↦
        let far : layout.total_size < layout.slot_b + 80 = ground (arith, e) in
        header_outside far (finalize-outside o f far)
  ]

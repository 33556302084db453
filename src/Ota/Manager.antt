-- ===== src/Ota/Manager.antt =====
-- The update manager of src/ota/ota_manager.c and ota_manager.h: `ota_ctx`, the statistics and the
-- callbacks, with the bootloader whose flash it writes. The calls of the progress and status
-- callbacks, which the application may set, are recorded in order in `notices`, the last one first;
-- the callback that validates is a function or `none`. The outer `Option` of a result is `none` for
-- an access out of bounds.
pub mod Update
pub mod Limits
pub mod Apply
pub mod Install
pub mod Outcome
pub mod Settings
pub mod Partial
pub mod Reads
pub mod Once
mod Examples
use embed_rtos.Base.{
  ℕ, suc, ◌+◌, ◌*◌, ◌/◌, Bool, true, false, not, ◌&&◌, ◌||◌, Option, none, some, List, [], ◌∷◌,
  ◌>>=◌, ◌==◌, ltb, leb, if◌then◌else◌, length, u8, u32, add32, sub32, read_bytes,
}
use embed_rtos.Ota.Flash.{Layout, BootError, boot_ok, erase_page, write_words}
use embed_rtos.Ota.Firmware.{
  Header, zero_header, read_header, image_checksum, validate_firmware_header,
}
use embed_rtos.Ota.Bootloader.{Bootloader, switch_to_update}

pub data OtaState : Type 0 where
  idle waiting_for_start receiving_data validating updating complete error : OtaState

pub data OtaError : Type 0 where
  no_error invalid_state invalid_size crc_mismatch flash_error timeout communication
        validation_failed :
      OtaError

pub data Notice : Type 0 where
  progressed : ℕ → Notice
  changed : OtaState → OtaError → Notice

pub record ChunkInfo : Type 0 where
  pub total_size : ℕ
  pub chunk_size : ℕ
  pub total_chunks : ℕ
  pub received_chunks : ℕ
  pub received_bytes : ℕ
  pub next_expected_chunk : ℕ

pub record Manager : Type 0 where
  pub state : OtaState
  pub last_error : OtaError
  pub chunk_info : ChunkInfo
  pub firmware_header : Header
  pub update_address : ℕ
  pub start_time : ℕ
  pub last_activity_time : ℕ
  pub timeout_ms : ℕ
  pub abort_requested : Bool
  pub restart_required : Bool
  pub progress_percent : ℕ
  pub total_updates : ℕ
  pub successful_updates : ℕ
  pub failed_updates : ℕ
  pub has_progress_callback : Bool
  pub has_status_callback : Bool
  pub validate_callback : Option (Header → Bool)
  pub notices : List Notice
  pub bootloader : Bootloader

abbrev pub is_idle : OtaState → Bool
is_idle idle = true
is_idle _ = false

abbrev pub is_waiting : OtaState → Bool
is_waiting waiting_for_start = true
is_waiting _ = false

abbrev pub is_receiving : OtaState → Bool
is_receiving receiving_data = true
is_receiving _ = false

abbrev pub is_complete : OtaState → Bool
is_complete complete = true
is_complete _ = false

pub update_progress : ℕ → Manager → Manager
update_progress percent o = record o {
  progress_percent = percent;
  notices = if o.has_progress_callback then progressed percent ∷ o.notices else o.notices;
}

pub update_state : OtaState → OtaError → Manager → Manager
update_state new_state e o = record o {
  state = new_state;
  last_error = e;
  notices = if o.has_status_callback then changed new_state e ∷ o.notices else o.notices;
}

-- `ota_ctx.bootloader` stands for the statics of bootloader.c, which `flash` writes through.
abbrev pub with_flash : List ℕ → Manager → Manager
with_flash memory o = record o { bootloader = record o.bootloader { flash = memory } }

abbrev pub no_chunks : ChunkInfo
no_chunks = record {
  total_size = 0;
  chunk_size = 0;
  total_chunks = 0;
  received_chunks = 0;
  received_bytes = 0;
  next_expected_chunk = 0;
}

module _ (layout : Layout) where
  pub init : Manager → Manager
  init o = record o {
    state = idle;
    last_error = no_error;
    chunk_info = no_chunks;
    firmware_header = zero_header;
    update_address = layout.slot_b;
    start_time = 0;
    last_activity_time = 0;
    timeout_ms = 30000;
    abort_requested = false;
    restart_required = false;
    progress_percent = 0;
  }

  -- The context once the sizes are accepted; `now` is the host's time.
  pub begin : ℕ → ℕ → ℕ → Manager → Manager
  begin now total_size chunk_size o = record o {
    chunk_info = record {
      total_size = total_size;
      chunk_size = chunk_size;
      total_chunks = sub32 (add32 total_size chunk_size) 1 / chunk_size;
      received_chunks = 0;
      received_bytes = 0;
      next_expected_chunk = 0;
    };
    start_time = u32 now;
    last_activity_time = u32 now;
    abort_requested = false;
    restart_required = false;
  }

  -- The comparison with `FLASH_TOTAL_SIZE - APP_SLOT_B_ADDRESS` is one of `uint32_t`.
  pub start_update : ℕ → ℕ → ℕ → Manager → Option (OtaError × Manager)
  start_update now total_size chunk_size o =
      if not (is_idle o.state)
      then some (invalid_state, o)
      else (if (total_size == 0) || ((chunk_size == 0) || ltb 1024 chunk_size)
          then some (invalid_size, o)
          else (if ltb (sub32 layout.total_size layout.slot_b) total_size
              then some (invalid_size, o)
              else (let started = begin now total_size chunk_size o in
                  erase_page layout layout.slot_b o.bootloader.flash >>= λ r. elim r.0 [
                    | boot_ok ↦
                        let counted = record (with_flash r.1 started) {
                          total_updates = add32 o.total_updates 1;
                        } in
                        some (
                          no_error,
                          update_progress 0 (update_state waiting_for_start no_error counted),
                        )
                    | failure ↦
                        some (flash_error, update_state error flash_error (with_flash r.1 started))
                  ])))

  -- The counters after a chunk of `size` bytes.
  pub count_chunk : ℕ → ℕ → Manager → Manager
  unfolding update_progress
  count_chunk now size o =
      let info = o.chunk_info in
      let received = add32 info.received_bytes size in
      update_progress (u8 (u32 (received * 100) / info.total_size)) (record o {
        chunk_info = record info {
          received_chunks = add32 info.received_chunks 1;
          received_bytes = received;
          next_expected_chunk = add32 info.next_expected_chunk 1;
        };
        last_activity_time = u32 now;
      })

  -- From the first write on: `bytes` are the chunk's bytes.
  pub store_chunk : ℕ → List ℕ → Manager → Option (OtaError × Manager)
  store_chunk now bytes o =
      write_words layout (suc (length bytes)) (add32 layout.slot_b o.chunk_info.received_bytes)
        bytes o.bootloader.flash
      >>= λ r. elim r.0 [
        | boot_ok ↦ some (no_error, count_chunk now (length bytes) (with_flash r.1 o))
        | failure ↦ some (flash_error, update_state error flash_error (with_flash r.1 o))
      ]

  pub receive_chunk : ℕ → ℕ → Option (List ℕ) → ℕ → Manager → Option (OtaError × Manager)
  receive_chunk now chunk_number chunk size o =
      let info = o.chunk_info in
      if not (is_waiting o.state) && not (is_receiving o.state)
      then some (invalid_state, o)
      else (if not (chunk_number == info.next_expected_chunk)
          then some (communication, o)
          else elim chunk [
            | none ↦ some (invalid_size, o)
            | some bytes ↦
                if (size == 0) || ltb info.chunk_size size
                then some (invalid_size, o)
                else (if ltb info.total_size (add32 info.received_bytes size)
                    then some (invalid_size, o)
                    else (read_bytes bytes 0 size >>= λ taken.
                        store_chunk now taken (
                          if is_waiting o.state
                          then update_state receiving_data no_error o
                          else o)))
          ])

  -- A validation that ends in an error.
  pub fail : OtaError → Manager → Option (OtaError × Manager)
  unfolding update_state
  fail e o = some (e, record (update_state error e o) { failed_updates = add32 o.failed_updates 1 })

  pub accepts : Option (Header → Bool) → Header → Bool
  accepts none header = true
  accepts (some callback) header = callback header

  pub validate_update : Manager → Option (OtaError × Manager)
  validate_update o = read_header o.bootloader.flash layout.slot_b >>= λ header.
      let o' = record o { firmware_header = header } in
      if not (validate_firmware_header header)
      then fail validation_failed o'
      else (if not (header.size == o.chunk_info.total_size)
          then fail validation_failed o'
          else (image_checksum o.bootloader.flash layout.slot_b header >>= λ calculated_crc.
              if not (calculated_crc == header.crc32)
              then fail crc_mismatch o'
              else (if not (accepts o.validate_callback header)
                  then fail validation_failed o'
                  else some (
                    no_error,
                    record (update_progress 100 (update_state complete no_error o')) {
                      successful_updates = add32 o.successful_updates 1;
                      restart_required = true;
                    },
                  ))))

  pub finalize_update : Manager → Option (OtaError × Manager)
  finalize_update o =
      if not (is_receiving o.state)
      then some (invalid_state, o)
      else (if not (o.chunk_info.received_bytes == o.chunk_info.total_size)
          then some (invalid_size, o)
          else validate_update (update_progress 95 (update_state validating no_error o)))

  pub abort_update : Manager → OtaError × Manager
  abort_update o = (
    no_error,
    update_state error communication
        (record o { abort_requested = true; failed_updates = add32 o.failed_updates 1 }),
  )

  pub apply_update : Manager → Option Manager
  apply_update o =
      if not (is_complete o.state)
      then some o
      else (let updating' = update_state updating no_error o in
          switch_to_update layout o.bootloader >>= λ r.
          let o' = record updating' { bootloader = r.1 } in
          elim r.0 [
            | boot_ok ↦ some (record o' { restart_required = true })
            | failure ↦ some (update_state error flash_error o')
          ])

pub is_busy : Manager → Bool
is_busy o = elim o.state [ idle ↦ false | complete ↦ false | error ↦ false | _ ↦ true ]

pub is_update_available : Manager → Bool
is_update_available o = o.restart_required

-- ===== src/Ota/Manager/Examples.antt =====
-- A flash of 100 bytes whose second slot is at 8, and an update of eight bytes; firmware of one byte
-- behind its header; and the layout of the source.
use embed_rtos.Base.{
  length, ℕ, ◌≡◌, ◌≢◌, refl, true, false, none, some, List, [], ◌∷◌, ◌++◌, arith, replicate,
  length-replicate, read_bytes, write_bytes,
}
use embed_rtos.Ota.Checksum.{calculate_crc32}
use embed_rtos.Ota.Flash.{
  source_layout, erase_page, write_words, write_word, chunk_word, chunk_rest,
}
use embed_rtos.Ota.Firmware.{zero_header, read_header, image_checksum, validate_firmware_header}
use embed_rtos.Ota.Sample.{small_layout, boot_with, firmware_header, programmed}
use embed_rtos.Ota.Manager.{
  Manager, OtaState, OtaError, progressed, waiting_for_start, receiving_data, idle, complete,
  no_error, error, flash_error, apply_update, start_update, finalize_update, validate_update,
  update_state, update_progress, accepts, receive_chunk, store_chunk, count_chunk, communication,
  begin, abort_update,
}
use embed_rtos.Ota.Manager.Partial.{IsStuck, partial_chunk-blocks}
use embed_rtos.Ota.Manager.Reads.{Reads, finalize_update-Reads}
use embed_rtos.Ota.Manager.Once.{Call, starts, aborts, call, run, Once, run-Once}
use embed_rtos.Ota.Manager.Apply.{finalize-apply_fails}
use embed_rtos.Ota.Manager.Limits.{IsChecked, start_fails, finalize_update-IsChecked}

abbrev manager_with : OtaState → ℕ → ℕ → ℕ → List ℕ → Manager
manager_with state total chunk received flash = record {
  state = state;
  last_error = no_error;
  chunk_info = record {
    total_size = total;
    chunk_size = chunk;
    total_chunks = 2;
    received_chunks = 0;
    received_bytes = received;
    next_expected_chunk = 0;
  };
  firmware_header = zero_header;
  update_address = 8;
  start_time = 0;
  last_activity_time = 0;
  timeout_ms = 30000;
  abort_requested = false;
  restart_required = false;
  progress_percent = 0;
  total_updates = 1;
  successful_updates = 0;
  failed_updates = 0;
  has_progress_callback = true;
  has_status_callback = false;
  validate_callback = none;
  notices = [];
  bootloader = boot_with flash;
}

abbrev waiting : Manager
waiting = manager_with waiting_for_start 8 4 0 (replicate 100 0xff)

start_fails_example :
    (e : OtaError) × (o' : Manager) × (start_update source_layout 0 4096 256
        (manager_with idle 0 0 0 [])
      ≡ some (e, o'))
    × (e ≢ no_error)
    × (o'.total_updates ≡ 1)
    × (o'.bootloader.flash ≡ [])
start_fails_example = start_fails 0 4096 256 (manager_with idle 0 0 0 [])

abbrev received_all : Manager
received_all = manager_with receiving_data 81 128 81 programmed

abbrev finished : Manager
finished = record received_all {
  state = complete;
  firmware_header = firmware_header;
  progress_percent = 100;
  notices = progressed 100 ∷ progressed 95 ∷ [];
  successful_updates = 1;
  restart_required = true;
}

finalizes : finalize_update small_layout received_all ≡ some (no_error, finished)
unfolding finalize_update validate_update read_header validate_firmware_header image_checksum
    calculate_crc32 read_bytes update_state update_progress accepts
finalizes = refl

finalize_update-IsChecked_example :
    (received_all.chunk_info.received_bytes ≡ 81)
    × IsChecked small_layout received_all
    × (finished.state ≡ complete)
    × (finished.restart_required ≡ true)
finalize_update-IsChecked_example =
    finalize_update-IsChecked small_layout received_all finished finalizes

finalize-apply_fails_example :
    (o'' : Manager) × (apply_update small_layout finished ≡ some o'')
    × (o''.state ≡ error)
    × (o''.last_error ≡ flash_error)
    × (o''.bootloader ≡ received_all.bootloader)
finalize-apply_fails_example =
    finalize-apply_fails small_layout received_all finished finalizes refl

-- A chunk of three bytes has been put into the slot, with the zero that pads it.
abbrev padded : Manager
padded = record waiting {
  state = receiving_data;
  chunk_info = record {
    total_size = 8;
    chunk_size = 4;
    total_chunks = 2;
    received_chunks = 1;
    received_bytes = 3;
    next_expected_chunk = 1;
  };
  progress_percent = 37;
  notices = progressed 37 ∷ [];
  bootloader = boot_with (replicate 8 0xff ++ (1 ∷ 2 ∷ 3 ∷ 0 ∷ []) ++ replicate 88 0xff);
}

takes_three :
    receive_chunk small_layout 0 0 (some (1 ∷ 2 ∷ 3 ∷ [])) 3 waiting ≡ some (no_error, padded)
unfolding receive_chunk store_chunk count_chunk update_state update_progress write_words write_word
    read_bytes write_bytes chunk_word chunk_rest
takes_three = refl

partial_chunk-blocks_example :
    (o'' : Manager) × (receive_chunk small_layout 0 1 (some (4 ∷ 5 ∷ 6 ∷ [])) 3 padded
      ≡ some (flash_error, o''))
    × IsStuck small_layout padded o''
partial_chunk-blocks_example =
    partial_chunk-blocks small_layout 0 0 0 0 3 (1 ∷ 2 ∷ 3 ∷ []) (4 ∷ 5 ∷ 6 ∷ []) waiting padded
      (omega arith) refl
      (record {
        count = refl;
        part = omega arith;
        below = omega arith;
        are_bytes = (omega arith, (omega arith, (omega arith, _)));
      })
      takes_three (record { some_bytes = omega arith; short = omega arith; fits = omega arith })

length-blank : (n : ℕ) → length {A = ℕ} (replicate n 0xff) ≡ n
length-blank n = length-replicate n 0xff

-- An update of 60 bytes is complete, in the layout of the source with its flash erased.
abbrev at_source : Manager
at_source = manager_with receiving_data 60 60 60 (replicate source_layout.total_size 0xff)

finalize_update-Reads_example : Reads source_layout at_source
finalize_update-Reads_example =
    finalize_update-Reads source_layout (omega arith) at_source (record {
      receiving = refl;
      all = refl;
      total_is_word = omega arith;
      storage = length-blank source_layout.total_size;
    })

-- An update is started and aborted, and another is asked for.
abbrev calls : List Call
calls = starts 0 8 4 ∷ aborts ∷ starts 0 8 4 ∷ []

abbrev at_rest : Manager
at_rest = manager_with idle 8 4 0 (replicate 100 0xff)

abbrev aborted : Manager
aborted = record at_rest {
  state = error;
  last_error = communication;
  abort_requested = true;
  total_updates = 2;
  failed_updates = 1;
  notices = progressed 0 ∷ [];
}

aborts_it : run small_layout calls at_rest ≡ some aborted
unfolding run call start_update abort_update begin update_state update_progress erase_page
    write_bytes
aborts_it = refl

run-Once_example : Once small_layout 1 aborted
run-Once_example = run-Once small_layout calls at_rest aborted (omega arith) refl aborts_it

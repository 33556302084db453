-- ===== src/Ota/Manager/Settings.antt =====
-- The callbacks of src/ota/ota_manager.c and the names of its states and errors. Of the progress and
-- status callbacks only whether they are set is kept.
use Prim.Native.String.{String}
use embed_rtos.Base.{Bool, Option}
use embed_rtos.Ota.Firmware.{Header}
use embed_rtos.Ota.Manager.{
  Manager, OtaState, OtaError, idle, waiting_for_start, receiving_data, validating, updating,
  complete, error, no_error, invalid_state, invalid_size, crc_mismatch, flash_error, timeout,
  communication, validation_failed,
}

pub set_progress_callback : Bool → Manager → Manager
set_progress_callback given o = record o { has_progress_callback = given }

pub set_status_callback : Bool → Manager → Manager
set_status_callback given o = record o { has_status_callback = given }

pub set_validate_callback : Option (Header → Bool) → Manager → Manager
set_validate_callback callback o = record o { validate_callback = callback }

pub state_to_string : OtaState → String
state_to_string idle = "IDLE"
state_to_string waiting_for_start = "WAITING_FOR_START"
state_to_string receiving_data = "RECEIVING_DATA"
state_to_string validating = "VALIDATING"
state_to_string updating = "UPDATING"
state_to_string complete = "COMPLETE"
state_to_string error = "ERROR"

pub error_to_string : OtaError → String
error_to_string no_error = "NONE"
error_to_string invalid_state = "INVALID_STATE"
error_to_string invalid_size = "INVALID_SIZE"
error_to_string crc_mismatch = "CRC_MISMATCH"
error_to_string flash_error = "FLASH_ERROR"
error_to_string timeout = "TIMEOUT"
error_to_string communication = "COMMUNICATION"
error_to_string validation_failed = "VALIDATION_FAILED"

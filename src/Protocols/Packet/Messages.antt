-- ===== src/Protocols/Packet/Messages.antt =====
-- The commands and error codes of src/protocols/comm_protocol.h, their names, and the functions of
-- comm_protocol.c that make a packet for one purpose. A float is the list of its four bytes.
use Prim.Native.String.{String}
use embed_rtos.Base.{
  ℕ, ◌==◌, if◌then◌else◌, Option, some, List, [], ◌∷◌, ◌++◌, ◌>>>◌, bit_and, slice,
}
use embed_rtos.Protocols.Packet.{Handler, create_packet}

abbrev pub cmd_ping : ℕ
cmd_ping = 0x01

abbrev pub cmd_pong : ℕ
cmd_pong = 0x02

abbrev pub cmd_get_sensor_data : ℕ
cmd_get_sensor_data = 0x10

abbrev pub cmd_sensor_data : ℕ
cmd_sensor_data = 0x11

abbrev pub cmd_set_config : ℕ
cmd_set_config = 0x20

abbrev pub cmd_config_response : ℕ
cmd_config_response = 0x21

abbrev pub cmd_ota_data : ℕ
cmd_ota_data = 0x31

abbrev pub cmd_start_ota : ℕ
cmd_start_ota = 0x30

abbrev pub cmd_ota_complete : ℕ
cmd_ota_complete = 0x32

abbrev pub cmd_get_status : ℕ
cmd_get_status = 0x40

abbrev pub cmd_status_response : ℕ
cmd_status_response = 0x41

abbrev pub cmd_error : ℕ
cmd_error = 0xff

pub data ProtocolError : Type 0 where
  error_none error_invalid_cmd error_invalid_len error_crc_mismatch error_busy error_ota_failed
        error_sensor_failed :
      ProtocolError

abbrev pub error_code : ProtocolError → ℕ
error_code error_none = 0x00
error_code error_invalid_cmd = 0x01
error_code error_invalid_len = 0x02
error_code error_crc_mismatch = 0x03
error_code error_busy = 0x04
error_code error_ota_failed = 0x05
error_code error_sensor_failed = 0x06

pub command_to_string : ℕ → String
command_to_string command =
    if command == cmd_ping
    then "PING"
    else if command == cmd_pong
    then "PONG"
    else if command == cmd_get_sensor_data
    then "GET_SENSOR_DATA"
    else if command == cmd_sensor_data
    then "SENSOR_DATA"
    else if command == cmd_set_config
    then "SET_CONFIG"
    else if command == cmd_config_response
    then "CONFIG_RESPONSE"
    else if command == cmd_start_ota
    then "START_OTA"
    else if command == cmd_ota_data
    then "OTA_DATA"
    else if command == cmd_ota_complete
    then "OTA_COMPLETE"
    else if command == cmd_get_status
    then "GET_STATUS"
    else if command == cmd_status_response
    then "STATUS_RESPONSE"
    else if command == cmd_error
    then "ERROR"
    else "UNKNOWN"

pub error_to_string : ℕ → String
error_to_string error =
    if error == error_code error_none
    then "NONE"
    else if error == error_code error_invalid_cmd
    then "INVALID_CMD"
    else if error == error_code error_invalid_len
    then "INVALID_LEN"
    else if error == error_code error_crc_mismatch
    then "CRC_MISMATCH"
    else if error == error_code error_busy
    then "BUSY"
    else if error == error_code error_ota_failed
    then "OTA_FAILED"
    else if error == error_code error_sensor_failed
    then "SENSOR_FAILED"
    else "UNKNOWN_ERROR"

abbrev pub Created : Type 0
Created = Option (ℕ × Option (List ℕ) × Option Handler)

unfoldable pub create_ping : Option (List ℕ) → ℕ → Option Handler → Created
create_ping buffer buffer_size handler =
    create_packet cmd_ping (some (0x50 ∷ 0x49 ∷ 0x4e ∷ 0x47 ∷ [])) 4 buffer buffer_size handler

-- The arguments are the bytes of the temperature, the humidity and the pressure.
unfoldable pub sensor_bytes : List ℕ → List ℕ → List ℕ → List ℕ
sensor_bytes temperature humidity pressure =
    slice temperature 0 0 4 ++ (slice humidity 0 0 4 ++ slice pressure 0 0 4)

pub create_sensor_data : List ℕ → List ℕ → List ℕ → Option (List ℕ) → ℕ → Option Handler → Created
create_sensor_data temperature humidity pressure buffer buffer_size handler =
    create_packet cmd_sensor_data (some (sensor_bytes temperature humidity pressure)) 12 buffer
      buffer_size handler

unfoldable pub status_bytes : ℕ → List ℕ → ℕ → List ℕ
status_bytes uptime cpu_usage task_count =
    bit_and (uptime >>> 24) 0xff
    ∷ bit_and (uptime >>> 16) 0xff
    ∷ bit_and (uptime >>> 8) 0xff
    ∷ bit_and uptime 0xff
    ∷ (slice cpu_usage 0 0 4 ++ (task_count ∷ []))

pub create_status : ℕ → List ℕ → ℕ → Option (List ℕ) → ℕ → Option Handler → Created
create_status uptime cpu_usage task_count buffer buffer_size handler =
    create_packet cmd_status_response (some (status_bytes uptime cpu_usage task_count)) 9 buffer
      buffer_size handler

pub create_error : ProtocolError → Option (List ℕ) → ℕ → Option Handler → Created
create_error error buffer buffer_size handler =
    create_packet cmd_error (some (error_code error ∷ [])) 1 buffer buffer_size handler

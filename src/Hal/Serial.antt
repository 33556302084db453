-- ===== src/Hal/Serial.antt =====
-- `hal_uart_send` and `hal_uart_receive` of src/hal/hal.c. The line is simulated: of what is sent the
-- function prints the first bytes, and what is received is one of five texts.
use embed_rtos.Base.{
  ℕ, ◌%◌, ◌&&◌, ◌||◌, not, Option, none, some, List, [], ◌∷◌, ◌>>=◌, ltb, ◌==◌, if◌then◌else◌,
  add32, get_or, length, codes, slice, read_bytes, write_bytes,
}
use embed_rtos.Hal.Devices.{Uart}

-- The bytes that the printout shows, and that are all that the function reads: 32 at most.
abbrev pub shown : ℕ → ℕ
shown len = if ltb len 32 then len else 32

-- The data that the call hands over to the line, if any: `len` bytes at `data`, as its caller means
-- them. Only the bytes that are shown are read here.
unfoldable pub uart_send : Option Uart → Option (List ℕ) → ℕ → Option (List (List ℕ))
uart_send none bytes len = some []
uart_send (some uart) none len = some []
uart_send (some uart) (some bytes) len =
    if uart.initialized && ltb 0 len
    then (read_bytes bytes 0 (shown len) >>= λ printed. some (slice bytes 0 0 len ∷ []))
    else some []

abbrev pub test_messages : List (List ℕ)
test_messages =
    codes "SENSOR_DATA"
    ∷ codes "OTA_UPDATE_AVAILABLE"
    ∷ codes "SYSTEM_STATUS_OK"
    ∷ codes "TEMP:25.5C"
    ∷ codes "HUM:60%"
    ∷ []

-- The bytes of `message` that go into a buffer of `len`.
abbrev pub received : List ℕ → ℕ → ℕ
received message len = if ltb (length message) len then length message else len

-- The result is the number of bytes, the caller's buffer and `simulation_counter`.
unfoldable pub uart_receive :
    ℕ → Option Uart → Option (List ℕ) → ℕ → Option (ℕ × Option (List ℕ) × ℕ)
uart_receive counter none buffer len = some (0, buffer, counter)
uart_receive counter (some uart) none len = some (0, none, counter)
uart_receive counter (some uart) (some buffer) len =
    let counter' = add32 counter 1 in
    let message = get_or test_messages (counter' % 5) [] in
    let copy_len = received message len in
    if not uart.initialized || len == 0
    then some (0, some buffer, counter)
    else (if counter' % 100 == 0
        then (read_bytes message 0 copy_len >>= λ src.
            write_bytes buffer 0 src >>= λ buffer'. some (copy_len, some buffer', counter'))
        else some (0, some buffer, counter'))

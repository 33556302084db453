-- ===== src/App/Comm/Line.antt =====
-- What the communication task sees of the simulated line.
use embed_rtos.Base.{
  ℕ, ◌%◌, ◌≡◌, refl, ap, ◌⊎◌, inl, inr, true, false, some, List, [], ◌∷◌, arith, length, splice,
  get_or, add32, ◌==◌, Bool-cases, ◌>>=◌, codes, read_bytes-in_range, write_bytes-in_range,
  get_or-splice_outside,
}
use embed_rtos.Hal.Devices.{Uart, uart_available}
use embed_rtos.Hal.Serial.{uart_receive}

-- The simulated line gives nothing or the first test message: the counter that lets one through,
-- a multiple of 100, also chooses it, modulo 5.
pub uart_receive_cases :
    (counter : ℕ) (uart : Uart) (buffer : List ℕ)
    → uart.initialized ≡ true
    → length buffer ≡ 256
    → let counter' = add32 counter 1 in
      (uart_receive counter (some uart) (some buffer) 256 ≡ some (0, some buffer, counter'))
      ⊎ (uart_receive counter (some uart) (some buffer) 256
          ≡ some (11, some (splice buffer 0 (codes "SENSOR_DATA")), counter'))
unfolding uart_receive
uart_receive_cases counter uart buffer i size =
    let counter' : ℕ = add32 counter 1 in
    elim (Bool-cases (counter' % 100 == 0)) [
      | inr e ↦ inl (rw (i, e) refl)
      | inl e ↦
          let first : counter' % 5 ≡ 0 = ground arith in
          inr (
            rw
              (
                i,
                e,
                first,
                read_bytes-in_range (codes "SENSOR_DATA") 0 11 (omega arith),
                ◌>>=◌,
                write_bytes-in_range buffer 0 (codes "SENSOR_DATA") (omega arith),
              )
              refl)
    ]

pub first_byte :
    (buffer : List ℕ)
    → length buffer ≡ 256
    → (get_or (splice buffer 0 (codes "SENSOR_DATA")) 0 0 == 0xaa) ≡ false
first_byte [] h = absurd (omega arith)
first_byte (x ∷ buffer) h =
    let e : get_or (splice (x ∷ buffer) 0 (codes "SENSOR_DATA")) 0 0 ≡ 0x53 =
      get_or-splice_outside (0x53 ∷ buffer) 1 (codes "ENSOR_DATA") 0 0 (inl (omega arith)) in
    ap (λ k. k == 0xaa) e

pub uart_available-online :
    (counter : ℕ) (uart : Uart)
    → uart.initialized ≡ true
    → uart_available counter (some uart) ≡ (add32 counter 1 % 50 == 0, add32 counter 1)
unfolding uart_available
uart_available-online counter uart i = rw i refl

-- ===== src/Hal/Bus.antt =====
-- SPI and I2C of src/hal/virt_periph.c and virt_periph.h. Pointers are `Option`s (`none` is NULL), and
-- the outer `Option` of a result is `none` for an access out of bounds. The registers that no function
-- writes are left out.
pub mod Echo
mod Examples
use embed_rtos.Base.{
  ℕ, zero, suc, ◌%◌, Bool, true, false, not, ◌||◌, Option, none, some, List, [], ◌∷◌, ◌>>=◌, ◌==◌,
  ltb, if◌then◌else◌, u8, add32, bit_xor, get_elem?, read_bytes, write_bytes,
}

pub record Spi : Type 0 where
  pub cr1 : ℕ
  pub cr2 : ℕ
  pub sr : ℕ
  pub dr : ℕ
  pub initialized : Bool

pub record I2c : Type 0 where
  pub cr1 : ℕ
  pub cr2 : ℕ
  pub initialized : Bool

pub spi_init : Option Spi → Option Spi
spi_init none = none
spi_init (some spi) =
    some (record spi { cr1 = 0x0000; cr2 = 0x0000; sr = 0x0002; dr = 0x00; initialized = true })

pub spi_deinit : Option Spi → Option Spi
spi_deinit none = none
spi_deinit (some spi) =
    if spi.initialized then some (record spi { initialized = false }) else some spi

-- The byte that comes back for the byte `i`: what was sent, with its low bit flipped now and then.
pub echo : Option (List ℕ) → ℕ → Option ℕ
echo tx_data i = (elim tx_data [ none ↦ some 0x00 | some tx ↦ get_elem? tx i ]) >>= λ byte.
    some (if i % 5 == 0 then bit_xor byte 0x01 else byte)

-- The loop, with `left` bytes to go, the next at `i`.
pub transfer_loop : ℕ → ℕ → Option (List ℕ) → Option (List ℕ) → Option (Option (List ℕ))
transfer_loop zero i tx_data rx_data = some rx_data
transfer_loop (suc left) i tx_data rx_data = echo tx_data i >>= λ byte. elim rx_data [
  | none ↦ transfer_loop left (suc i) tx_data none
  | some rx ↦ write_bytes rx i (byte ∷ []) >>= λ rx'. transfer_loop left (suc i) tx_data (some rx')
]

-- The result is the caller's `rx_data`; no more than sixteen bytes are transferred.
pub spi_transfer : Option Spi → Option (List ℕ) → Option (List ℕ) → ℕ → Option (Option (List ℕ))
spi_transfer none tx_data rx_data size = some rx_data
spi_transfer (some spi) tx_data rx_data size =
    if not spi.initialized
    then some rx_data
    else transfer_loop (if ltb size 16 then size else 16) 0 tx_data rx_data

-- The static `counter` is an argument that comes back, here and below.
pub spi_is_busy : ℕ → Option Spi → Bool × ℕ
spi_is_busy counter none = (false, counter)
spi_is_busy counter (some spi) =
    if not spi.initialized then (false, counter) else (add32 counter 1 % 10 == 0, add32 counter 1)

pub i2c_init : Option I2c → Option I2c
i2c_init none = none
i2c_init (some i2c) = some (record i2c { cr1 = 0x0000; cr2 = 0x0000; initialized = true })

pub i2c_deinit : Option I2c → Option I2c
i2c_deinit none = none
i2c_deinit (some i2c) =
    if i2c.initialized then some (record i2c { initialized = false }) else some i2c

-- A write only prints the first bytes.
pub i2c_write : Option I2c → Option (List ℕ) → ℕ → Option Bool
i2c_write none bytes len = some false
i2c_write (some i2c) none len = some false
i2c_write (some i2c) (some bytes) len =
    if not i2c.initialized || len == 0
    then some false
    else (read_bytes bytes 0 (if ltb len 16 then len else 16) >>= λ printed. some true)

-- The loop of a read; `simulated` is the static `simulated_data`.
pub fill_loop : ℕ → ℕ → ℕ → List ℕ → Option (List ℕ × ℕ)
fill_loop zero i simulated bytes = some (bytes, simulated)
fill_loop (suc left) i simulated bytes = write_bytes bytes i (simulated ∷ []) >>= λ bytes'.
    fill_loop left (suc i) (u8 (suc simulated)) bytes'

pub i2c_read : ℕ → Option I2c → Option (List ℕ) → ℕ → Option (Bool × Option (List ℕ) × ℕ)
i2c_read simulated none bytes len = some (false, bytes, simulated)
i2c_read simulated (some i2c) none len = some (false, none, simulated)
i2c_read simulated (some i2c) (some bytes) len =
    if not i2c.initialized || len == 0
    then some (false, some bytes, simulated)
    else (fill_loop len 0 simulated bytes >>= λ r. some (true, some r.0, r.1))

pub i2c_is_busy : ℕ → Option I2c → Bool × ℕ
i2c_is_busy counter none = (false, counter)
i2c_is_busy counter (some i2c) =
    if not i2c.initialized then (false, counter) else (add32 counter 1 % 15 == 0, add32 counter 1)

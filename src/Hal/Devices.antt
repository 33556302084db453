-- ===== src/Hal/Devices.antt =====
-- The devices of src/hal/hal.c and hal.h. Pointers are `Option`s (`none` is NULL), and the counters
-- that a C function keeps as `static` are arguments that come back beside its result.
pub mod Counting
pub mod Ranges
use embed_rtos.Base.{
  ℕ, ◌-◌, ◌*◌, ◌/◌, ◌%◌, Bool, true, false, not, ◌&&◌, ◌||◌, Option, none, some, List, [], ◌∷◌, ltb,
  ◌==◌, if◌then◌else◌, u32, add32, sub32, get_or, replicate, ◌<<<◌,
}

pub data GpioMode : Type 0 where
  input output analog : GpioMode

pub data GpioPull : Type 0 where
  pull_none pull_up pull_down : GpioPull

pub record Gpio : Type 0 where
  pub port : ℕ
  pub pin : ℕ
  pub mode : GpioMode
  pub pull : GpioPull
  pub value : Bool
  pub initialized : Bool

pub gpio_init : Option Gpio → Option Gpio
gpio_init none = none
gpio_init (some gpio) = some (record gpio { value = false; initialized = true })

pub gpio_deinit : Option Gpio → Option Gpio
gpio_deinit none = none
gpio_deinit (some gpio) =
    if gpio.initialized then some (record gpio { initialized = false }) else some gpio

pub gpio_write : Option Gpio → Bool → Option Gpio
gpio_write none value = none
gpio_write (some gpio) value =
    if gpio.initialized then some (record gpio { value = value }) else some gpio

-- Every 500th read of an input reads the opposite: a simulated press of a button.
pub gpio_read : ℕ → Option Gpio → Bool × ℕ
gpio_read counter none = (false, counter)
gpio_read counter (some gpio) =
    if gpio.initialized
    then (let counter' = add32 counter 1 in
        (
          elim gpio.mode [
            | input ↦ if counter' % 500 == 0 then not gpio.value else gpio.value
            | _ ↦ gpio.value
          ],
          counter',
        ))
    else (false, counter)

pub gpio_toggle : Option Gpio → Option Gpio
gpio_toggle none = none
gpio_toggle (some gpio) =
    if gpio.initialized then some (record gpio { value = not gpio.value }) else some gpio

pub record Uart : Type 0 where
  pub id : ℕ
  pub baudrate : ℕ
  pub rx_buffer : List ℕ
  pub rx_head : ℕ
  pub rx_tail : ℕ
  pub initialized : Bool

unfoldable pub uart_init : Option Uart → ℕ → Option Uart
uart_init none baudrate = none
uart_init (some uart) baudrate = some (record uart {
  baudrate = baudrate;
  rx_buffer = replicate 128 0;
  rx_head = 0;
  rx_tail = 0;
  initialized = true;
})

pub uart_deinit : Option Uart → Option Uart
uart_deinit none = none
uart_deinit (some uart) =
    if uart.initialized then some (record uart { initialized = false }) else some uart

unfoldable pub uart_available : ℕ → Option Uart → Bool × ℕ
uart_available counter none = (false, counter)
uart_available counter (some uart) =
    if not uart.initialized then (false, counter) else (add32 counter 1 % 50 == 0, add32 counter 1)

pub uart_flush : Option Uart → Option Uart
uart_flush none = none
uart_flush (some uart) =
    if uart.initialized then some (record uart { rx_head = 0; rx_tail = 0 }) else some uart

pub record Adc : Type 0 where
  pub channel : ℕ
  pub resolution : ℕ
  pub value : ℕ
  pub sample_count : ℕ

pub adc_init : Option Adc → ℕ → Option Adc
adc_init none resolution = none
adc_init (some adc) resolution =
    some (record adc { resolution = resolution; value = 0; sample_count = 0 })

abbrev pub base_values : List ℕ
base_values = 2048 ∷ 1024 ∷ 3072 ∷ 512 ∷ 3584 ∷ []

-- `(1 << resolution) - 1`, for a resolution below 32.
abbrev pub max_value : ℕ → ℕ
max_value resolution = sub32 (u32 (1 <<< resolution)) 1

-- `random` is what `rand()` gives.
pub adc_read : ℕ → Option Adc → ℕ × Option Adc
adc_read random none = (0, none)
adc_read random (some adc) =
    let samples = add32 adc.sample_count 1 in
    let base = get_or base_values (adc.channel % 5) 0 in
    let drift = samples / 100 % 100 in
    let noise = random % 50 in
    let raw = sub32 (add32 (add32 base drift) noise) 25 in
    let value' = if ltb (max_value adc.resolution) raw then max_value adc.resolution else raw in
    (value', some (record adc { value = value'; sample_count = samples }))

pub record Timer : Type 0 where
  pub id : ℕ
  pub prescaler : ℕ
  pub period : ℕ
  pub counter : ℕ
  pub running : Bool

pub timer_init : Option Timer → ℕ → ℕ → Option Timer
timer_init none prescaler period = none
timer_init (some timer) prescaler period =
    some (record timer { prescaler = prescaler; period = period; counter = 0; running = false })

pub timer_start : Option Timer → Option Timer
timer_start none = none
timer_start (some timer) = some (record timer { running = true; counter = 0 })

pub timer_stop : Option Timer → Option Timer
timer_stop none = none
timer_stop (some timer) = some (record timer { running = false })

pub timer_get_count : Option Timer → ℕ × Option Timer
timer_get_count none = (0, none)
timer_get_count (some timer) =
    if timer.running
    then (let counted = add32 timer.counter 1 in
        let counter' = if ltb timer.period counted then 0 else counted in
        (counter', some (record timer { counter = counter' })))
    else (0, some timer)

pub timer_reset : Option Timer → Option Timer
timer_reset none = none
timer_reset (some timer) = some (record timer { counter = 0 })

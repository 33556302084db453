-- ===== src/Simulator/Gpio.antt =====
-- The pins of simulator/virt_board.c. A `virt_gpio_t*` is the caller's own copy of an entry of the
-- table, and comes back changed beside the machine; `none` outside is an access past the table.
use embed_rtos.Base.{
  ℕ, ◌%◌, Bool, true, false, not, Option, none, some, List, leb, ◌==◌, if◌then◌else◌, ◌>>=◌, add32,
  get_elem?, set,
}
use embed_rtos.Simulator.Board.{Machine, VirtGpio}

-- The entry of a pin, changed.
pub update_pin : List VirtGpio → ℕ → (VirtGpio → VirtGpio) → Option (List VirtGpio)
update_pin table n change = get_elem? table n >>= λ g. some (set table n (change g))

module _ {W : Type 0} where
  pub init : Option VirtGpio → ℕ → ℕ → Machine W → Option (Option VirtGpio × Machine W)
  init none port pin m = some (none, m)
  init (some gpio) port pin m =
      if leb 128 pin
      then some (some gpio, m)
      else (let gpio' : VirtGpio = record {
        port = port;
        pin = pin;
        value = false;
        direction = false;
        pull = true;
      } in
          update_pin m.gpio_pins pin (λ g. gpio') >>= λ table.
          some (some gpio', record m { gpio_pins = table }))

  pub set_direction : Option VirtGpio → Bool → Machine W → Option (Option VirtGpio × Machine W)
  set_direction none output m = some (none, m)
  set_direction (some gpio) output m =
      update_pin m.gpio_pins gpio.pin (λ g. record g { direction = output }) >>= λ table.
      some (some (record gpio { direction = output }), record m { gpio_pins = table })

  pub write : Option VirtGpio → Bool → Machine W → Option (Option VirtGpio × Machine W)
  write none value m = some (none, m)
  write (some gpio) value m =
      if not gpio.direction
      then some (some gpio, m)
      else (update_pin m.gpio_pins gpio.pin (λ g. record g { value = value }) >>= λ table.
          some (some (record gpio { value = value }), record m { gpio_pins = table }))

  -- `counter` is the static `read_counter`. Every 1000th read of an input reads the opposite.
  pub read : ℕ → Option VirtGpio → Machine W → Option (Bool × ℕ)
  read counter none m = some (false, counter)
  read counter (some gpio) m =
      let counter' = add32 counter 1 in
      if gpio.direction
      then some (gpio.value, counter')
      else (get_elem? m.gpio_pins gpio.pin >>= λ g.
          some (if counter' % 1000 == 0 then not g.value else g.value, counter'))

  pub toggle : Option VirtGpio → Machine W → Option (Option VirtGpio × Machine W)
  toggle none m = some (none, m)
  toggle (some gpio) m =
      if not gpio.direction
      then some (some gpio, m)
      else (let value = not gpio.value in
          update_pin m.gpio_pins gpio.pin (λ g. record g { value = value }) >>= λ table.
          some (some (record gpio { value = value }), record m { gpio_pins = table }))

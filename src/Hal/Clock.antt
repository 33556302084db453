-- ===== src/Hal/Clock.antt =====
-- The system functions of src/hal/hal.c over its static tick counters. `now` is what `clock()` gives,
-- and `per_second` is CLOCKS_PER_SEC.
use embed_rtos.Base.{ℕ, ◌+◌, ◌-◌, ◌*◌, ◌/◌, ◌%◌, ◌^◌, u32, add32}

pub record HalClock : Type 0 where
  pub system_tick_ms : ℕ
  pub system_tick_us : ℕ
  pub program_start_time : ℕ

-- `uint64_t` addition.
abbrev add64 : ℕ → ℕ → ℕ
add64 a b = (a + b) % 2 ^ 64

pub hal_init : ℕ → HalClock
hal_init now = record { system_tick_ms = 0; system_tick_us = 0; program_start_time = now }

pub delay_ms : ℕ → HalClock → HalClock
delay_ms ms c = record c {
  system_tick_ms = add32 c.system_tick_ms ms;
  system_tick_us = add64 c.system_tick_us (u32 (ms * 1000));
}

pub delay_us : ℕ → HalClock → HalClock
delay_us us c = record c {
  system_tick_us = add64 c.system_tick_us us;
  system_tick_ms = add32 c.system_tick_ms (us / 1000);
}

pub get_tick_ms : ℕ → ℕ → HalClock → ℕ × HalClock
get_tick_ms per_second now c =
    let elapsed_ms = u32 ((now - c.program_start_time) * 1000 / per_second) in
    (elapsed_ms, record c { system_tick_ms = elapsed_ms })

pub get_tick_us : ℕ → ℕ → HalClock → ℕ × HalClock
get_tick_us per_second now c =
    let elapsed_us = (now - c.program_start_time) * 1000000 / per_second % 2 ^ 64 in
    (elapsed_us, record c { system_tick_us = elapsed_us })

pub hal_reset : ℕ → HalClock → HalClock
hal_reset now c = record { system_tick_ms = 0; system_tick_us = 0; program_start_time = now }

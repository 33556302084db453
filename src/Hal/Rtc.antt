-- ===== src/Hal/Rtc.antt =====
-- The real-time clock of src/hal/virt_periph.c and virt_periph.h. A `virt_rtc_t*` and the pointers to
-- results are `Option`s (`none` is NULL). The registers that no function reads are left out.
pub mod RoundTrip
use embed_rtos.Base.{
  ℕ, ◌+◌, ◌*◌, ◌/◌, ◌%◌, Bool, true, false, not, ◌||◌, Option, none, some, ltb, if◌then◌else◌, u8,
  u32, ◌<<<◌, ◌>>>◌, bit_or, bit_and, sub32,
}

pub record Rtc : Type 0 where
  pub time_register : ℕ
  pub date_register : ℕ
  pub initialized : Bool

-- Six decimal digits in the fields of a register, from the two at bit 16 down.
pub packed : ℕ → ℕ → ℕ → ℕ
packed a b c = u32 (
    bit_or
      (bit_or
        (bit_or (bit_or (bit_or ((a / 10) <<< 20) ((a % 10) <<< 16)) ((b / 10) <<< 12))
          ((b % 10) <<< 8))
        ((c / 10) <<< 4))
      (c % 10))

-- `local_time` is the host's local time as `struct tm`: hour, minute, second, years since 1900,
-- month from 0, and day.
pub record LocalTime : Type 0 where
  pub tm_hour : ℕ
  pub tm_min : ℕ
  pub tm_sec : ℕ
  pub tm_year : ℕ
  pub tm_mon : ℕ
  pub tm_mday : ℕ

-- Here `tm_year - 100` is of a year from 2000 on.
pub init : LocalTime → Option Rtc → Option Rtc
unfolding packed
init t none = none
init t (some rtc) = some (record {
  time_register = packed t.tm_hour t.tm_min t.tm_sec;
  date_register = packed (sub32 t.tm_year 100) (t.tm_mon + 1) t.tm_mday;
  initialized = true;
})

pub deinit : Option Rtc → Option Rtc
deinit none = none
deinit (some rtc) = if rtc.initialized then some (record rtc { initialized = false }) else some rtc

pub set_time : Option Rtc → ℕ → ℕ → ℕ → Option Rtc
unfolding packed
set_time none hour minute second = none
set_time (some rtc) hour minute second =
    if not rtc.initialized
    then some rtc
    else (if ltb 23 hour || ltb 59 minute || ltb 59 second
        then some rtc
        else some (record rtc { time_register = packed hour minute second }))

-- The weekday is tested and then not stored.
pub set_date : Option Rtc → ℕ → ℕ → ℕ → ℕ → Option Rtc
unfolding packed
set_date none year month day weekday = none
set_date (some rtc) year month day weekday =
    if not rtc.initialized
    then some rtc
    else (if ltb 99 year || ltb 12 month || ltb month 1 || ltb 31 day || ltb day 1 || ltb 6 weekday
        then some rtc
        else some (record rtc { date_register = packed year month day }))

-- The two digits of a field, the upper one under a mask of its own.
pub two_digits : ℕ → ℕ → ℕ → ℕ → ℕ
two_digits register mask high low =
    u8 (bit_and (register >>> high) mask * 10 + bit_and (register >>> low) 0x0f)

-- What the three pointers point to after the call, or `none` where nothing is written.
pub get_time : Option Rtc → Bool → Bool → Bool → Option (ℕ × ℕ × ℕ)
unfolding two_digits
get_time none hour minute second = none
get_time (some rtc) hour minute second =
    if not rtc.initialized || not hour || not minute || not second
    then none
    else some (
      two_digits rtc.time_register 0x03 20 16,
      two_digits rtc.time_register 0x07 12 8,
      two_digits rtc.time_register 0x07 4 0,
    )

-- The same of four pointers, of which the last may be NULL.
pub get_date : Option Rtc → Bool → Bool → Bool → Bool → Option (ℕ × ℕ × ℕ × Option ℕ)
unfolding two_digits
get_date none year month day weekday = none
get_date (some rtc) year month day weekday =
    if not rtc.initialized || not year || not month || not day
    then none
    else some (
      two_digits rtc.date_register 0x0f 20 16,
      two_digits rtc.date_register 0x01 12 8,
      two_digits rtc.date_register 0x03 4 0,
      if weekday then some (bit_and (rtc.date_register >>> 13) 0x07) else none,
    )

-- `now` is the host's time.
pub get_timestamp : ℕ → Option Rtc → ℕ
get_timestamp now none = 0
get_timestamp now (some rtc) = if not rtc.initialized then 0 else u32 now

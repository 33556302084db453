-- ===== src/Hal/Rtc/RoundTrip.antt =====
-- Setting and reading the clock: the binary-coded decimal registers.
use embed_rtos.Base.{
  ℕ, ◌+◌, ◌-◌, ◌*◌, ◌/◌, ◌%◌, ◌^◌, ◌<◌, ◌≤◌, ◌≡◌, refl, true, some, arith, u8, bit_and, ltb-false,
  ◌∙◌,
}
use embed_rtos.Base.Bits.{bit_or-multiple, bit_and-mask}
use embed_rtos.Hal.Rtc.{Rtc, packed, two_digits, set_time, get_time, set_date, get_date}

-- A register as a number: its six digits in base 16.
packed-sum :
    (a b c : ℕ)
    → a < 100
    → b < 100
    → c < 100
    → packed a b c
      ≡ a / 10 * 1048576 + a % 10 * 65536 + b / 10 * 4096 + b % 10 * 256 + c / 10 * 16 + c % 10
unfolding packed
packed-sum a b c ha hb hc =
    rw
      (
        bit_or-multiple 20 (a / 10 * 1048576) (a / 10) (a % 10 * 65536) refl (omega arith),
        bit_or-multiple 16 (a / 10 * 1048576 + a % 10 * 65536) (a / 10 * 16 + a % 10)
            (b / 10 * 4096) (omega arith) (omega arith),
        bit_or-multiple 12 (a / 10 * 1048576 + a % 10 * 65536 + b / 10 * 4096)
            (a / 10 * 256 + a % 10 * 16 + b / 10) (b % 10 * 256) (omega arith) (omega arith),
        bit_or-multiple 8 (a / 10 * 1048576 + a % 10 * 65536 + b / 10 * 4096 + b % 10 * 256)
            (a / 10 * 4096 + a % 10 * 256 + b / 10 * 16 + b % 10) (c / 10 * 16) (omega arith)
            (omega arith),
        bit_or-multiple 4
            (a / 10 * 1048576 + a % 10 * 65536 + b / 10 * 4096 + b % 10 * 256 + c / 10 * 16)
            (a / 10 * 65536 + a % 10 * 4096 + b / 10 * 256 + b % 10 * 16 + c / 10) (c % 10)
            (omega arith) (omega arith),
      )
      (omega arith)

two_digits-mod :
    (k mask x high low : ℕ)
    → mask ≡ 2 ^ k - 1
    → two_digits x mask high low ≡ u8 (x / 2 ^ high % 2 ^ k * 10 + x / 2 ^ low % 16)
unfolding two_digits
two_digits-mod k mask x high low e =
    rw (e, bit_and-mask k (x / 2 ^ high), bit_and-mask 4 (x / 2 ^ low)) refl

-- The fields of a register, read with the masks for a digit up to 3, 7, 15 and 1.
module _ (a b c : ℕ) (ha : a < 100) (hb : b < 100) (hc : c < 100) where
  first-two_bits : a < 40 → two_digits (packed a b c) 3 20 16 ≡ a
  first-two_bits h =
      two_digits-mod 2 3 (packed a b c) 20 16 refl ∙ rw (packed-sum a b c ha hb hc) (omega arith)

  first-four_bits : two_digits (packed a b c) 15 20 16 ≡ a
  first-four_bits =
      two_digits-mod 4 15 (packed a b c) 20 16 refl ∙ rw (packed-sum a b c ha hb hc) (omega arith)

  second-three_bits : b < 80 → two_digits (packed a b c) 7 12 8 ≡ b
  second-three_bits h =
      two_digits-mod 3 7 (packed a b c) 12 8 refl ∙ rw (packed-sum a b c ha hb hc) (omega arith)

  second-one_bit : b < 20 → two_digits (packed a b c) 1 12 8 ≡ b
  second-one_bit h =
      two_digits-mod 1 1 (packed a b c) 12 8 refl ∙ rw (packed-sum a b c ha hb hc) (omega arith)

  third-three_bits : c < 80 → two_digits (packed a b c) 7 4 0 ≡ c
  third-three_bits h =
      two_digits-mod 3 7 (packed a b c) 4 0 refl ∙ rw (packed-sum a b c ha hb hc) (omega arith)

  third-two_bits : c < 40 → two_digits (packed a b c) 3 4 0 ≡ c
  third-two_bits h =
      two_digits-mod 2 3 (packed a b c) 4 0 refl ∙ rw (packed-sum a b c ha hb hc) (omega arith)

  no_weekday : b < 20 → bit_and (packed a b c / 2 ^ 13) 7 ≡ 0
  no_weekday h =
      bit_and-mask 3 (packed a b c / 2 ^ 13) ∙ rw (packed-sum a b c ha hb hc) (omega arith)

module _ (rtc : Rtc) (on : rtc.initialized ≡ true) where
  -- A valid time, set by `virt_rtc_set_time` on a clock that is on, is what `virt_rtc_get_time`
  -- gives back.
  pub set_time-get_time :
      (hour minute second : ℕ)
      → hour ≤ 23
      → minute ≤ 59
      → second ≤ 59
      → get_time (set_time (some rtc) hour minute second) true true true
        ≡ some (hour, minute, second)
  unfolding set_time get_time
  set_time-get_time h m s hh hm hs =
      rw
        (
          on,
          ltb-false 23 h hh,
          ltb-false 59 m hm,
          ltb-false 59 s hs,
          first-two_bits h m s (omega arith) (omega arith) (omega arith) (omega arith),
          second-three_bits h m s (omega arith) (omega arith) (omega arith) (omega arith),
          third-three_bits h m s (omega arith) (omega arith) (omega arith) (omega arith),
        )
        refl

  -- A valid date, set by `virt_rtc_set_date` on a clock that is on, is what `virt_rtc_get_date`
  -- gives back, but for the weekday, which reads 0 whatever was set.
  pub set_date-get_date :
      (year month day weekday : ℕ)
      → year ≤ 99
      → 1 ≤ month
      → month ≤ 12
      → 1 ≤ day
      → day ≤ 31
      → weekday ≤ 6
      → get_date (set_date (some rtc) year month day weekday) true true true true
        ≡ some (year, month, day, some 0)
  unfolding set_date get_date
  set_date-get_date y m d w hy m1 hm d1 hd hw =
      rw
        (
          on,
          ltb-false 99 y hy,
          ltb-false 12 m hm,
          ltb-false m 1 m1,
          ltb-false 31 d hd,
          ltb-false d 1 d1,
          ltb-false 6 w hw,
          first-four_bits y m d (omega arith) (omega arith) (omega arith),
          second-one_bit y m d (omega arith) (omega arith) (omega arith) (omega arith),
          third-two_bits y m d (omega arith) (omega arith) (omega arith) (omega arith),
          no_weekday y m d (omega arith) (omega arith) (omega arith) (omega arith),
        )
        refl

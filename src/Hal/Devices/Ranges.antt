-- ===== src/Hal/Devices/Ranges.antt =====
-- The values of the simulated converter.
use native.Mathlib.Nat.{mod-lt}
use embed_rtos.Base.{
  ℕ, zero, suc, ◌/◌, ◌%◌, ◌<◌, ◌≤◌, ◌≡◌, refl, some, arith, get_or, ltb, ltb-false, false, ap, ◌∙◌,
  add32, sub32,
}
use embed_rtos.Hal.Devices.{Adc, base_values, max_value, adc_read}

base_values-range :
    (k : ℕ) → k < 5 → (512 ≤ get_or base_values k 0) × (get_or base_values k 0 ≤ 3584)
base_values-range zero h = (omega arith, omega arith)
base_values-range (suc zero) h = (omega arith, omega arith)
base_values-range (suc (suc zero)) h = (omega arith, omega arith)
base_values-range (suc (suc (suc zero))) h = (omega arith, omega arith)
base_values-range (suc (suc (suc (suc zero)))) h = (omega arith, omega arith)
base_values-range (suc (suc (suc (suc (suc k))))) h = absurd (omega arith)

-- At a resolution of 12 bits, `hal_adc_read` gives a value from 487 to 3707 whatever the channel,
-- the number of samples and the random number, so it is never cut to the resolution, and keeps it.
pub adc_read-range :
    (random : ℕ) (adc : Adc)
    → adc.resolution ≡ 12
    → (v : ℕ) × (adc' : Adc) × (adc_read random (some adc) ≡ (v, some adc'))
      × (adc'.value ≡ v)
      × (487 ≤ v)
      × (v ≤ 3707)
unfolding adc_read
adc_read-range random adc r =
    let base : ℕ = get_or base_values (adc.channel % 5) 0 in
    let range = base_values-range (adc.channel % 5) (mod-lt adc.channel (omega arith)) in
    let drift : ℕ = add32 adc.sample_count 1 / 100 % 100 in
    let noise : ℕ = random % 50 in
    let raw : ℕ = sub32 (add32 (add32 base drift) noise) 25 in
    let low : 487 ≤ raw = omega (arith, range.0, range.1) in
    let high : raw ≤ 3707 = omega (arith, range.0, range.1) in
    let uncut : ltb (max_value adc.resolution) raw ≡ false =
      ap (λ k. ltb (max_value k) raw) r ∙ ltb-false 4095 raw (omega (arith, high)) in
    (
      raw,
      record adc { value = raw; sample_count = add32 adc.sample_count 1 },
      rw uncut refl,
      refl,
      low,
      high,
    )

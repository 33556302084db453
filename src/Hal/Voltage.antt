-- ===== src/Hal/Voltage.antt =====
-- hal_adc_read_voltage of src/hal/hal.c. It reads the resolution through the pointer that hal_adc_read
-- has tested for NULL: `none` is the null pointer.
use embed_rtos.Base.{ℕ, Option, none, some}
use embed_rtos.Base.Float.{Float, of_nat, ◌⊗◌, ◌⊘◌}
use embed_rtos.Hal.Devices.{Adc, adc_read, max_value}

-- `random` is what `rand()` gives.
pub adc_read_voltage : {F : Type 0} ⦃f : Float F⦄ → ℕ → Option Adc → F → Option (F × Option Adc)
adc_read_voltage random none vref = none
adc_read_voltage random (some adc) vref =
    let raw = adc_read random (some adc) in
    some (of_nat raw.0 ⊗ vref ⊘ of_nat (max_value adc.resolution), raw.1)

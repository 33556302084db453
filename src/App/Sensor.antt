-- ===== src/App/Sensor.antt =====
-- src/app/sensor_task.c: the sensor task. The host's generator of random numbers and its sine are
-- parameters.
pub mod Rounds
pub mod Served
use embed_rtos.Base.{
  ℕ, ◌+◌, ◌%◌, Bool, true, false, ◌&&◌, some, List, [], ◌∷◌, if◌then◌else◌, leb, ◌==◌, add32, sub32,
}
use embed_rtos.Base.Float.{Float, of_nat, ◌⊕◌, ◌⊖◌, ◌⊗◌, ◌⊘◌}
use embed_rtos.Algorithms.Kalman1d.{Kalman1d, initial, step}

-- `sensor_data_t`.
pub record Sample (F : Type 0) : Type 0 where
  pub temperature : F
  pub humidity : F
  pub pressure : F
  pub sample_count : ℕ
  pub data_ready : Bool

-- The static data and the locals of the task; `printed` counts the lines it has logged.
pub record Sensor (F : Type 0) : Type 0 where
  pub sensor_data : Sample F
  pub temp_kf : Kalman1d F
  pub hum_kf : Kalman1d F
  pub press_kf : Kalman1d F
  pub drift : F
  pub trend : F
  pub last_print : ℕ
  pub printed : ℕ

-- The host's `sinf` and `RAND_MAX`.
pub record Host (F : Type 0) : Type 0 where
  pub sine : F → F
  pub rand_max : ℕ

-- What a round reads: the tick count, and five random numbers in the order of their use.
pub record Draws : Type 0 where
  pub tick_count : ℕ
  pub drift_random : ℕ
  pub temperature_random : ℕ
  pub humidity_random : ℕ
  pub trend_random : ℕ
  pub pressure_random : ℕ

module _ {F : Type 0} ⦃f : Float F⦄ where
  -- `if (x > limit) x = limit; if (x < -limit) x = -limit;`
  pub clamp : F → F → F
  clamp limit x =
      let upper = if f.lt limit x then limit else x in
      if f.lt upper (f.neg limit) then f.neg limit else upper

  -- `((float)rand() / RAND_MAX - 0.5f) * scale`.
  noise : Host F → ℕ → F → F
  noise h random scale = (of_nat random ⊘ of_nat h.rand_max ⊖ f.ratio 1 2) ⊗ scale

  pub simulate_temperature : Host F → Draws → Sensor F → F × Sensor F
  unfolding clamp noise
  simulate_temperature h d t =
      let drift = clamp (of_nat 2) (t.drift ⊕ noise h d.drift_random (f.ratio 1 100)) in
      let time_of_day = h.sine (of_nat d.tick_count ⊗ f.ratio 1 10000) in
      (
        of_nat 25 ⊕ drift ⊕ noise h d.temperature_random (f.ratio 1 2) ⊕ time_of_day ⊗ of_nat 5,
        record t { drift = drift },
      )

  pub simulate_humidity : Host F → Draws → Sensor F → F
  unfolding noise
  simulate_humidity h d t =
      let temp_factor = (t.sensor_data.temperature ⊖ of_nat 25) ⊗ f.neg (of_nat 1) in
      let variation = h.sine (of_nat d.tick_count ⊗ f.ratio 5 100000) ⊗ of_nat 10 in
      of_nat 50 ⊕ temp_factor ⊕ noise h d.humidity_random (of_nat 2) ⊕ variation

  pub simulate_pressure : Host F → Draws → Sensor F → F × Sensor F
  unfolding clamp noise
  simulate_pressure h d t =
      let trend = clamp (of_nat 10) (t.trend ⊕ noise h d.trend_random (f.ratio 5 1000)) in
      (
        f.ratio 101325 100 ⊕ trend ⊕ noise h d.pressure_random (f.ratio 1 5),
        record t { trend = trend },
      )

  -- The three filters, which are never null, take the raw readings.
  pub filter_readings : F → F → F → Sensor F → Sensor F
  filter_readings raw_temp raw_hum raw_press t =
      let temp_kf = step t.temp_kf raw_temp in
      let hum_kf = step t.hum_kf raw_hum in
      let press_kf = step t.press_kf raw_press in
      record t {
        sensor_data = record {
          temperature = temp_kf.x;
          humidity = hum_kf.x;
          pressure = press_kf.x;
          sample_count = add32 t.sensor_data.sample_count 1;
          data_ready = true;
        };
        temp_kf = temp_kf;
        hum_kf = hum_kf;
        press_kf = press_kf;
      }

  pub print_sample : ℕ → Sensor F → Sensor F
  print_sample ticks t =
      if t.sensor_data.sample_count % 100 == 0
      then (if leb 5000 (sub32 ticks t.last_print)
          then record t { last_print = ticks; printed = t.printed + 1 }
          else t)
      else t

  -- One round of the task's loop, up to its delay.
  pub sensor_round : Host F → Draws → Sensor F → Sensor F
  sensor_round h d t =
      let temperature = simulate_temperature h d t in
      let humidity = simulate_humidity h d temperature.1 in
      let pressure = simulate_pressure h d temperature.1 in
      print_sample d.tick_count (filter_readings temperature.0 humidity pressure.0 pressure.1)

  pub sensor_rounds : Host F → List Draws → Sensor F → Sensor F
  sensor_rounds h [] t = t
  sensor_rounds h (d ∷ ds) t = sensor_rounds h ds (sensor_round h d t)

  -- What the task does before its loop, with the static variables of the program's start.
  unfoldable pub start : Sensor F
  start = record {
    sensor_data = record {
      temperature = of_nat 25;
      humidity = of_nat 50;
      pressure = f.ratio 101325 100;
      sample_count = 0;
      data_ready = false;
    };
    temp_kf = initial (f.ratio 1 1000) (f.ratio 1 10) (of_nat 25) (of_nat 1);
    hum_kf = initial (f.ratio 1 1000) (f.ratio 1 2) (of_nat 50) (of_nat 1);
    press_kf = initial (f.ratio 1 100) (of_nat 1) (f.ratio 101325 100) (of_nat 1);
    drift = of_nat 0;
    trend = of_nat 0;
    last_print = 0;
    printed = 0;
  }

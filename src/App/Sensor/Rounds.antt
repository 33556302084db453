-- ===== src/App/Sensor/Rounds.antt =====
-- The loop of the sensor task of src/app/sensor_task.c over many rounds.
use embed_rtos.Base.{
  ◌==◌, ◌%◌, false, ℕ, suc, ◌+◌, ◌%◌, ◌≡◌, refl, ap, true, false, List, [], ◌∷◌, arith, length,
  Bool-cases, inl, inr, add32,
}
use embed_rtos.Base.Float.{Float, Laws, of_nat}
use embed_rtos.App.Sensor.{
  Sensor, Host, Draws, clamp, simulate_temperature, simulate_pressure, filter_readings,
  print_sample, sensor_round, sensor_rounds, start,
}

module _ {F : Type 0} ⦃f : Float F⦄ where
  -- `x` is not beyond `limit` on either side.
  abbrev pub Within : F → F → Type 0
  Within limit x = (f.lt limit x ≡ false) × (f.lt x (f.neg limit) ≡ false)

  -- The task after `n` samples.
  pub record HasSampled (n : ℕ) (t : Sensor F) : Type 0 where
    pub count : t.sensor_data.sample_count ≡ n % 4294967296
    pub ready : t.sensor_data.data_ready ≡ true
    pub same_temperature : t.sensor_data.temperature ≡ t.temp_kf.x
    pub same_humidity : t.sensor_data.humidity ≡ t.hum_kf.x
    pub same_pressure : t.sensor_data.pressure ≡ t.press_kf.x
    pub drift_in : Within (of_nat 2) t.drift
    pub trend_in : Within (of_nat 10) t.trend

  -- Printing changes no data.
  print_sample-sensor_data :
      (ticks : ℕ) (t : Sensor F) → (print_sample ticks t).sensor_data ≡ t.sensor_data
  unfolding print_sample
  print_sample-sensor_data ticks t = ground arith

  pub sensor_round-sample_count :
      (h : Host F) (d : Draws) (t : Sensor F)
      → (sensor_round h d t).sensor_data.sample_count ≡ add32 t.sensor_data.sample_count 1
  unfolding sensor_round simulate_temperature simulate_pressure filter_readings
  sensor_round-sample_count h d t =
      ap (λ sample. sample.sample_count) (print_sample-sensor_data d.tick_count _)

  print_sample-silent :
      (ticks : ℕ) (t : Sensor F)
      → (t.sensor_data.sample_count % 100 == 0) ≡ false
      → print_sample ticks t ≡ t
  unfolding print_sample
  print_sample-silent ticks t e = rw e refl

  -- The first round logs nothing.
  pub sensor_round-printed :
      (h : Host F) (d : Draws) (t : Sensor F)
      → t.sensor_data.sample_count ≡ 0
      → (sensor_round h d t).printed ≡ t.printed
  unfolding sensor_round simulate_temperature simulate_pressure filter_readings
  sensor_round-printed h d t e =
      ap (λ x. x.printed) (print_sample-silent d.tick_count _ (rw e refl))

module _ {F : Type 0} ⦃f : Float F⦄ (l : Laws F) where
  clamp-Within : (n : ℕ) (x : F) → Within (of_nat n) (clamp (of_nat n) x)
  unfolding clamp
  clamp-Within n x =
      let below = l.le→not_lt (l.neg_le n) in
      elim (Bool-cases (f.lt (of_nat n) x)) [
        | inl e ↦ rw (e, below) (l.lt_irrefl (of_nat n), below)
        | inr e ↦ elim (Bool-cases (f.lt x (f.neg (of_nat n)))) [
          | inl e' ↦ rw (e, e') (below, l.lt_irrefl (f.neg (of_nat n)))
          | inr e' ↦ rw (e, e') (e, e')
        ]
      ]

  -- Printing changes nothing that counts.
  print_sample-HasSampled :
      (n ticks : ℕ) (t : Sensor F) → HasSampled n t → HasSampled n (print_sample ticks t)
  unfolding print_sample
  print_sample-HasSampled n ticks t h = ground (arith, h)

  round-HasSampled :
      (n : ℕ) (h : Host F) (d : Draws) (t : Sensor F)
      → t.sensor_data.sample_count ≡ n % 4294967296
      → HasSampled (n + 1) (sensor_round h d t)
  unfolding sensor_round simulate_temperature simulate_pressure filter_readings
  round-HasSampled n h d t e = print_sample-HasSampled (n + 1) d.tick_count _ (record {
    count = omega arith;
    ready = refl;
    same_temperature = refl;
    same_humidity = refl;
    same_pressure = refl;
    drift_in = clamp-Within 2 _;
    trend_in = clamp-Within 10 _;
  })

  rounds-HasSampled :
      (n : ℕ) (h : Host F) (ds : List Draws) (t : Sensor F)
      → HasSampled n t
      → HasSampled (n + length ds) (sensor_rounds h ds t)
  unfolding sensor_rounds
  rounds-HasSampled n h [] t s = rw (let e : n + 0 ≡ n = omega arith in e) s
  rounds-HasSampled n h (d ∷ ds) t s =
      rw (let e : n + suc (length ds) ≡ n + 1 + length ds = omega arith in e)
        (rounds-HasSampled (n + 1) h ds (sensor_round h d t) (round-HasSampled n h d t s.count))

  -- In an arithmetic with the laws of floats: from the start of the sensor task, after n rounds, n
  -- at least 1, whatever the random numbers, the ticks and the sine are: the data are marked ready
  -- and count n samples (mod 2 ^ 32), they are the estimates of the three filters, and the drift
  -- and the trend are not beyond 2 and 10.
  pub rounds-start_HasSampled :
      (h : Host F) (d : Draws) (ds : List Draws)
      → HasSampled (1 + length ds) (sensor_rounds h (d ∷ ds) start)
  unfolding sensor_rounds start
  rounds-start_HasSampled h d ds =
      rounds-HasSampled 1 h ds (sensor_round h d start) (round-HasSampled 0 h d start (omega arith))

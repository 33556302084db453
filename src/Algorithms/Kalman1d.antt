-- ===== src/Algorithms/Kalman1d.antt =====
-- src/algorithms/kalman_filter.c: the functions kalman1d_*. A null pointer is `none`.
pub mod Update
use embed_rtos.Base.{ℕ, Option, none, some}
use embed_rtos.Base.Float.{Float, of_nat, ◌⊕◌, ◌⊖◌, ◌⊗◌, ◌⊘◌}

pub record Kalman1d (F : Type 0) : Type 0 where
  pub q : F
  pub r : F
  pub x : F
  pub p : F
  pub k : F
  pub last_update : F

module _ {F : Type 0} ⦃f : Float F⦄ where
  -- The fields that the initialization sets, which are all.
  unfoldable pub initial : F → F → F → F → Kalman1d F
  initial q r initial_value initial_error = record {
    q = q;
    r = r;
    x = initial_value;
    p = initial_error;
    k = of_nat 0;
    last_update = of_nat 0;
  }

  pub init : Option (Kalman1d F) → F → F → F → F → Option (Kalman1d F)
  init none q r initial_value initial_error = none
  init (some kf) q r initial_value initial_error = some (initial q r initial_value initial_error)

  -- The prediction, then the correction by the measurement.
  unfoldable pub step : Kalman1d F → F → Kalman1d F
  step kf measurement =
      let predicted = kf.p ⊕ kf.q in
      let gain = predicted ⊘ (predicted ⊕ kf.r) in
      record kf {
        k = gain;
        x = kf.x ⊕ gain ⊗ (measurement ⊖ kf.x);
        p = (of_nat 1 ⊖ gain) ⊗ predicted;
      }

  unfoldable pub update : Option (Kalman1d F) → F → F × Option (Kalman1d F)
  update none measurement = (measurement, none)
  update (some kf) measurement = let kf' = step kf measurement in (kf'.x, some kf')

  pub reset : Option (Kalman1d F) → F → Option (Kalman1d F)
  reset none new_value = none
  reset (some kf) new_value = some (record kf { x = new_value; p = of_nat 1 })

  pub predict : Option (Kalman1d F) → F → F
  predict none dt = of_nat 0
  predict (some kf) dt = kf.x

-- ===== src/Algorithms/Kalman2d.antt =====
-- src/algorithms/kalman_filter.c: the functions kalman2d_*, for a position and its velocity. A
-- vector of two is a pair and a matrix a record of its four entries.
pub mod Predict
use embed_rtos.Base.{ℕ, Option, none, some}
use embed_rtos.Base.Float.{Float, of_nat, ◌⊕◌, ◌⊖◌, ◌⊗◌, ◌⊘◌}

pub record Matrix (F : Type 0) : Type 0 where
  pub m00 : F
  pub m01 : F
  pub m10 : F
  pub m11 : F

pub record Vector (F : Type 0) : Type 0 where
  pub v0 : F
  pub v1 : F

-- The fields `x`, `P`, `Q`, `R`, `K`, `F` and `H` of the source.
pub record Kalman2d (F : Type 0) : Type 0 where
  pub state : Vector F
  pub covariance : Matrix F
  pub process_noise : Matrix F
  pub measurement_noise : F
  pub gain : Vector F
  pub transition : Matrix F
  pub measurement : Vector F
  pub last_update : F

module _ {F : Type 0} ⦃f : Float F⦄ where
  pub init : Option (Kalman2d F) → F → F → F → F → F → Option (Kalman2d F)
  init none noise r initial_pos initial_vel dt = none
  init (some kf) noise r initial_pos initial_vel dt =
      let corner = noise ⊗ dt ⊗ dt ⊗ dt ⊘ of_nat 2 in
      some (record kf {
        state = record { v0 = initial_pos; v1 = initial_vel };
        covariance = record { m00 = of_nat 1; m01 = of_nat 0; m10 = of_nat 0; m11 = of_nat 1 };
        process_noise = record {
          m00 = noise ⊗ dt ⊗ dt ⊗ dt ⊗ dt ⊘ of_nat 4;
          m01 = corner;
          m10 = corner;
          m11 = noise ⊗ dt ⊗ dt;
        };
        measurement_noise = r;
        transition = record { m00 = of_nat 1; m01 = dt; m10 = of_nat 0; m11 = of_nat 1 };
        measurement = record { v0 = of_nat 1; v1 = of_nat 0 };
        last_update = of_nat 0;
      })

  -- F * x.
  predict_state : Matrix F → Vector F → Vector F
  predict_state a x = record { v0 = a.m00 ⊗ x.v0 ⊕ a.m01 ⊗ x.v1; v1 = a.m10 ⊗ x.v0 ⊕ a.m11 ⊗ x.v1 }

  -- F * P.
  product : Matrix F → Matrix F → Matrix F
  product a p = record {
    m00 = a.m00 ⊗ p.m00 ⊕ a.m01 ⊗ p.m10;
    m01 = a.m00 ⊗ p.m01 ⊕ a.m01 ⊗ p.m11;
    m10 = a.m10 ⊗ p.m00 ⊕ a.m11 ⊗ p.m10;
    m11 = a.m10 ⊗ p.m01 ⊕ a.m11 ⊗ p.m11;
  }

  -- F * P * F^T + Q.
  predict_covariance : Matrix F → Matrix F → Matrix F → Matrix F
  unfolding product
  predict_covariance a p q =
      let fp = product a p in
      record {
        m00 = fp.m00 ⊗ a.m00 ⊕ fp.m01 ⊗ a.m01 ⊕ q.m00;
        m01 = fp.m00 ⊗ a.m10 ⊕ fp.m01 ⊗ a.m11 ⊕ q.m01;
        m10 = fp.m10 ⊗ a.m00 ⊕ fp.m11 ⊗ a.m01 ⊕ q.m10;
        m11 = fp.m10 ⊗ a.m10 ⊕ fp.m11 ⊗ a.m11 ⊕ q.m11;
      }

  pub predict : Option (Kalman2d F) → F → Option (Kalman2d F)
  unfolding predict_state predict_covariance
  predict none dt = none
  predict (some kf) dt =
      let transition = record kf.transition { m01 = dt } in
      some (record kf {
        transition = transition;
        state = predict_state transition kf.state;
        covariance = predict_covariance transition kf.covariance kf.process_noise;
      })

  -- P * H^T.
  project : Matrix F → Vector F → Vector F
  project p h = record { v0 = p.m00 ⊗ h.v0 ⊕ p.m01 ⊗ h.v1; v1 = p.m10 ⊗ h.v0 ⊕ p.m11 ⊗ h.v1 }

  -- (I - K * H) * P.
  update_covariance : Vector F → Vector F → Matrix F → Matrix F
  update_covariance k h p =
      let kh00 = k.v0 ⊗ h.v0 in
      let kh01 = k.v0 ⊗ h.v1 in
      let kh10 = k.v1 ⊗ h.v0 in
      let kh11 = k.v1 ⊗ h.v1 in
      record {
        m00 = (of_nat 1 ⊖ kh00) ⊗ p.m00 ⊖ kh01 ⊗ p.m10;
        m01 = (of_nat 1 ⊖ kh00) ⊗ p.m01 ⊖ kh01 ⊗ p.m11;
        m10 = f.neg kh10 ⊗ p.m00 ⊕ (of_nat 1 ⊖ kh11) ⊗ p.m10;
        m11 = f.neg kh10 ⊗ p.m01 ⊕ (of_nat 1 ⊖ kh11) ⊗ p.m11;
      }

  pub update : Option (Kalman2d F) → F → Option (Kalman2d F)
  unfolding project update_covariance
  update none measured = none
  update (some kf) measured =
      let h = kf.measurement in
      let y = measured ⊖ (h.v0 ⊗ kf.state.v0 ⊕ h.v1 ⊗ kf.state.v1) in
      let ph = project kf.covariance h in
      let s_inv = of_nat 1 ⊘ (h.v0 ⊗ ph.v0 ⊕ h.v1 ⊗ ph.v1 ⊕ kf.measurement_noise) in
      let k : Vector F = record { v0 = ph.v0 ⊗ s_inv; v1 = ph.v1 ⊗ s_inv } in
      some (record kf {
        gain = k;
        state = record { v0 = kf.state.v0 ⊕ k.v0 ⊗ y; v1 = kf.state.v1 ⊕ k.v1 ⊗ y };
        covariance = update_covariance k h kf.covariance;
      })

  pub get_position : Option (Kalman2d F) → F
  get_position none = of_nat 0
  get_position (some kf) = kf.state.v0

  pub get_velocity : Option (Kalman2d F) → F
  get_velocity none = of_nat 0
  get_velocity (some kf) = kf.state.v1

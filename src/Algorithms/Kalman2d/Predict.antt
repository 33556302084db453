-- ===== src/Algorithms/Kalman2d/Predict.antt =====
-- The two-dimensional filter of src/algorithms/kalman_filter.c against the equations of a model of
-- constant velocity of which the position is measured.
use embed_rtos.Base.{◌≡◌, refl, Option, some}
use embed_rtos.Base.Float.{Float, Laws, of_nat, ◌⊕◌, ◌⊖◌, ◌⊗◌, ◌⊘◌, IsFinite}
use embed_rtos.Algorithms.Kalman2d.{Kalman2d, Matrix, Vector, init, project}

module _ {F : Type 0} ⦃f : Float F⦄ where
  -- The matrices that kalman2d_init chooses, with some time step in the transition.
  pub record IsConstantVelocity (kf : Kalman2d F) : Type 0 where
    pub transition_at :
        (dt : F) × (kf.transition
          ≡ record { m00 = of_nat 1; m01 = dt; m10 = of_nat 0; m11 = of_nat 1 })
    pub measurement_at : kf.measurement ≡ record { v0 = of_nat 1; v1 = of_nat 0 }
    pub noise_symmetric : kf.process_noise.m01 ≡ kf.process_noise.m10

  abbrev pub IsSymmetric : Matrix F → Type 0
  IsSymmetric p = p.m01 ≡ p.m10

  -- The state and the covariance do not overflow, nor does their sum over a step `dt`.
  pub record HasFinite (kf : Kalman2d F) (dt : F) : Type 0 where
    pub position : IsFinite kf.state.v0
    pub velocity : IsFinite kf.state.v1
    pub p00 : IsFinite kf.covariance.m00
    pub p01 : IsFinite kf.covariance.m01
    pub p10 : IsFinite kf.covariance.m10
    pub p11 : IsFinite kf.covariance.m11
    pub sum : IsFinite (kf.covariance.m00 ⊕ dt ⊗ kf.covariance.m10)

  -- The filter after a step `dt` of constant velocity.
  pub record Predicts (kf : Kalman2d F) (dt : F) (result : Option (Kalman2d F)) : Type 0 where
    pub after : Kalman2d F
    pub returns : result ≡ some after
    pub position : after.state.v0 ≡ kf.state.v0 ⊕ dt ⊗ kf.state.v1
    pub velocity : after.state.v1 ≡ kf.state.v1
    pub symmetric : IsSymmetric after.covariance
    pub velocity_error : after.covariance.m11 ≡ kf.covariance.m11 ⊕ kf.process_noise.m11
    pub model : IsConstantVelocity after

  -- The gain for a position measured with the error `r`.
  abbrev pub position_gain : Kalman2d F → F → F
  position_gain kf p = p ⊗ (of_nat 1 ⊘ (kf.covariance.m00 ⊕ kf.measurement_noise))

  -- The gain of a filter, with its own measurement matrix.
  abbrev update_gain : Kalman2d F → Vector F
  update_gain kf =
      let h = kf.measurement in
      let ph = project kf.covariance h in
      let s_inv = of_nat 1 ⊘ (h.v0 ⊗ ph.v0 ⊕ h.v1 ⊗ ph.v1 ⊕ kf.measurement_noise) in
      record { v0 = ph.v0 ⊗ s_inv; v1 = ph.v1 ⊗ s_inv }

  -- The gains do not overflow.
  pub record HasFiniteGain (kf : Kalman2d F) : Type 0 where
    pub gain0 : IsFinite (position_gain kf kf.covariance.m00)
    pub gain1 : IsFinite (position_gain kf kf.covariance.m10)

  -- The gain, the state and the covariance (I - K * H) * P of the correction.
  pub record Corrects (kf : Kalman2d F) (z : F) (result : Option (Kalman2d F)) : Type 0 where
    pub after : Kalman2d F
    pub returns : result ≡ some after
    pub position :
        after.state.v0 ≡ kf.state.v0 ⊕ position_gain kf kf.covariance.m00 ⊗ (z ⊖ kf.state.v0)
    pub velocity :
        after.state.v1 ≡ kf.state.v1 ⊕ position_gain kf kf.covariance.m10 ⊗ (z ⊖ kf.state.v0)
    pub gain : after.gain ≡ record {
      v0 = position_gain kf kf.covariance.m00;
      v1 = position_gain kf kf.covariance.m10;
    }
    pub covariance : after.covariance ≡ record {
      m00 = (of_nat 1 ⊖ position_gain kf kf.covariance.m00) ⊗ kf.covariance.m00;
      m01 = (of_nat 1 ⊖ position_gain kf kf.covariance.m00) ⊗ kf.covariance.m01;
      m10 = f.neg (position_gain kf kf.covariance.m10) ⊗ kf.covariance.m00 ⊕ kf.covariance.m10;
      m11 = f.neg (position_gain kf kf.covariance.m10) ⊗ kf.covariance.m01 ⊕ kf.covariance.m11;
    }
    pub model : IsConstantVelocity after

  -- The matrices of kalman2d_init.
  pub init-IsConstantVelocity :
      (kf : Kalman2d F) (noise r pos vel dt : F)
      → (after : Kalman2d F) × (init (some kf) noise r pos vel dt ≡ some after)
        × IsConstantVelocity after
        × IsSymmetric after.covariance
  unfolding init
  init-IsConstantVelocity kf noise r pos vel dt = (
    _,
    refl,
    record { transition_at = (dt, refl); measurement_at = refl; noise_symmetric = refl },
    refl,
  )

module _ {F : Type 0} ⦃f : Float F⦄ (l : Laws F) where
  constant : F → Matrix F
  constant dt = record { m00 = of_nat 1; m01 = dt; m10 = of_nat 0; m11 = of_nat 1 }

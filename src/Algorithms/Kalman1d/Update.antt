-- ===== src/Algorithms/Kalman1d/Update.antt =====
-- An update of the one-dimensional filter of src/algorithms/kalman_filter.c.
use embed_rtos.Base.{◌≡◌, Option, some, ◌⊎◌}
use embed_rtos.Base.Float.{Float, of_nat, ◌⊕◌, ◌⊖◌, ◌≤ᶠ◌, ◌<ᶠ◌, IsFinite}
use embed_rtos.Algorithms.Kalman1d.{Kalman1d}

module _ {F : Type 0} ⦃f : Float F⦄ where
  -- The variances of a filter that is set up as it should be.
  pub record IsSound (kf : Kalman1d F) : Type 0 where
    pub p_nonneg : of_nat 0 ≤ᶠ kf.p
    pub q_nonneg : of_nat 0 ≤ᶠ kf.q
    pub r_pos : of_nat 0 <ᶠ kf.r

  -- The numbers that an update computes with do not overflow.
  pub record InRange (kf : Kalman1d F) (m : F) : Type 0 where
    pub sum_finite : IsFinite (kf.p ⊕ kf.q ⊕ kf.r)
    pub estimate_finite : IsFinite kf.x
    pub difference_finite : IsFinite (m ⊖ kf.x)

  -- `x` lies between `a` and `b`.
  abbrev pub Between : F → F → F → Type 0
  Between a b x = ((a ≤ᶠ x) × (x ≤ᶠ b)) ⊎ ((b ≤ᶠ x) × (x ≤ᶠ a))

  pub record Updates (kf : Kalman1d F) (m : F) (result : F × Option (Kalman1d F)) : Type 0 where
    pub after : Kalman1d F
    pub returns : result ≡ (after.x, some after)
    pub sound : IsSound after
    pub gain_nonneg : of_nat 0 ≤ᶠ after.k
    pub gain_le : after.k ≤ᶠ of_nat 1
    pub error_le : after.p ≤ᶠ kf.p ⊕ kf.q
    pub moves : Between kf.x (kf.x ⊕ (m ⊖ kf.x)) after.x
    pub same_q : after.q ≡ kf.q
    pub same_r : after.r ≡ kf.r

-- ===== src/Algorithms/Kalman3d/Fill.antt =====
-- The matrices that kalman3d_init_simple of src/algorithms/kalman_filter.c leaves.
use embed_rtos.Base.{
  ℕ, ◌+◌, ◌==◌, ◌||◌, ◌≡◌, refl, some, List, [], ◌∷◌, if◌then◌else◌, replicate, ltb, arith,
}
use embed_rtos.Base.Float.{Float, of_nat, ◌⊗◌, ◌⊘◌}
use embed_rtos.Algorithms.Kalman3d.{fill, fill_row, set_axis, set_axes, init_simple}

-- An array of the source, with any values.
abbrev row3 : {A : Type 0} → (ℕ → A) → List A
row3 v = v 0 ∷ v 1 ∷ v 2 ∷ []

abbrev row6 : {A : Type 0} → (ℕ → A) → List A
row6 v = v 0 ∷ v 1 ∷ v 2 ∷ v 3 ∷ v 4 ∷ v 5 ∷ []

fill3 :
    {A : Type 0} (value old : ℕ → ℕ → A)
    → fill value 0 3 3 (row3 (λ i. row3 (old i))) ≡ some (row3 (λ i. row3 (value i)))
unfolding fill fill_row
fill3 value old = refl

fill6 :
    {A : Type 0} (value old : ℕ → ℕ → A)
    → fill value 0 6 6 (row6 (λ i. row6 (old i))) ≡ some (row6 (λ i. row6 (value i)))
unfolding fill fill_row
fill6 value old = refl

module _ {F : Type 0} ⦃f : Float F⦄ where
  -- The noise of the model of constant velocity: axis `i` and its velocity, at `i + 3`.
  abbrev pub noise_at : F → F → F → ℕ → ℕ → F
  noise_at pos_noise vel_noise dt i j =
      if i == j
      then (if ltb i 3 then pos_noise ⊗ dt ⊗ dt ⊗ dt ⊗ dt ⊘ of_nat 4 else vel_noise ⊗ dt ⊗ dt)
      else if (i == j + 3) || (j == i + 3)
      then pos_noise ⊗ dt ⊗ dt ⊗ dt ⊘ of_nat 2
      else of_nat 0

  -- kalman3d_init_simple stays within its arrays, whatever they hold: it clears the state, makes the
  -- covariance the identity and the noise of the measurement a multiple of it, and writes the noise
  -- of each axis, of its velocity and of the two together into the noise of the process.
  pub init_simple-matrices :
      (state : List F) (p q r : ℕ → ℕ → F) (pos_noise vel_noise noise dt : F)
      → init_simple
          (some (record {
            state = state;
            covariance = row6 (λ i. row6 (p i));
            process_noise = row6 (λ i. row6 (q i));
            measurement_noise = row3 (λ i. row3 (r i));
          }))
          pos_noise
          vel_noise
          noise
          dt
        ≡ some (
            some (record {
              state = replicate 6 (of_nat 0);
              covariance = row6 (λ i. row6 (λ j. if i == j then of_nat 1 else of_nat 0));
              process_noise = row6 (λ i. row6 (noise_at pos_noise vel_noise dt i));
              measurement_noise = row3 (λ i. row3 (λ j. if i == j then noise else of_nat 0));
            }))
  unfolding init_simple fill fill_row set_axis set_axes
  init_simple-matrices state p q r pos_noise vel_noise noise dt = refl

  noise_at_comm :
      (pos_noise vel_noise dt : F) (i j : ℕ)
      → noise_at pos_noise vel_noise dt i j ≡ noise_at pos_noise vel_noise dt j i
  noise_at_comm pos_noise vel_noise dt i j = ground arith

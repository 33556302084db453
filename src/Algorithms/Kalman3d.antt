-- ===== src/Algorithms/Kalman3d.antt =====
-- src/algorithms/kalman_filter.c: kalman3d_init_simple, the only function for three dimensions that
-- the source defines. A matrix is the list of its rows; `none` is an access out of bounds.
pub mod Fill
use embed_rtos.Base.{
  ℕ, zero, suc, ◌+◌, ◌==◌, Option, none, some, List, ◌>>=◌, if◌then◌else◌, get_elem?, set,
  replicate, ltb, length,
}
use embed_rtos.Base.Float.{Float, of_nat, ◌⊗◌, ◌⊘◌}

-- The fields that are written: `x`, `P`, `Q` and `R`. The function leaves `K`, `F`, `H` and
-- `last_update` as they were.
pub record Kalman3d (F : Type 0) : Type 0 where
  pub state : List F
  pub covariance : List (List F)
  pub process_noise : List (List F)
  pub measurement_noise : List (List F)

abbrev pub store : {A : Type 0} → List A → ℕ → A → Option (List A)
store xs i v = if ltb i (length xs) then some (set xs i v) else none

-- `m[i][j] = v`.
abbrev pub set_entry : {A : Type 0} → List (List A) → ℕ → ℕ → A → Option (List (List A))
set_entry m i j v = get_elem? m i >>= λ row. store row j v >>= λ row'. store m i row'

-- The loop over the columns from `j` on, and that over the rows.
pub fill_row : {A : Type 0} → (ℕ → ℕ → A) → ℕ → ℕ → ℕ → List (List A) → Option (List (List A))
fill_row value i j zero m = some m
fill_row value i j (suc n) m = set_entry m i j (value i j) >>= fill_row value i (j + 1) n

pub fill : {A : Type 0} → (ℕ → ℕ → A) → ℕ → ℕ → ℕ → List (List A) → Option (List (List A))
unfolding fill_row
fill value i zero columns m = some m
fill value i (suc n) columns m = fill_row value i 0 columns m >>= fill value (i + 1) n columns

module _ {F : Type 0} ⦃f : Float F⦄ where
  -- The noise of axis `i` and its velocity.
  pub set_axis : F → F → F → ℕ → List (List F) → Option (List (List F))
  set_axis pos_noise vel_noise dt i q =
      let corner = pos_noise ⊗ dt ⊗ dt ⊗ dt ⊘ of_nat 2 in
      set_entry q i i (pos_noise ⊗ dt ⊗ dt ⊗ dt ⊗ dt ⊘ of_nat 4) >>= λ q1.
      set_entry q1 (i + 3) (i + 3) (vel_noise ⊗ dt ⊗ dt) >>= λ q2.
      set_entry q2 (i + 3) i corner >>= λ q3. set_entry q3 i (i + 3) corner

  pub set_axes : F → F → F → ℕ → ℕ → List (List F) → Option (List (List F))
  unfolding set_axis
  set_axes pos_noise vel_noise dt i zero q = some q
  set_axes pos_noise vel_noise dt i (suc n) q =
      set_axis pos_noise vel_noise dt i q >>= set_axes pos_noise vel_noise dt (i + 1) n

  pub init_simple : Option (Kalman3d F) → F → F → F → F → Option (Option (Kalman3d F))
  unfolding fill set_axes
  init_simple none pos_noise vel_noise noise dt = some none
  init_simple (some kf) pos_noise vel_noise noise dt =
      fill (λ i j. if i == j then of_nat 1 else of_nat 0) 0 6 6 kf.covariance >>= λ covariance.
      fill (λ i j. of_nat 0) 0 6 6 kf.process_noise >>= λ q0.
      set_axes pos_noise vel_noise dt 0 3 q0 >>= λ process_noise.
      fill (λ i j. if i == j then noise else of_nat 0) 0 3 3 kf.measurement_noise >>= λ r. some (
        some (record {
          state = replicate 6 (of_nat 0);
          covariance = covariance;
          process_noise = process_noise;
          measurement_noise = r;
        }))

-- ===== src/Algorithms/Filters.antt =====
-- src/algorithms/kalman_filter.c: the helpers for filtering. The static variables of a function are
-- a state that it takes and returns; `none` is an access out of bounds.
pub mod Windowed
use embed_rtos.Base.{
  ℕ, ◌+◌, ◌%◌, Bool, Option, none, some, List, [], ◌∷◌, ◌>>=◌, if◌then◌else◌, ltb, leb, ◌==◌,
  length, get_elem?, set, add32,
}
use embed_rtos.Base.Float.{Float, of_nat, ◌⊕◌, ◌⊖◌, ◌⊗◌, ◌⊘◌}

-- The static variables of moving_average.
pub record Average (F : Type 0) : Type 0 where
  pub index : ℕ
  pub count : ℕ
  pub sum : F

module _ {F : Type 0} ⦃f : Float F⦄ where
  -- The result is the new angle, which is also kept.
  pub complementary_filter : F → F → F → F → F → F
  complementary_filter angle accel gyro dt alpha =
      let gyro_angle = angle ⊕ gyro ⊗ dt in alpha ⊗ gyro_angle ⊕ (of_nat 1 ⊖ alpha) ⊗ accel

  pub fresh : Average F
  fresh = record { index = 0; count = 0; sum = of_nat 0 }

  -- `sum -= buffer[index]`, where the window is full.
  without_oldest : Average F → List F → ℕ → Option F
  without_oldest a buffer size =
      if leb size a.count
      then (get_elem? buffer a.index >>= λ oldest. some (a.sum ⊖ oldest))
      else some a.sum

  store : List F → ℕ → F → Option (List F)
  store buffer index value =
      if ltb index (length buffer) then some (set buffer index value) else none

  pub moving_average : Average F → List F → ℕ → F → Option (F × Average F × List F)
  unfolding without_oldest store
  moving_average a buffer size new_value =
      if size == 0
      then some (new_value, a, buffer)
      else without_oldest a buffer size >>= λ kept. store buffer a.index new_value >>= λ buffer'.
          let count = if ltb a.count size then add32 a.count 1 else a.count in
          let sum = kept ⊕ new_value in
          some (
            sum ⊘ of_nat count,
            record { index = add32 a.index 1 % size; count = count; sum = sum },
            buffer',
          )

  pub low_pass_filter : F → F → F → F
  low_pass_filter input prev_output alpha = alpha ⊗ input ⊕ (of_nat 1 ⊖ alpha) ⊗ prev_output

  pub high_pass_filter : F → F → F → F → F
  high_pass_filter input prev_input prev_output alpha = alpha ⊗ (prev_output ⊕ input ⊖ prev_input)

  -- Calls of moving_average with one buffer, and what they return.
  pub averages : Average F → List F → ℕ → List F → Option (List F)
  averages a buffer size [] = some []
  averages a buffer size (v ∷ vs) =
      moving_average a buffer size v >>= λ r. averages r.1 r.2 size vs >>= λ rest. some (r.0 ∷ rest)

-- ===== src/Algorithms/Examples.antt =====
-- The filters of src/algorithms/kalman_filter.c at work, on numbers of thousandths.
use embed_rtos.Base.{◌≡◌, refl, some, [], ◌∷◌, arith}
use embed_rtos.Base.Int.{ℤ, pos, negsuc}
use embed_rtos.Base.Float.Fixed.{fixed}
use embed_rtos.Algorithms.Kalman1d
use embed_rtos.Algorithms.Kalman1d.{Kalman1d}
use embed_rtos.Algorithms.Kalman2d
use embed_rtos.Algorithms.Kalman2d.{Kalman2d}
use embed_rtos.Algorithms.Filters.{fresh, averages}
use embed_rtos.Algorithms.Filters.Windowed.{window_averages, averages_refine}

-- A filter at 25 degrees, as the sensor task sets it up.
abbrev warm : Kalman1d ℤ
warm = record {
  q = pos 1;
  r = pos 100;
  x = pos 25000;
  p = pos 1000;
  k = pos 0;
  last_update = pos 0;
}

warm-updated : (Kalman1d.update (some warm) (pos 26000)).0 ≡ pos 25909
unfolding Kalman1d.update Kalman1d.step
warm-updated = refl

-- At position 10 with velocity -2, a step of half a second.
abbrev moving : Kalman2d ℤ
moving = record {
  state = record { v0 = pos 10000; v1 = negsuc 1999 };
  covariance = record { m00 = pos 1000; m01 = pos 0; m10 = pos 0; m11 = pos 1000 };
  process_noise = record { m00 = pos 1; m01 = pos 2; m10 = pos 2; m11 = pos 4 };
  measurement_noise = pos 500;
  gain = record { v0 = pos 0; v1 = pos 0 };
  transition = record { m00 = pos 1000; m01 = pos 100; m10 = pos 0; m11 = pos 1000 };
  measurement = record { v0 = pos 1000; v1 = pos 0 };
  last_update = pos 0;
}

averages_refine_example :
    averages fresh (pos 0 ∷ pos 0 ∷ []) 2 (pos 1000 ∷ pos 3000 ∷ pos 8000 ∷ [])
    ≡ some (window_averages 2 [] (pos 0) (pos 1000 ∷ pos 3000 ∷ pos 8000 ∷ []))
averages_refine_example =
    averages_refine (pos 0 ∷ pos 0 ∷ []) 2 (pos 1000 ∷ pos 3000 ∷ pos 8000 ∷ []) (omega arith)
      (omega arith) (omega arith)

windowed-values :
    window_averages 2 [] (pos 0) (pos 1000 ∷ pos 3000 ∷ pos 8000 ∷ [])
    ≡ pos 1000 ∷ pos 2000 ∷ pos 5500 ∷ []
unfolding window_averages
windowed-values = refl

-- ===== src/Hal/Bus/Examples.antt =====
-- A transfer of three bytes and its way back.
use embed_rtos.Base.{◌≡◌, refl, true, some, List, [], ◌∷◌, ℕ, arith, slice}
use embed_rtos.Hal.Bus.{Spi, spi_transfer}
use embed_rtos.Hal.Bus.Echo.{transfer-transfer}

abbrev spi : Spi
spi = record { cr1 = 0; cr2 = 0; sr = 2; dr = 0; initialized = true }

transfer-transfer_example :
    (back : List ℕ) × (spi_transfer (some spi) (some (7 ∷ 8 ∷ 9 ∷ [])) (some (0 ∷ 0 ∷ 0 ∷ 5 ∷ [])) 3
      ≡ some (some back))
    × (spi_transfer (some spi) (some back) (some (1 ∷ 1 ∷ 1 ∷ [])) 3 ≡ some (some (7 ∷ 8 ∷ 9 ∷ [])))
    × (slice back 0 3 1 ≡ (5 ∷ []))
transfer-transfer_example =
    transfer-transfer spi (7 ∷ 8 ∷ 9 ∷ []) (0 ∷ 0 ∷ 0 ∷ 5 ∷ []) (1 ∷ 1 ∷ 1 ∷ []) 3 refl
      (omega arith) (omega arith) (omega arith)

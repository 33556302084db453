-- ===== src/Hal/Dma/Examples.antt =====
-- A controller just switched on.
use embed_rtos.Base.{◌≡◌, refl, true, false, some, replicate, get_or, arith}
use embed_rtos.Hal.Dma.{Dma, start, stop, is_busy}
use embed_rtos.Hal.Dma.Channels.{IsOn, start_stop}

abbrev fresh : Dma
fresh = record {
  isr = 0;
  ccr = replicate 8 0;
  cndtr = replicate 8 0;
  cpar = replicate 8 0;
  cmar = replicate 8 0;
  initialized = true;
}

fresh-IsOn : IsOn fresh
fresh-IsOn = record { on = refl; channels = refl; counts = refl }

start_stop_example :
    (dma' : Dma) × (start (some fresh) 3 ≡ some dma')
    × (get_or dma'.cndtr 3 1 ≡ 0)
    × (is_busy (some dma') 3 ≡ true)
    × (is_busy (stop (some dma') 3) 3 ≡ false)
    × (is_busy (some dma') 5 ≡ is_busy (some fresh) 5)
    × (is_busy (stop (some dma') 3) 5 ≡ is_busy (some fresh) 5)
start_stop_example = start_stop 3 5 fresh-IsOn (omega arith) (omega arith) (omega arith)

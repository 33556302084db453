-- ===== src/App/Monitor/Memory.antt =====
-- The memory that the monitor task of src/app/monitor_task.c reports.
use embed_rtos.Base.{◌≤◌, ◌≡◌, Bool, true, false, List, [], ◌∷◌}
use embed_rtos.Base.Int.{ℤ, pos_part, neg_part}
use embed_rtos.Base.Float.{Float}
use embed_rtos.App.Monitor.{Monitor, Entry, high_memory_usage}

abbrev pub InBounds : ℤ → Type 0
InBounds v = (pos_part v ≤ 51200) × (neg_part v ≤ 51200)

pub warns_of_memory : List Entry → Bool
warns_of_memory [] = false
warns_of_memory (high_memory_usage ∷ es) = true
warns_of_memory (_ ∷ es) = warns_of_memory es

module _ {F : Type 0} where
  -- The memory that the task reports is within bounds, and no warning is about memory.
  pub record Reports (m : Monitor F) : Type 0 where
    pub used_low : 10240 ≤ m.status.memory_used
    pub used_high : m.status.memory_used ≤ 102400
    pub total : m.status.memory_total ≡ 262144
    pub same_used : m.used_memory ≡ m.status.memory_used
    pub variation_in : InBounds m.variation
    pub no_warning : warns_of_memory m.log ≡ false

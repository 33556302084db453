-- ===== src/Simulator/Display/Examples.antt =====
-- The dashboard after three ticks, in the arithmetic of thousandths.
use embed_rtos.Base.{ℕ, true, none, List, [], ◌∷◌}
use embed_rtos.Kernel.Scheduler.{Scheduler}
use embed_rtos.Kernel.Scheduler.Accounts.{Event, ticked, added}

abbrev no_effect : ℕ → ℕ → Scheduler → Scheduler
no_effect f a s = s

abbrev events : List Event
events = ticked ∷ added true 2 0 1 10 none ∷ ticked ∷ ticked ∷ []

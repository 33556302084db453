-- ===== src/Kernel/Scheduler/Examples.antt =====
-- A table of three tasks, of which the second has the highest priority, and task functions that do
-- nothing.
use embed_rtos.Base.{ℕ, refl, none, true, List, [], ◌∷◌, arith}
use embed_rtos.Kernel.Scheduler.{Task, Scheduler, ready, init, find_highest_priority_task}
use embed_rtos.Kernel.Scheduler.Pick.{Finds, IsHighest, find_highest_priority_task-Finds}
use embed_rtos.Kernel.Scheduler.Starve.{OnlyRan, ticks, starvation}
use embed_rtos.Kernel.Scheduler.Accounts.{Event, ticked, added, IsSound, after, reachable-IsSound}
use embed_rtos.Base.Float.Fixed.{fixed}

abbrev task : ℕ → ℕ → Task
task priority period = record {
  task_func = 0;
  arg = 0;
  priority = priority;
  period_ms = period;
  deadline_ms = period;
  last_run = 0;
  state = ready;
  name = [];
  run_count = 0;
  missed_deadlines = 0;
}

abbrev table : List Task
table = task 2 20 ∷ task 1 10 ∷ task 3 100 ∷ []

abbrev at_rest : Scheduler
at_rest = record {
  tasks = table;
  tick_count = 0;
  idle_time = 0;
  is_running = true;
  sys_time_ms = 0;
}

abbrev no_effect : ℕ → ℕ → Scheduler → Scheduler
no_effect f a s = s

second-IsHighest : IsHighest table 1 (task 1 10)
unfolding find_highest_priority_task
second-IsHighest = find_highest_priority_task-Finds table

find_highest_priority_task-Finds_example : Finds table (find_highest_priority_task table)
find_highest_priority_task-Finds_example = find_highest_priority_task-Finds table

starvation_example : OnlyRan 7 1 (task 1 10) at_rest (ticks no_effect 7 at_rest)
starvation_example =
    starvation no_effect (λ f a s. refl) 7 at_rest (refl, (refl, (refl, _))) second-IsHighest
      (omega arith)

abbrev events : List Event
events = added true 1 0 2 20 none ∷ ticked ∷ added true 2 0 1 10 none ∷ ticked ∷ ticked ∷ []

reachable-IsSound_example : IsSound (after no_effect events init)
reachable-IsSound_example = reachable-IsSound no_effect (λ f a s. refl) events

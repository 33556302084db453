-- ===== src/Kernel/Scheduler/Accounts.antt =====
-- What every tick and every added task keeps.
use embed_rtos.Base.{
  ℕ, ◌+◌, ◌≤◌, ◌≡◌, refl, ap, Bool, Option, none, some, List, [], ◌∷◌, map, arith, length, u32,
  add32, length-set, length-append,
}
use embed_rtos.Kernel.Scheduler.{
  Task, Scheduler, init, release, run_next, tick, add_task, new_task, find_highest_priority_task,
}
use embed_rtos.Kernel.Scheduler.Pick.{Finds, find_highest_priority_task-Finds}
use embed_rtos.Kernel.Scheduler.Ticks.{
  AllReady, total_runs, ran, map-release, total_runs-set, AllReady-set, AllReady-append,
  dispatch_quiet, total_runs-append,
}

pub data Event : Type 0 where
  ticked : Event
  added : Bool → ℕ → ℕ → ℕ → ℕ → Option (List ℕ) → Event

-- Every tick has run one task or been idle; the table is not overrun; between calls every task is
-- ready.
pub record IsSound (s : Scheduler) : Type 0 where
  pub counted : u32 (total_runs s.tasks + s.idle_time) ≡ s.tick_count
  pub room : length s.tasks ≤ 8
  pub all_ready : AllReady s.tasks
  pub clock : s.sys_time_ms ≡ s.tick_count

init-IsSound : IsSound init
unfolding init
init-IsSound = ground arith

add_task-IsSound :
    (b : Bool) (f a p d : ℕ) (n : Option (List ℕ)) (s : Scheduler)
    → IsSound s
    → IsSound (add_task b f a p d n s).1
unfolding add_task
add_task-IsSound b f a p d n s v = ground (
  arith,
  v,
  total_runs-append s.tasks (new_task f a p d n (length s.tasks)),
  length-append s.tasks (new_task f a p d n (length s.tasks) ∷ []),
  AllReady-append s.tasks (new_task f a p d n (length s.tasks)) refl,
)

module _ (run_func : ℕ → ℕ → Scheduler → Scheduler) where
  unfoldable pub after : List Event → Scheduler → Scheduler
  after [] s = s
  after (ticked ∷ es) s = after es (tick run_func s)
  after (added b f a p d n ∷ es) s = after es (add_task b f a p d n s).1

module _ (run_func : ℕ → ℕ → Scheduler → Scheduler)
    (quiet : (f a : ℕ) (s : Scheduler) → run_func f a s ≡ s) where
  run_next-IsSound :
      (next : Option (ℕ × Task)) (s : Scheduler)
      → Finds s.tasks next
      → u32 (total_runs s.tasks + s.idle_time + 1) ≡ s.tick_count
      → length s.tasks ≤ 8
      → AllReady s.tasks
      → s.sys_time_ms ≡ s.tick_count
      → IsSound (run_next run_func next s)
  unfolding run_next
  run_next-IsSound none s f c r a k = ground arith
  run_next-IsSound (some (i, t)) s f c r a k =
      rw (f.is_ready, dispatch_quiet run_func quiet i t s (omega arith) f.at)
        (record {
          counted = omega (arith, total_runs-set s.tasks i (ran s.sys_time_ms t) f.at);
          room = omega (arith, length-set s.tasks i (ran s.sys_time_ms t));
          all_ready = AllReady-set s.tasks i (ran s.sys_time_ms t) refl a;
          clock = k;
        })

  tick-IsSound : (s : Scheduler) → IsSound s → IsSound (tick run_func s)
  unfolding tick
  tick-IsSound s v =
      let now : ℕ = add32 s.sys_time_ms 1 in
      let ts : List Task = map (release now) s.tasks in
      let same : ts ≡ s.tasks = map-release now s.tasks v.all_ready in
      run_next-IsSound (find_highest_priority_task ts)
        (record s { tick_count = add32 s.tick_count 1; sys_time_ms = now; tasks = ts })
        (find_highest_priority_task-Finds ts) (omega (arith, v, ap total_runs same))
        (omega (arith, v, ap length same)) (rw same v.all_ready) (omega (arith, v))

  after-IsSound : (es : List Event) (s : Scheduler) → IsSound s → IsSound (after run_func es s)
  unfolding after
  after-IsSound [] s v = v
  after-IsSound (ticked ∷ es) s v = after-IsSound es (tick run_func s) (tick-IsSound s v)
  after-IsSound (added b f a p d n ∷ es) s v =
      after-IsSound es (add_task b f a p d n s).1 (add_task-IsSound b f a p d n s v)

  -- From `scheduler_init`, after any ticks and added tasks, with task functions that leave the
  -- scheduler alone: the run counts and the idle time add up to the tick count (mod 2 ^ 32), which
  -- is also the clock; there are at most eight tasks; and every task is ready.
  pub reachable-IsSound : (es : List Event) → IsSound (after run_func es init)
  reachable-IsSound es = after-IsSound es init init-IsSound

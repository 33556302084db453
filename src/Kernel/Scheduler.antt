-- ===== src/Kernel/Scheduler.antt =====
-- src/kernel/scheduler.c and scheduler.h. The scheduler, with `sys_time_ms`, is a record that each
-- function takes and returns; a `task_t*` is the task's index. The calls of C functions through
-- `task_func` are a parameter `run_func`: the function pointer, its argument and the scheduler give
-- the scheduler that the call leaves.
pub mod Pick
pub mod Ticks
pub mod Accounts
pub mod Starve
pub mod Usage
pub mod Delay
mod Examples
use embed_rtos.Base.{
  ℕ, zero, suc, ◌+◌, ◌-◌, ◌%◌, Bool, true, false, not, ◌&&◌, Option, none, some, List, [], ◌∷◌,
  ◌++◌, map, length, take, set, get_or, ltb, leb, if◌then◌else◌, add32, sub32,
}

pub data TaskState : Type 0 where
  ready running blocked suspended : TaskState

-- Function pointers and arguments are addresses; a name is its bytes up to the NUL.
pub record Task : Type 0 where
  pub task_func : ℕ
  pub arg : ℕ
  pub priority : ℕ
  pub period_ms : ℕ
  pub deadline_ms : ℕ
  pub last_run : ℕ
  pub state : TaskState
  pub name : List ℕ
  pub run_count : ℕ
  pub missed_deadlines : ℕ

-- `tasks` are the first `task_count` pointers of the array.
pub record Scheduler : Type 0 where
  pub tasks : List Task
  pub tick_count : ℕ
  pub idle_time : ℕ
  pub is_running : Bool
  pub sys_time_ms : ℕ

abbrev pub max_tasks : ℕ
max_tasks = 8

abbrev pub task_name_len : ℕ
task_name_len = 20

abbrev pub task_count : Scheduler → ℕ
task_count s = length s.tasks

unfoldable pub init : Scheduler
init = record { tasks = []; tick_count = 0; idle_time = 0; is_running = false; sys_time_ms = 0 }

abbrev pub is_ready : TaskState → Bool
is_ready ready = true
is_ready _ = false

-- `highest == NULL || task->priority < highest->priority`
better : Task → ℕ → Option (ℕ × Task) → Option (ℕ × Task)
better t i none = some (i, t)
better t i (some (j, h)) = if ltb t.priority h.priority then some (i, t) else some (j, h)

-- The loop from index `i` on, over the tasks that are left.
find_from : List Task → ℕ → Option (ℕ × Task) → Option (ℕ × Task)
unfolding better
find_from [] i highest = highest
find_from (t ∷ ts) i highest =
    find_from ts (i + 1) (if is_ready t.state then better t i highest else highest)

unfoldable pub find_highest_priority_task : List Task → Option (ℕ × Task)
unfolding find_from
find_highest_priority_task tasks = find_from tasks 0 none

-- A periodic task whose period has passed since its last run is made ready.
pub release : ℕ → Task → Task
release now t =
    if ltb 0 t.period_ms
    then (if leb t.period_ms (sub32 now t.last_run) then record t { state = ready } else t)
    else t

-- The deadline check after the task's function has returned, at time `now`.
finish : ℕ → Task → Task
finish now t =
    let exec_time = sub32 now t.last_run in
    record t {
      missed_deadlines =
          if ltb t.deadline_ms exec_time && ltb 0 t.deadline_ms
          then add32 t.missed_deadlines 1
          else t.missed_deadlines;
      state = ready;
    }

-- What a tick does before it looks for a task.
unfoldable pub advance : Scheduler → Scheduler
unfolding release
advance s =
    let now = add32 s.sys_time_ms 1 in
    record s {
      tick_count = add32 s.tick_count 1;
      sys_time_ms = now;
      tasks = map (release now) s.tasks;
    }

-- The record of a task whose function is about to be called.
abbrev pub started_task : Task → Scheduler → Task
started_task t s = record t {
  state = running;
  last_run = s.sys_time_ms;
  run_count = add32 t.run_count 1;
}

-- The scheduler that the function of task `i`, which was found as `t`, is called with.
abbrev pub begin_task : ℕ → Task → Scheduler → Scheduler
begin_task i t s = record s { tasks = set s.tasks i (started_task t s) }

module _ (run_func : ℕ → ℕ → Scheduler → Scheduler) where
  -- Task `i`, which was found as `t`, runs. Its record is read again after the call.
  pub dispatch : ℕ → Task → Scheduler → Scheduler
  unfolding finish
  dispatch i t s =
      let s' = run_func t.task_func t.arg (begin_task i t s) in
      record s' {
        tasks = set s'.tasks i (finish s'.sys_time_ms (get_or s'.tasks i (started_task t s)));
      }

  pub run_next : Option (ℕ × Task) → Scheduler → Scheduler
  unfolding dispatch
  run_next none s = record s { idle_time = add32 s.idle_time 1 }
  run_next (some (i, t)) s =
      if is_ready t.state then dispatch i t s else record s { idle_time = add32 s.idle_time 1 }

  pub tick : Scheduler → Scheduler
  unfolding run_next advance find_highest_priority_task
  tick s = let s' = advance s in run_next (find_highest_priority_task s'.tasks) s'

  pub yield : Scheduler → Scheduler
  unfolding tick
  yield s = tick s

  -- `scheduler_start` sets the flag and ticks while it is set; the fuel is the number of rounds
  -- watched, and the flag tells whether the loop has ended.
  start_loop : ℕ → Scheduler → Scheduler
  start_loop zero s = s
  start_loop (suc rounds) s = elim s.is_running [ true ↦ start_loop rounds (tick s) | false ↦ s ]

  pub start : ℕ → Scheduler → Scheduler
  unfolding start_loop
  start rounds s = start_loop rounds (record s { is_running = true })

-- "Task%d" of a count below ten, as bytes.
default_name : ℕ → List ℕ
default_name n = b'T' ∷ b'a' ∷ b's' ∷ b'k' ∷ (b'0' + n) ∷ []

task_name : Option (List ℕ) → ℕ → List ℕ
unfolding default_name
task_name none n = default_name n
task_name (some name) n = take (task_name_len - 1) name

-- The record of the `n`-th task.
pub new_task : ℕ → ℕ → ℕ → ℕ → Option (List ℕ) → ℕ → Task
unfolding task_name
new_task func arg priority period_ms name n = record {
  task_func = func;
  arg = arg;
  priority = priority;
  period_ms = period_ms;
  deadline_ms = period_ms;
  last_run = 0;
  state = ready;
  name = task_name name n;
  run_count = 0;
  missed_deadlines = 0;
}

-- `has_memory` is whether `malloc` grants the task's record.
unfoldable pub add_task : Bool → ℕ → ℕ → ℕ → ℕ → Option (List ℕ) → Scheduler → Bool × Scheduler
unfolding new_task
add_task has_memory func arg priority period_ms name s =
    if leb max_tasks (task_count s)
    then (false, s)
    else (if not has_memory then (false, s) else (
      true,
      record s {
        tasks = s.tasks ++ (new_task func arg priority period_ms name (task_count s) ∷ []);
      },
    ))

-- `while (sys_time_ms < end_time) sleep_ms(1)`. Sleeping does not change `sys_time_ms`: only
-- `scheduler_tick` does. `none` is a wait still going on when the fuel is spent.
delay_loop : ℕ → ℕ → Scheduler → Option Scheduler
delay_loop zero end_time s = none
delay_loop (suc fuel) end_time s = elim (ltb s.sys_time_ms end_time) [
  | true ↦ delay_loop fuel end_time s
  | false ↦ some s
]

pub delay : ℕ → ℕ → Scheduler → Option Scheduler
unfolding delay_loop
delay fuel ms s = delay_loop fuel (add32 s.sys_time_ms ms) s

pub get_tick_count : Scheduler → ℕ
get_tick_count s = s.tick_count

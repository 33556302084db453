-- ===== src/App/Monitor.antt =====
-- src/app/monitor_task.c: the monitor task. The warnings and the status that it logs are part of
-- its state, the newest first; its other lines are left out.
pub mod Memory
use embed_rtos.Base.{
  ℕ, zero, suc, ◌+◌, ◌-◌, ◌*◌, ◌/◌, ◌%◌, Bool, true, false, List, [], ◌∷◌, ◌++◌, if◌then◌else◌, ltb,
  leb, add32, sub32,
}
use embed_rtos.Base.Int.{ℤ, pos, negsuc, sub_ℕ, ◌+ℤ◌, ltb_ℤ, int_to_u32}
use embed_rtos.Base.Float.{Float, of_nat, ◌⊗◌, ◌⊘◌}

pub record SystemStatus (F : Type 0) : Type 0 where
  pub uptime_seconds : ℕ
  pub cpu_usage : F
  pub task_count : ℕ
  pub memory_used : ℕ
  pub memory_total : ℕ

-- A warning, or the printed status with whether an update is available.
pub data Entry : Type 0 where
  high_cpu_usage low_cpu_usage high_memory_usage low_task_count : Entry
  system_report : Bool → Entry

-- The static data and the locals of the task.
pub record Monitor (F : Type 0) : Type 0 where
  pub status : SystemStatus F
  pub used_memory : ℕ
  pub variation : ℤ
  pub last_check : ℕ
  pub last_print : ℕ
  pub startup_time : ℕ
  pub log : List Entry

-- What a round of the loop reads: the scheduler's data, a random number, and the OTA manager.
pub record Reading (F : Type 0) : Type 0 where
  pub tick_count : ℕ
  pub cpu_usage : F
  pub task_count : ℕ
  pub random : ℕ
  pub update_available : Bool

abbrev pub total_memory : ℕ
total_memory = 1024 * 256

abbrev pub base_usage : ℕ
base_usage = 50 * 1024

-- `variation += (rand() % 100) - 50`, kept between -50 * 1024 and 50 * 1024.
pub vary : ℕ → ℤ → ℤ
vary random variation =
    let sum = variation +ℤ sub_ℕ (random % 100) 50 in
    let upper = if ltb_ℤ (pos (50 * 1024)) sum then pos (50 * 1024) else sum in
    if ltb_ℤ upper (sub_ℕ 0 (50 * 1024)) then sub_ℕ 0 (50 * 1024) else upper

-- The memory in use for a variation.
pub memory_for : ℤ → ℕ
memory_for variation =
    let sum = add32 base_usage (int_to_u32 variation) in
    let upper = if ltb total_memory sum then total_memory else sum in
    if ltb upper (10 * 1024) then 10 * 1024 else upper

task_warnings : ℕ → List Entry → List Entry
task_warnings count log = if ltb count 3 then low_task_count ∷ log else log

module _ {F : Type 0} ⦃f : Float F⦄ where
  pub update_memory_usage : ℕ → Monitor F → Monitor F
  unfolding vary memory_for
  update_memory_usage random m =
      let variation = vary random m.variation in
      let used = memory_for variation in
      record m {
        variation = variation;
        used_memory = used;
        status = record m.status { memory_used = used; memory_total = total_memory };
      }

  cpu_warnings : F → List Entry → List Entry
  cpu_warnings usage log =
      if f.lt (of_nat 90) usage
      then high_cpu_usage ∷ log
      else if f.lt usage (of_nat 5)
      then low_cpu_usage ∷ log
      else log

  memory_usage : ℕ → F
  memory_usage used = of_nat used ⊗ of_nat 100 ⊘ of_nat total_memory

  memory_warnings : F → List Entry → List Entry
  memory_warnings usage log = if f.lt (of_nat 80) usage then high_memory_usage ∷ log else log

  pub check_system_health : Reading F → Monitor F → Monitor F
  unfolding cpu_warnings memory_usage memory_warnings task_warnings
  check_system_health o m =
      if leb 5000 (sub32 o.tick_count m.last_check)
      then record m {
        status = record m.status { cpu_usage = o.cpu_usage };
        log =
            task_warnings o.task_count
              (memory_warnings (memory_usage m.used_memory) (cpu_warnings o.cpu_usage m.log));
        last_check = o.tick_count;
      }
      else m

  pub print_system_status : Reading F → Monitor F → Monitor F
  print_system_status o m =
      if leb 10000 (sub32 o.tick_count m.last_print)
      then record m { log = system_report o.update_available ∷ m.log; last_print = o.tick_count }
      else m

  pub update_status : Reading F → Monitor F → Monitor F
  update_status o m = record m {
    status = record m.status {
      uptime_seconds = sub32 o.tick_count m.startup_time / 1000;
      cpu_usage = o.cpu_usage;
      task_count = o.task_count;
    };
  }

  -- One round of the task's loop, up to its delay. The tick count does not change within it.
  pub monitor_round : Reading F → Monitor F → Monitor F
  monitor_round o m =
      print_system_status o
        (check_system_health o (update_memory_usage o.random (update_status o m)))

  pub monitor_rounds : List (Reading F) → Monitor F → Monitor F
  monitor_rounds [] m = m
  monitor_rounds (o ∷ os) m = monitor_rounds os (monitor_round o m)

  -- The static data of the program's start, and what the task does before its loop.
  pub fresh : Monitor F
  fresh = record {
    status = record {
      uptime_seconds = 0;
      cpu_usage = of_nat 0;
      task_count = 0;
      memory_used = 0;
      memory_total = 0;
    };
    used_memory = 0;
    variation = pos 0;
    last_check = 0;
    last_print = 0;
    startup_time = 0;
    log = [];
  }

  pub start : Reading F → Monitor F → Monitor F
  start o m = record m {
    status = record {
      uptime_seconds = 0;
      cpu_usage = of_nat 0;
      task_count = o.task_count;
      memory_used = 0;
      memory_total = total_memory;
    };
    startup_time = o.tick_count;
  }

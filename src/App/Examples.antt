-- ===== src/App/Examples.antt =====
-- The tasks of src/app at work, with the arithmetic of thousandths for floats.
use embed_rtos.Base.{List, ℕ, refl, Bool, true, false, none, [], ◌∷◌}
use embed_rtos.Base.Int.{ℤ, pos}
use embed_rtos.Base.Float.Fixed.{fixed}
use embed_rtos.App.Comm.Examples.{outside}
use embed_rtos.Kernel.Scheduler.{Scheduler}
use embed_rtos.Simulator.Board.{Machine}
use embed_rtos.App.MainLoop.{Program, sensor_started, create_tasks}
use embed_rtos.App.Startup.{Moment, looping, steps}
use embed_rtos.App.Startup.Hang.{HasHung, after_signals, steps-HasHung}
use embed_rtos.App.Monitor
use embed_rtos.App.Monitor.{Reading}
use embed_rtos.App.Sensor
use embed_rtos.App.Sensor.{Host, Draws}

abbrev reading : ℕ → ℕ → Reading ℤ
reading tick random = record {
  tick_count = tick;
  cpu_usage = pos 95000;
  task_count = 3;
  random = random;
  update_available = false;
}

abbrev host : Host ℤ
host = record { sine = λ x. pos 500; rand_max = 32767 }

abbrev draws : ℕ → Draws
draws tick = record {
  tick_count = tick;
  drift_random = 30000;
  temperature_random = 100;
  humidity_random = 16000;
  trend_random = 5;
  pressure_random = 20000;
}

abbrev no_effect : ℕ → ℕ → Scheduler → Scheduler
no_effect f a s = s

abbrev board : Machine ℕ
board = record {
  config = record {
    cpu_frequency_hz = 100000000;
    ram_size_kb = 64;
    flash_size_kb = 512;
    system_clock_hz = 100000000;
    debug_enabled = true;
    performance_counters = true;
  };
  board = record {
    uptime_ms = 0;
    tick_counter = 0;
    instruction_count = 0;
    cycle_count = 0;
    running = true;
    reset_requested = false;
    sleep_mode = false;
  };
  gpio_pins = [];
  interrupts = [];
  perf_counters = [];
  ram_memory = none;
  flash_memory = none;
  outside = 0;
}

abbrev program : Program ℕ
program = record {
  scheduler = create_tasks true 1 2 3;
  board = board;
  running = true;
  last_stat_print = 0;
  dashboard_counter = 0;
  output = [];
}

abbrev moment : Bool → ℕ → Moment
moment interrupted tick = record {
  input = record { key = none; interrupted = interrupted };
  draws = draws tick;
}

abbrev moments : List Moment
moments = moment false 1 ∷ moment false 1 ∷ moment true 2 ∷ []

steps-HasHung_example : HasHung (after_signals moments (sensor_started ∷ [])) (
    steps 1 no_effect
      (λ m. m)
      host
      moments
      (record { program = program; sensor = Sensor.start; location = looping }))
steps-HasHung_example =
    steps-HasHung 1 2 3 no_effect (λ m. m) host program Sensor.start (moment false 1)
      (moment false 1) (moment true 2 ∷ []) refl refl refl

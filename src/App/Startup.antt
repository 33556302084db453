-- ===== src/App/Startup.antt =====
-- src/main.c with src/app/sensor_task.c and src/kernel/scheduler.c: the program from its first tick
-- on, step by step. The function of the sensor task is called by the tick and is its own loop, so
-- the place that the program is at is part of the state. The other tasks, virt_board_update and the
-- host are parameters.
pub mod Hang
use embed_rtos.Base.{
  ℕ, ◌+◌, Bool, true, false, ◌&&◌, Option, none, some, List, [], ◌∷◌, if◌then◌else◌, ltb, ◌==◌,
  add32,
}
use embed_rtos.Base.Float.{Float}
use embed_rtos.Kernel.Scheduler.{
  Scheduler, Task, is_ready, find_highest_priority_task, advance, begin_task, get_tick_count,
}
use embed_rtos.Simulator.Board.{Machine}
use embed_rtos.App.MainLoop.{
  Program, Input, sensor_started, sensor_line, signal_handler, main_round,
}
use embed_rtos.App.Sensor
use embed_rtos.App.Sensor.{Sensor, Host, Draws, sensor_round}

-- At the test of the loop of main; at the top of the loop of sensor_task; in the loop of
-- scheduler_delay, which waits for a time; and after the loop of main, where the program ends.
pub data Place : Type 0 where
  looping sampling ended : Place
  waiting : ℕ → Place

pub record World (F W : Type 0) : Type 0 where
  pub program : Program W
  pub sensor : Sensor F
  pub location : Place

-- What comes from outside during a step.
pub record Moment : Type 0 where
  pub input : Input
  pub draws : Draws

abbrev pub period : ℕ
period = 10

module _ {F W : Type 0} ⦃f : Float F⦄ (sensor_address : ℕ)
    (run_func : ℕ → ℕ → Scheduler → Scheduler) (board_update : Machine W → Machine W)
    (h : Host F) where
  -- A round of main in which no task or another task than the sensor's is called.
  other_round : Input → World F W → World F W
  other_round i w = record w { program = main_round run_func board_update i w.program }

  -- The tick calls the function of the task that it found. The sensor task logs its start. Its
  -- statics are at their start, since it does not return and is called once at most.
  call_found : Input → Option (ℕ × Task) → World F W → World F W
  unfolding other_round
  call_found i none w = other_round i w
  call_found i (some (k, t)) w =
      if is_ready t.state && t.task_func == sensor_address
      then record {
        program = record w.program {
          scheduler = begin_task k t (advance w.program.scheduler);
          output = sensor_started ∷ w.program.output;
        };
        sensor = Sensor.start;
        location = sampling;
      }
      else other_round i w

  loop_step : Input → World F W → World F W
  unfolding call_found
  loop_step i w =
      if w.program.running && w.program.board.board.running
      then call_found i (find_highest_priority_task (advance w.program.scheduler).tasks) w
      else record w { location = ended }

  -- A round of sensor_task, with the line that it may log, up to the end time that scheduler_delay
  -- computes.
  sample_step : Draws → World F W → World F W
  sample_step d w =
      let s = w.program.scheduler in
      let sensor = sensor_round h (record d { tick_count = get_tick_count s }) w.sensor in
      let shown = w.program.output in
      record w {
        program = record w.program {
          output = if ltb w.sensor.printed sensor.printed then sensor_line ∷ shown else shown;
        };
        sensor = sensor;
        location = waiting (add32 s.sys_time_ms period);
      }

  -- `while (sys_time_ms < end_time) sleep_ms(1)`
  wait_step : ℕ → World F W → World F W
  wait_step end_time w =
      if ltb w.program.scheduler.sys_time_ms end_time then w else record w { location = sampling }

  place_step : Place → Moment → World F W → World F W
  unfolding loop_step sample_step wait_step
  place_step looping m w = loop_step m.input w
  place_step sampling m w = sample_step m.draws w
  place_step (waiting end_time) m w = wait_step end_time w
  place_step ended m w = w

  -- A step, at whose end a signal may come.
  pub step : Moment → World F W → World F W
  unfolding place_step
  step m w =
      let w' = place_step w.location m w in
      if m.input.interrupted then record w' { program = signal_handler w'.program } else w'

  pub steps : List Moment → World F W → World F W
  steps [] w = w
  steps (m ∷ ms) w = steps ms (step m w)

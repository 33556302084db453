-- ===== src/App/Startup/Hang.antt =====
-- What src/main.c does from its first tick on.
use embed_rtos.Base.{
  ℕ, ◌≡◌, refl, ◌∙◌, true, Option, none, some, List, [], ◌∷◌, map, arith, ◌==◌, Bool-cases, inl,
  inr, ap, if◌then◌else◌, ltb-false,
}
use embed_rtos.Base.Float.{Float}
use embed_rtos.Kernel.Scheduler
use embed_rtos.Kernel.Scheduler.{
  Scheduler, Task, add_task, advance, begin_task, find_highest_priority_task, get_tick_count,
}
use embed_rtos.Simulator.Board.{Machine}
use embed_rtos.App.MainLoop.{
  Program, Output, shutting_down, sensor_started, create_tasks, signal_handler,
}
use embed_rtos.App.Sensor
use embed_rtos.App.Sensor.{Sensor, Host, Draws, sensor_round}
use embed_rtos.App.Sensor.Rounds.{sensor_round-sample_count, sensor_round-printed}
use embed_rtos.App.Startup.{
  World, Moment, looping, sampling, waiting, loop_step, sample_step, wait_step, place_step, step,
  steps,
}

-- What the terminal shows, the newest first, after the signals of some moments.
after_signal : Moment → List Output → List Output
after_signal m os = if m.input.interrupted then shutting_down ∷ os else os

pub after_signals : List Moment → List Output → List Output
after_signals [] os = os
after_signals (m ∷ ms) os = after_signals ms (after_signal m os)

module _ {F W : Type 0} where
  -- The program waits for the time 11, which is not reached at the time 1: one tick has been
  -- made, the sensor task has been called and has taken one sample, no other task has run, and the
  -- terminal shows `os`.
  pub record HasHung (os : List Output) (w : World F W) : Type 0 where
    pub location : w.location ≡ waiting 11
    pub sampled : w.sensor.sensor_data.sample_count ≡ 1
    pub time : w.program.scheduler.sys_time_ms ≡ 1
    pub ticks : w.program.scheduler.tick_count ≡ 1
    pub runs : map (λ t. t.run_count) w.program.scheduler.tasks ≡ 1 ∷ 0 ∷ 0 ∷ []
    pub output : w.program.output ≡ os

  HasHung-signal :
      (os : List Output) (w : World F W)
      → HasHung os w
      → HasHung (shutting_down ∷ os) (record w { program = signal_handler w.program })
  unfolding signal_handler
  HasHung-signal os w h = record {
    location = h.location;
    sampled = h.sampled;
    time = h.time;
    ticks = h.ticks;
    runs = h.runs;
    output = ap (λ xs. shutting_down ∷ xs) h.output;
  }

  -- A signal, if one has come.
  abbrev signalled : Moment → World F W → World F W
  signalled m w = if m.input.interrupted then record w { program = signal_handler w.program } else w

  signalled-HasHung :
      (os : List Output) (m : Moment) (w : World F W)
      → HasHung os w
      → HasHung (after_signal m os) (signalled m w)
  unfolding after_signal
  signalled-HasHung os m w s = elim (Bool-cases m.input.interrupted) [
    | inl e ↦ rw e (HasHung-signal os w s)
    | inr e ↦ rw e s
  ]

module _ {F W : Type 0} ⦃f : Float F⦄ (sensor comm monitor : ℕ)
    (run_func : ℕ → ℕ → Scheduler → Scheduler) (board_update : Machine W → Machine W)
    (h : Host F) where
  wait-HasHung :
      (os : List Output) (m : Moment) (w : World F W)
      → HasHung os w
      → HasHung (after_signal m os) (step sensor run_func board_update h m w)
  unfolding step place_step wait_step
  wait-HasHung os m w s =
      let same : place_step sensor run_func board_update h w.location m w ≡ w =
        rw (s.location, place_step, wait_step, s.time) refl in
      rw (step, same) (signalled-HasHung os m w s)

  waits-HasHung :
      (os : List Output) (ms : List Moment) (w : World F W)
      → HasHung os w
      → HasHung (after_signals ms os) (steps sensor run_func board_update h ms w)
  unfolding steps after_signals
  waits-HasHung os [] w s = s
  waits-HasHung os (m ∷ ms) w s =
      waits-HasHung (after_signal m os) ms (step sensor run_func board_update h m w)
        (wait-HasHung os m w s)

  -- The scheduler that the first tick calls a task with.
  abbrev call : Option (ℕ × Task) → Scheduler → Scheduler
  call none s = s
  call (some (k, t)) s = begin_task k t s

  abbrev called : Scheduler
  called =
      let s = advance (create_tasks true sensor comm monitor) in
      call (find_highest_priority_task s.tasks) s

  abbrev before : Program W → Sensor F → World F W
  before p t = record { program = p; sensor = t; location = looping }

  abbrev inside : Program W → World F W
  inside p = record {
    program = record p { scheduler = called; output = sensor_started ∷ p.output };
    sensor = Sensor.start;
    location = sampling;
  }

  -- The tick of the first round finds the sensor task and calls it.
  first-calls :
      (p : Program W) (m : Moment) (t : Sensor F)
      → p.scheduler ≡ create_tasks true sensor comm monitor
      → p.running ≡ true
      → p.board.board.running ≡ true
      → place_step sensor run_func board_update h looping m (before p t) ≡ inside p
  unfolding place_step loop_step create_tasks add_task Scheduler.init advance
      find_highest_priority_task
  first-calls p m t tasks go board =
      let same : (sensor == sensor) ≡ true = ground arith in
      rw (place_step, loop_step, tasks, go, board, same) refl

  -- The sensor task has been called, and its loop begins.
  record IsInside (os : List Output) (w : World F W) : Type 0 where
    tasks : w.program.scheduler ≡ called
    output : w.program.output ≡ os
    sensor_start : w.sensor ≡ Sensor.start
    location : w.location ≡ sampling

  signalled-IsInside :
      (os : List Output) (m : Moment) (w : World F W)
      → IsInside os w
      → IsInside (after_signal m os) (signalled m w)
  unfolding after_signal signal_handler
  signalled-IsInside os m w s = elim (Bool-cases m.input.interrupted) [
    | inl e ↦ rw e (record {
      tasks = s.tasks;
      output = ap (λ xs. shutting_down ∷ xs) s.output;
      sensor_start = s.sensor_start;
      location = s.location;
    })
    | inr e ↦ rw e s
  ]

  sample-HasHung :
      (os : List Output) (m : Moment) (w : World F W)
      → IsInside os w
      → HasHung (after_signal m os) (step sensor run_func board_update h m w)
  unfolding step place_step sample_step create_tasks add_task Scheduler.init advance
      find_highest_priority_task Sensor.start
  sample-HasHung os m w s =
      let d : Draws = record m.draws { tick_count = get_tick_count w.program.scheduler } in
      let silent = sensor_round-printed h d w.sensor (rw s.sensor_start refl) in
      let sampled : HasHung os (place_step sensor run_func board_update h sampling m w) = record {
        location = rw s.tasks refl;
        sampled = sensor_round-sample_count h _ w.sensor ∙ rw s.sensor_start refl;
        time = rw s.tasks refl;
        ticks = rw s.tasks refl;
        runs = rw s.tasks refl;
        output = rw (silent, ltb-false w.sensor.printed w.sensor.printed (omega arith)) s.output;
      } in
      rw (step, s.location) (signalled-HasHung os m _ sampled)

  -- The program of main, from its first tick on, with its three tasks created, `running` set and
  -- the board running, hangs, whatever keys and random numbers come and whatever signals, each
  -- handled at the end of a step: after two steps and any number of further ones the tick count is
  -- 1, only the sensor task has been called, once, and it waits in its first scheduler_delay, for
  -- the time 11 at the time 1. All that the terminal shows in addition is the line of the task's
  -- start and, after it, one line of the handler for each signal.
  pub steps-HasHung :
      (p : Program W) (t : Sensor F) (m m' : Moment) (ms : List Moment)
      → p.scheduler ≡ create_tasks true sensor comm monitor
      → p.running ≡ true
      → p.board.board.running ≡ true
      → HasHung
          (after_signals (m ∷ m' ∷ ms) (sensor_started ∷ p.output))
          (steps sensor run_func board_update h (m ∷ m' ∷ ms) (before p t))
  unfolding steps step after_signals
  steps-HasHung p t m m' ms tasks go board =
      let begins : IsInside (sensor_started ∷ p.output) (inside p) = record {
        tasks = refl;
        output = refl;
        sensor_start = refl;
        location = refl;
      } in
      waits-HasHung _ ms _ (
        sample-HasHung _ m' (step sensor run_func board_update h m (before p t))
          (rw (step, first-calls p m t tasks go board) (signalled-IsInside _ m (inside p) begins)))

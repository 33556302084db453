-- ===== src/App/MainLoop.antt =====
-- src/main.c: the set-up of the tasks and the loop of the program. The task functions, their
-- addresses and virt_board_update, which the repository does not define, are parameters. What goes
-- to the terminal is kept as a list, the newest first.
use embed_rtos.Base.{
  ℕ, ◌%◌, Bool, false, ◌||◌, Option, none, some, List, ◌∷◌, if◌then◌else◌, leb, ◌==◌, codes, sub32,
  add32,
}
use embed_rtos.Kernel.Scheduler.{Scheduler, add_task, tick}
use embed_rtos.Kernel.Scheduler
use embed_rtos.Simulator.Board.{Machine}

pub data Output : Type 0 where
  shutting_down sensor_started sensor_line status_line rule_line task_stats : Output
  ota_simulation dashboard : Output
  unknown_command : ℕ → Output

-- `running`, the locals of main, and what main works on.
pub record Program (W : Type 0) : Type 0 where
  pub scheduler : Scheduler
  pub board : Machine W
  pub running : Bool
  pub last_stat_print : ℕ
  pub dashboard_counter : ℕ
  pub output : List Output

-- What a round meets: a key, if one was pressed, and whether a SIGINT has come.
pub record Input : Type 0 where
  pub key : Option ℕ
  pub interrupted : Bool

module _ {W : Type 0} where
  abbrev show : Output → Program W → Program W
  show o p = record p { output = o ∷ p.output }

  unfoldable pub signal_handler : Program W → Program W
  signal_handler p = record p { running = false; output = shutting_down ∷ p.output }

  pub handle_key : ℕ → Program W → Program W
  handle_key key p =
      if key == b's' || key == b'S'
      then show task_stats p
      else if key == b'u' || key == b'U'
      then show ota_simulation p
      else if key == b'd' || key == b'D'
      then show dashboard p
      else if key == b'q' || key == b'Q'
      then record p { running = false }
      else if key == 27
      then record p { running = false }
      else show (unknown_command key) p

  print_status : Program W → Program W
  print_status p =
      let ticks = p.scheduler.tick_count in
      let counter = add32 p.dashboard_counter 1 in
      if leb 5000 (sub32 ticks p.last_stat_print)
      then record p {
        last_stat_print = ticks;
        dashboard_counter = counter;
        output =
            if counter % 5 == 0 then rule_line ∷ status_line ∷ p.output else status_line ∷ p.output;
      }
      else p

  read_key : Option ℕ → Program W → Program W
  read_key none p = p
  read_key (some key) p = handle_key key p

-- `sensor`, `comm` and `monitor` are the addresses of the task functions, and `has_memory` is
-- whether `malloc` grants a task's record.
unfoldable pub create_tasks : Bool → ℕ → ℕ → ℕ → Scheduler
create_tasks has_memory sensor comm monitor =
    let s1 = (add_task has_memory sensor 0 1 10 (some (codes "Sensor")) Scheduler.init).1 in
    let s2 = (add_task has_memory comm 0 2 50 (some (codes "Communication")) s1).1 in
    (add_task has_memory monitor 0 3 1000 (some (codes "Monitor")) s2).1

module _ {W : Type 0} (run_func : ℕ → ℕ → Scheduler → Scheduler)
    (board_update : Machine W → Machine W) where
  -- One round of the loop. A signal is seen at its end.
  pub main_round : Input → Program W → Program W
  main_round i p =
      let ticked = record p {
        scheduler = tick run_func p.scheduler;
        board = board_update p.board;
      } in
      let after_key = read_key i.key (print_status ticked) in
      if i.interrupted then signal_handler after_key else after_key

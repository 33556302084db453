-- ===== src/Simulator/Board.antt =====
-- simulator/virt_board.c and virt_board.h: the state of the board and its ticks. The static data of
-- virt_board.c are one record. `outside` is what the interrupt handlers work on beside the board.
pub mod Ticks
use embed_rtos.Base.{
  ℕ, zero, suc, ◌*◌, Bool, true, false, not, ◌&&◌, ◌||◌, Option, none, some, List, [], ◌∷◌,
  if◌then◌else◌, u32, add32, get_elem?, set, replicate,
}

pub record Config : Type 0 where
  pub cpu_frequency_hz : ℕ
  pub ram_size_kb : ℕ
  pub flash_size_kb : ℕ
  pub system_clock_hz : ℕ
  pub debug_enabled : Bool
  pub performance_counters : Bool

pub record BoardState : Type 0 where
  pub uptime_ms : ℕ
  pub tick_counter : ℕ
  pub instruction_count : ℕ
  pub cycle_count : ℕ
  pub running : Bool
  pub reset_requested : Bool
  pub sleep_mode : Bool

pub record VirtGpio : Type 0 where
  pub port : ℕ
  pub pin : ℕ
  pub value : Bool
  pub direction : Bool
  pub pull : Bool

-- A handler is the address of its code; `none` is NULL.
pub record VirtInterrupt : Type 0 where
  pub irq_number : ℕ
  pub enabled : Bool
  pub pending : Bool
  pub handler : Option ℕ
  pub priority : ℕ

pub record PerfCounter : Type 0 where
  pub name : List ℕ
  pub start_time : ℕ
  pub total_time : ℕ
  pub call_count : ℕ

-- `perf_counters` are the entries in use, the first `perf_counter_count` of sixteen.
pub record Machine (W : Type 0) : Type 0 where
  pub config : Config
  pub board : BoardState
  pub gpio_pins : List VirtGpio
  pub interrupts : List VirtInterrupt
  pub perf_counters : List PerfCounter
  pub ram_memory : Option (List ℕ)
  pub flash_memory : Option (List ℕ)
  pub outside : W

abbrev default_config : Config
default_config = record {
  cpu_frequency_hz = 100000000;
  ram_size_kb = 256;
  flash_size_kb = 1024;
  system_clock_hz = 100000000;
  debug_enabled = true;
  performance_counters = true;
}

abbrev no_gpio : VirtGpio
no_gpio = record { port = 0; pin = 0; value = false; direction = false; pull = false }

abbrev no_interrupt : VirtInterrupt
no_interrupt = record {
  irq_number = 0;
  enabled = false;
  pending = false;
  handler = none;
  priority = 0;
}

abbrev fresh : BoardState
fresh = record {
  uptime_ms = 0;
  tick_counter = 0;
  instruction_count = 0;
  cycle_count = 0;
  running = true;
  reset_requested = false;
  sleep_mode = false;
}

module _ {W : Type 0} where
  -- `malloc n` is the block for `n` bytes, or `none`. Where one of the two is refused the tables stay
  -- as they were.
  unfoldable pub init : (ℕ → Option (List ℕ)) → Option Config → Machine W → Machine W
  init malloc given m =
      let config : Config = elim given [ none ↦ default_config | some c ↦ c ] in
      let ram_size : ℕ = u32 (config.ram_size_kb * 1024) in
      let flash_size : ℕ = u32 (config.flash_size_kb * 1024) in
      let started : Machine W = record m {
        config = config;
        board = fresh;
        ram_memory = malloc ram_size;
        flash_memory = malloc flash_size;
      } in
      elim (malloc ram_size) [
        | none ↦ started
        | some ram ↦ elim (malloc flash_size) [
          | none ↦ started
          | some flash ↦ record started {
            ram_memory = some (replicate ram_size 0x00);
            flash_memory = some (replicate flash_size 0xff);
            gpio_pins = replicate 128 no_gpio;
            interrupts = replicate 32 no_interrupt;
            perf_counters = [];
          }
        ]
      ]

  pub deinit : Machine W → Machine W
  deinit m = record m {
    board = record m.board { running = false };
    ram_memory = none;
    flash_memory = none;
  }

  pub reset : Machine W → Machine W
  reset m = record m {
    board = record fresh { running = m.board.running };
    gpio_pins = replicate 128 no_gpio;
    interrupts = replicate 32 no_interrupt;
  }

  pub run : Machine W → Machine W
  run m = record m { board = record m.board { running = true } }

  pub stop : Machine W → Machine W
  stop m = record m { board = record m.board { running = false } }

  pub enter_sleep_mode : Machine W → Machine W
  enter_sleep_mode m = record m { board = record m.board { sleep_mode = true } }

  pub exit_sleep_mode : Machine W → Machine W
  exit_sleep_mode m = record m { board = record m.board { sleep_mode = false } }

  -- The body of the loop over the interrupts, at entry `i`. `call h` is what the handler at `h` does.
  pub handle : (ℕ → Machine W → Machine W) → ℕ → Machine W → Machine W
  handle call i m = elim (get_elem? m.interrupts i) [
    | none ↦ m
    | some q ↦ elim (q.enabled && q.pending) [
      | false ↦ m
      | true ↦ elim q.handler [
        | none ↦ m
        | some h ↦
            let m' = call h m in
            elim (get_elem? m'.interrupts i) [
              | none ↦ m'
              | some q' ↦ record m' {
                interrupts = set m'.interrupts i (record q' { pending = false });
              }
            ]
      ]
    ]
  ]

  -- The loop, with `left` entries to go, the next at `i`.
  pub process_interrupts : (ℕ → Machine W → Machine W) → ℕ → ℕ → Machine W → Machine W
  process_interrupts call zero i m = m
  process_interrupts call (suc left) i m = process_interrupts call left (suc i) (handle call i m)

  pub tick : (ℕ → Machine W → Machine W) → Machine W → Machine W
  tick call m =
      if not m.board.running || m.board.sleep_mode
      then m
      else process_interrupts call 32 0 (record m {
        board = record m.board {
          tick_counter = add32 m.board.tick_counter 1;
          uptime_ms = add32 m.board.uptime_ms 1;
          instruction_count = add32 m.board.instruction_count 100;
          cycle_count = add32 m.board.cycle_count 100;
        };
      })

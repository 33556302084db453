-- ===== src/Simulator/Examples.antt =====
-- A board whose handlers write down that they were called, the last one first.
use embed_rtos.Base.{
  ℕ, ◌*◌, ◌+◌, ◌/◌, u32, ◌≡◌, refl, true, false, Option, none, some, List, [], ◌∷◌, map, arith,
  replicate,
}
use embed_rtos.Simulator.Board.{Machine, VirtInterrupt, init, tick}
use embed_rtos.Base.Rows.{rows_from}
use embed_rtos.Simulator.Memory.{dump_memory}
use embed_rtos.Simulator.Memory.Dump.{byte_at, init-HasMemory, dump_memory-rows_from}
use embed_rtos.Simulator.Board.Ticks.{due, settled, run_all, ticked, tick-handles}
use embed_rtos.Simulator.Interrupts.{is_pending}
use embed_rtos.Simulator.Interrupts.Requests.{request, request-handled_once}

abbrev idle : VirtInterrupt
idle = record { irq_number = 0; enabled = false; pending = false; handler = none; priority = 0 }

abbrev waiting : ℕ → VirtInterrupt
waiting n = record {
  irq_number = n;
  enabled = true;
  pending = true;
  handler = some n;
  priority = 1;
}

abbrev machine : List VirtInterrupt → Machine (List ℕ)
machine table = record {
  config = record {
    cpu_frequency_hz = 100;
    ram_size_kb = 1;
    flash_size_kb = 1;
    system_clock_hz = 100;
    debug_enabled = false;
    performance_counters = true;
  };
  board = record {
    uptime_ms = 7;
    tick_counter = 7;
    instruction_count = 700;
    cycle_count = 700;
    running = true;
    reset_requested = false;
    sleep_mode = false;
  };
  gpio_pins = [];
  interrupts = table;
  perf_counters = [];
  ram_memory = none;
  flash_memory = none;
  outside = [];
}

abbrev note : ℕ → List ℕ → List ℕ
note h calls = h ∷ calls

abbrev call_note : ℕ → Machine (List ℕ) → Machine (List ℕ)
call_note h m = record m { outside = note h m.outside }

abbrev two_waiting : List VirtInterrupt
two_waiting = waiting 0 ∷ idle ∷ waiting 2 ∷ replicate 29 idle

tick-handles_example :
    (tick call_note (machine two_waiting) ≡ record (machine two_waiting) {
      board = ticked (machine two_waiting).board;
      interrupts = map settled two_waiting;
      outside = run_all note (due two_waiting) [];
    })
    × (due (map settled two_waiting) ≡ [])
tick-handles_example =
    tick-handles call_note note (machine two_waiting) (λ h m. refl) refl refl refl

request-handled_once_example :
    (irq' : Option VirtInterrupt) × (m' : Machine (List ℕ)) × (request idle 5 9 1
        (machine (replicate 32 idle))
      ≡ some (irq', m'))
    × ((tick call_note m').outside ≡ 9 ∷ [])
    × ((tick call_note (tick call_note m')).outside ≡ 9 ∷ [])
    × (is_pending irq' ≡ true)
request-handled_once_example =
    request-handled_once call_note note (machine (replicate 32 idle)) idle 5 9 1 (λ h m. refl)
      (omega arith) refl refl refl refl

-- A board of one kilobyte of RAM and one of flash.
abbrev fresh_board : Machine (List ℕ)
fresh_board = init (λ n. some []) (some (machine []).config) (machine [])

abbrev ram_block : List ℕ
ram_block = replicate (u32 (1 * 1024)) 0x00

abbrev flash_block : List ℕ
flash_block = replicate (u32 (1 * 1024)) 0xff

dump_memory-rows_from_example :
    dump_memory fresh_board 1020 20
    ≡ some (rows_from (byte_at fresh_board ram_block flash_block) 1020 20 0 ((20 + 15) / 16))
dump_memory-rows_from_example =
    dump_memory-rows_from fresh_board ram_block flash_block
      (init-HasMemory (λ n. some []) (machine []).config (machine []) [] [] refl refl) 1020 20
      (omega arith)

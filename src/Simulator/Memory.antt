-- ===== src/Simulator/Memory.antt =====
-- simulator/virt_board.c: the memory of the board as virt_board_dump_memory reads it, the values that
-- the board reports, and its load. `none` is an access through a null pointer or out of bounds.
pub mod Dump
use embed_rtos.Base.{
  ℕ, zero, suc, ◌+◌, ◌-◌, ◌*◌, Bool, Option, none, some, List, [], ◌∷◌, ◌>>=◌, if◌then◌else◌, ltb,
  leb, u32, add32, sub32, get_elem?,
}
use embed_rtos.Base.Rows.{read_rows}
use embed_rtos.Base.Float.{Float, of_nat, ◌⊗◌, ◌⊘◌}
use embed_rtos.Simulator.Board.{Machine}

module _ {W : Type 0} where
  pub is_running : Machine W → Bool
  is_running m = m.board.running

  pub get_uptime_ms : Machine W → ℕ
  get_uptime_ms m = m.board.uptime_ms

  pub get_tick_count : Machine W → ℕ
  get_tick_count m = m.board.tick_counter

  pub get_instruction_count : Machine W → ℕ
  get_instruction_count m = m.board.instruction_count

  pub get_cycle_count : Machine W → ℕ
  get_cycle_count m = m.board.cycle_count

  -- The sizes as the source computes them.
  abbrev pub ram_size : Machine W → ℕ
  ram_size m = u32 (m.config.ram_size_kb * 1024)

  abbrev pub memory_size : Machine W → ℕ
  memory_size m = add32 (ram_size m) (u32 (m.config.flash_size_kb * 1024))

  pub memory_byte : Machine W → ℕ → Option ℕ
  memory_byte m address =
      if ltb address (ram_size m)
      then (m.ram_memory >>= λ ram. get_elem? ram address)
      else if ltb address (memory_size m)
      then (m.flash_memory >>= λ flash. get_elem? flash (address - ram_size m))
      else some 0xff

  pub dump_memory : Machine W → ℕ → ℕ → Option (List (List ℕ))
  dump_memory m address size = read_rows (memory_byte m) (suc size) address size 0

-- The static variables of virt_board_get_cpu_load.
pub record LoadState : Type 0 where
  pub last_instruction_count : ℕ
  pub last_update_time : ℕ

pub get_cpu_load : {W : Type 0} {F : Type 0} ⦃f : Float F⦄ → Machine W → LoadState → F × LoadState
get_cpu_load ⦃f⦄ m l =
    let now = m.board.uptime_ms in
    let instructions = sub32 m.board.instruction_count l.last_instruction_count in
    let load = of_nat instructions ⊘ of_nat 100000000 ⊗ of_nat 100 in
    if leb 1000 (sub32 now l.last_update_time)
    then (
      if f.lt (of_nat 100) load then of_nat 100 else load,
      record { last_instruction_count = m.board.instruction_count; last_update_time = now },
    )
    else (of_nat 50, l)

-- ===== src/Simulator/Perf.antt =====
-- The performance counters of simulator/virt_board.c. A name is the list of its bytes, without the
-- zero at its end.
pub mod Table
pub mod Elapsed
use embed_rtos.Base.{
  ℕ, suc, Bool, true, false, not, ◌||◌, Option, none, some, List, [], ◌∷◌, ◌++◌, leb, ◌==◌,
  if◌then◌else◌, add32, sub32, get_elem?, set, take, length,
}
use embed_rtos.Simulator.Board.{Machine, PerfCounter}

-- `strcmp(a, b) == 0`.
abbrev pub same_name : List ℕ → List ℕ → Bool
same_name [] [] = true
same_name [] (b ∷ bs) = false
same_name (a ∷ more) [] = false
same_name (a ∷ more) (b ∷ bs) = if a == b then same_name more bs else false

-- The loop that looks for a counter, from index `i` on.
abbrev pub find_counter : List ℕ → ℕ → List PerfCounter → Option ℕ
find_counter name i [] = none
find_counter name i (c ∷ cs) =
    if same_name c.name name then some i else find_counter name (suc i) cs

-- The start time of counter `index` is now.
pub mark_start : ℕ → ℕ → List PerfCounter → List PerfCounter
mark_start index now cs = elim (get_elem? cs index) [
  | none ↦ cs
  | some c ↦ set cs index (record c { start_time = now })
]

pub add_elapsed : ℕ → ℕ → List PerfCounter → List PerfCounter
add_elapsed index now cs = elim (get_elem? cs index) [
  | none ↦ cs
  | some c ↦ set cs index (record c {
    total_time = add32 c.total_time (sub32 now c.start_time);
    call_count = add32 c.call_count 1;
  })
]

-- A new counter, with the first 31 bytes of its name; the table is cleared at the start.
abbrev pub new_counter : List ℕ → PerfCounter
new_counter name = record { name = take 31 name; start_time = 0; total_time = 0; call_count = 0 }

module _ {W : Type 0} where
  pub start_perf_counter : Option (List ℕ) → Machine W → Machine W
  start_perf_counter none m = m
  start_perf_counter (some name) m =
      let now = m.board.uptime_ms in
      let cs = m.perf_counters in
      if not m.config.performance_counters then m else elim (find_counter name 0 cs) [
        | some index ↦ record m { perf_counters = mark_start index now cs }
        | none ↦ if leb 16 (length cs) then m else record m {
          perf_counters = mark_start (length cs) now (cs ++ (new_counter name ∷ []));
        }
      ]

  pub stop_perf_counter : Option (List ℕ) → Machine W → Machine W
  stop_perf_counter none m = m
  stop_perf_counter (some name) m =
      if not m.config.performance_counters then m else elim (find_counter name 0 m.perf_counters) [
        | some index ↦ record m {
          perf_counters = add_elapsed index m.board.uptime_ms m.perf_counters;
        }
        | none ↦ m
      ]

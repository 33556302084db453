-- ===== src/Simulator/Perf/Elapsed.antt =====
-- The time between `virt_board_start_perf_counter` and `virt_board_stop_perf_counter`.
use embed_rtos.Base.{
  ℕ, ◌≤◌, ◌<◌, ◌≡◌, refl, sym, ap, ap₂, ◌∙◌, inl, inr, true, false, none, some, List, [], ◌∷◌, ◌++◌,
  arith, length, add32, sub32, leb, append-nil, length-append, leb-false,
}
use embed_rtos.Simulator.Board.{Machine, PerfCounter}
use embed_rtos.Simulator.Perf.{
  same_name, find_counter, mark_start, add_elapsed, new_counter, start_perf_counter,
  stop_perf_counter,
}
use embed_rtos.Simulator.Perf.Table.{
  lookup, total_of, calls_of, same_name_refl, take-all, At, find_counter_cases, find_counter-none,
  find_counter-at, lookup-at, mark_start-at, add_elapsed-at, elapsed,
}

-- The table after a start: the counter `c` is the one of the name and has started at `now`.
record Started {W : Type 0} (name : List ℕ) (m result : Machine W) : Type 0 where
  before : List PerfCounter
  c : PerfCounter
  after : List PerfCounter
  returns : result ≡ record m { perf_counters = before ++ (c ∷ after) }
  none_before : lookup name before ≡ none
  named : same_name c.name name ≡ true
  starts : c.start_time ≡ m.board.uptime_ms
  same_total : c.total_time ≡ total_of name m.perf_counters
  same_calls : c.call_count ≡ calls_of name m.perf_counters
  small : length (before ++ (c ∷ after)) ≤ 16

start_perf_counter-found :
    {W : Type 0} (name : List ℕ) (m : Machine W) {xs ys : List PerfCounter} {c : PerfCounter}
    → m.config.performance_counters ≡ true
    → At name m.perf_counters xs c ys
    → start_perf_counter (some name) m
      ≡ record m { perf_counters = xs ++ (record c { start_time = m.board.uptime_ms } ∷ ys) }
unfolding start_perf_counter
start_perf_counter-found name m {xs} {ys} {c} on a =
    let now = m.board.uptime_ms in
    let found : find_counter name 0 m.perf_counters ≡ some (length xs) =
      ap (find_counter name 0) a.table ∙ find_counter-at name xs ys c a.none_before a.named in
    let table_after : mark_start (length xs) now m.perf_counters
        ≡ xs ++ (record c { start_time = now } ∷ ys) =
      ap (mark_start (length xs) now) a.table ∙ mark_start-at name xs ys now c in
    ground (arith, on, found, table_after)

start_perf_counter-new :
    {W : Type 0} (name : List ℕ) (m : Machine W)
    → m.config.performance_counters ≡ true
    → lookup name m.perf_counters ≡ none
    → length m.perf_counters < 16
    → start_perf_counter (some name) m ≡ record m {
      perf_counters =
          m.perf_counters ++ (record (new_counter name) { start_time = m.board.uptime_ms } ∷ []);
    }
unfolding start_perf_counter
start_perf_counter-new name m on n room =
    let cs = m.perf_counters in
    let found : find_counter name 0 cs ≡ none =
      ap (find_counter name 0) (sym (append-nil cs)) ∙ find_counter-none name 0 cs [] n in
    let table_after = mark_start-at name cs [] m.board.uptime_ms (new_counter name) in
    let fits : leb 16 (length cs) ≡ false = leb-false 16 (length cs) room in
    ground (arith, on, found, fits, table_after)

start_perf_counter-Started :
    {W : Type 0} (name : List ℕ) (m : Machine W)
    → length name ≤ 31
    → m.config.performance_counters ≡ true
    → length m.perf_counters < 16
    → Started name m (start_perf_counter (some name) m)
start_perf_counter-Started name m short on room = elim (find_counter_cases name m.perf_counters) [
  | inl n ↦ record {
    before = m.perf_counters;
    c = record (new_counter name) { start_time = m.board.uptime_ms };
    after = [];
    returns = start_perf_counter-new name m on n room;
    none_before = n;
    named = ap (λ k. same_name k name) (take-all 31 name short) ∙ same_name_refl name;
    starts = refl;
    same_total = rw (total_of, n) refl;
    same_calls = rw (calls_of, n) refl;
    small = omega (
      arith,
      length-append m.perf_counters
          (record (new_counter name) { start_time = m.board.uptime_ms } ∷ []),
    );
  }
  | inr f ↦
      let a : At name m.perf_counters f.0 f.1 f.2 = f.3 in
      let now : ℕ = m.board.uptime_ms in
      let same : lookup name m.perf_counters ≡ some f.1 =
        ap (lookup name) a.table ∙ lookup-at name f.0 f.2 f.1 a.none_before a.named in
      record {
        before = f.0;
        c = record f.1 { start_time = now };
        after = f.2;
        returns = start_perf_counter-found name m on a;
        none_before = a.none_before;
        named = a.named;
        starts = refl;
        same_total = rw (total_of, same) refl;
        same_calls = rw (calls_of, same) refl;
        small = omega (
          arith,
          ap length a.table,
          length-append f.0 (f.1 ∷ f.2),
          length-append f.0 (record f.1 { start_time = now } ∷ f.2),
        );
      }
]

stop_perf_counter-found :
    {W : Type 0} (name : List ℕ) (m : Machine W) {xs ys : List PerfCounter} {c : PerfCounter}
    → m.config.performance_counters ≡ true
    → At name m.perf_counters xs c ys
    → stop_perf_counter (some name) m
      ≡ record m { perf_counters = xs ++ (elapsed name xs ys m.board.uptime_ms c ∷ ys) }
unfolding stop_perf_counter
stop_perf_counter-found name m {xs} {ys} {c} on a =
    let now = m.board.uptime_ms in
    let found : find_counter name 0 m.perf_counters ≡ some (length xs) =
      ap (find_counter name 0) a.table ∙ find_counter-at name xs ys c a.none_before a.named in
    let table_after : add_elapsed (length xs) now m.perf_counters
        ≡ xs ++ (elapsed name xs ys now c ∷ ys) =
      ap (add_elapsed (length xs) now) a.table ∙ add_elapsed-at name xs ys now c in
    ground (arith, on, found, table_after)

-- The board at a later time.
abbrev pub at_time : {W : Type 0} → ℕ → Machine W → Machine W
at_time now m = record m { board = record m.board { uptime_ms = now } }

-- Where the counters are enabled and one is free, a counter with a name of at most 31 bytes that is
-- started, and stopped at the time `now`, has one call more than before and the time between them
-- added to its total, both as `uint32_t`; a new counter begins at zero. The table does not pass
-- sixteen counters.
pub start-stop_elapsed :
    {W : Type 0} (name : List ℕ) (now : ℕ) (m : Machine W)
    → length name ≤ 31
    → m.config.performance_counters ≡ true
    → length m.perf_counters < 16
    → let m' = stop_perf_counter (some name) (at_time now (start_perf_counter (some name) m)) in
      (total_of name m'.perf_counters
        ≡ add32 (total_of name m.perf_counters) (sub32 now m.board.uptime_ms))
      × (calls_of name m'.perf_counters ≡ add32 (calls_of name m.perf_counters) 1)
      × (length m'.perf_counters ≤ 16)
start-stop_elapsed name now m short on room =
    let s : Started name m (start_perf_counter (some name) m) =
      start_perf_counter-Started name m short on room in
    let later : Machine _ =
      at_time now (record m { perf_counters = s.before ++ (s.c ∷ s.after) }) in
    let done : PerfCounter = elapsed name s.before s.after now s.c in
    let stopped : stop_perf_counter (some name) (at_time now (start_perf_counter (some name) m))
        ≡ record later { perf_counters = s.before ++ (done ∷ s.after) } =
      ap (λ k. stop_perf_counter (some name) (at_time now k)) s.returns
      ∙ stop_perf_counter-found name later on
          (record { table = refl; none_before = s.none_before; named = s.named }) in
    let found : lookup name (s.before ++ (done ∷ s.after)) ≡ some done =
      lookup-at name s.before s.after done s.none_before s.named in
    (
      ap (λ k. total_of name k.perf_counters) stopped
          ∙ ap (λ o. elim o as (λ _. ℕ) [ none ↦ 0 | some c ↦ c.total_time ]) found
          ∙ ap₂ (λ t u. add32 t (sub32 now u)) s.same_total s.starts,
      ap (λ k. calls_of name k.perf_counters) stopped
          ∙ ap (λ o. elim o as (λ _. ℕ) [ none ↦ 0 | some c ↦ c.call_count ]) found
          ∙ ap (λ k. add32 k 1) s.same_calls,
      omega (
        arith,
        s,
        ap (λ k. length k.perf_counters) stopped,
        length-append s.before (done ∷ s.after),
        length-append s.before (s.c ∷ s.after),
      ),
    )

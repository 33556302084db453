-- ===== src/Kernel/Scheduler/Ticks.antt =====
-- What `scheduler_tick` does over time, where the task functions leave the scheduler alone.
use embed_rtos.Base.{
  ℕ, zero, suc, ◌+◌, ◌<◌, ◌≡◌, refl, sym, ap, ap₂, some, List, [], ◌∷◌, ◌++◌, map, arith, length,
  set, get_elem?, add32, set-set, get_elem?-set_self, get_or_of_some, lt-length_of_some,
}
use embed_rtos.Kernel.Scheduler.{ready, running, Task, Scheduler, release, finish, dispatch}

abbrev pub AllReady : List Task → Type 0
AllReady [] = Unit
AllReady (t ∷ ts) = (t.state ≡ ready) × AllReady ts

-- The sum of the tasks' run counts.
abbrev pub total_runs : List Task → ℕ
total_runs [] = 0
total_runs (t ∷ ts) = t.run_count + total_runs ts

release_of_ready : (now : ℕ) (t : Task) → t.state ≡ ready → release now t ≡ t
unfolding release
release_of_ready now t h =
    let same : record t { state = ready } ≡ t = ap (λ s. record t { state = s }) (sym h) in
    ground arith

pub map-release : (now : ℕ) (ts : List Task) → AllReady ts → map (release now) ts ≡ ts
map-release now [] a = refl
map-release now (t ∷ ts) a = ap₂ ◌∷◌ (release_of_ready now t a.0) (map-release now ts a.1)

pub length-release : (now : ℕ) (ts : List Task) → length (map (release now) ts) ≡ length ts
length-release now [] = refl
length-release now (t ∷ ts) = ap suc (length-release now ts)

run_count-release : (now : ℕ) (t : Task) → (release now t).run_count ≡ t.run_count
unfolding release
run_count-release now t = ground arith

pub total_runs-release :
    (now : ℕ) (ts : List Task) → total_runs (map (release now) ts) ≡ total_runs ts
total_runs-release now [] = refl
total_runs-release now (t ∷ ts) = ap₂ ◌+◌ (run_count-release now t) (total_runs-release now ts)

pub total_runs-set :
    (ts : List Task) (i : ℕ) (v : Task) {t : Task}
    → get_elem? ts i ≡ some t
    → total_runs (set ts i v) + t.run_count ≡ total_runs ts + v.run_count
total_runs-set [] i v h = cc
total_runs-set (x ∷ ts) zero v h = ground arith
total_runs-set (x ∷ ts) (suc i) v h = omega (arith, total_runs-set ts i v h)

pub total_runs-append :
    (ts : List Task) (v : Task) → total_runs (ts ++ (v ∷ [])) ≡ total_runs ts + v.run_count
total_runs-append [] v = omega arith
total_runs-append (x ∷ ts) v = omega (arith, total_runs-append ts v)

pub AllReady-set :
    (ts : List Task) (i : ℕ) (v : Task) → v.state ≡ ready → AllReady ts → AllReady (set ts i v)
AllReady-set [] i v h a = a
AllReady-set (x ∷ ts) zero v h a = (h, a.1)
AllReady-set (x ∷ ts) (suc i) v h a = (a.0, AllReady-set ts i v h a.1)

pub AllReady-append :
    (ts : List Task) (v : Task) → v.state ≡ ready → AllReady ts → AllReady (ts ++ (v ∷ []))
AllReady-append [] v h a = (h, a)
AllReady-append (x ∷ ts) v h a = (a.0, AllReady-append ts v h a.1)

-- The task's record after a run at time `now`.
abbrev pub ran : ℕ → Task → Task
ran now t = record t { state = ready; last_run = now; run_count = add32 t.run_count 1 }

finish-started :
    (now : ℕ) (t : Task)
    → now < 4294967296
    → finish now (record t { state = running; last_run = now; run_count = add32 t.run_count 1 })
      ≡ ran now t
unfolding finish
finish-started now t h = ground arith

module _ (run_func : ℕ → ℕ → Scheduler → Scheduler)
    (quiet : (f a : ℕ) (s : Scheduler) → run_func f a s ≡ s) where
  pub dispatch_quiet :
      (i : ℕ) (t : Task) (s : Scheduler)
      → s.sys_time_ms < 4294967296
      → get_elem? s.tasks i ≡ some t
      → dispatch run_func i t s ≡ record s { tasks = set s.tasks i (ran s.sys_time_ms t) }
  unfolding dispatch
  dispatch_quiet i t s w h =
      let started : Task = record t {
        state = running;
        last_run = s.sys_time_ms;
        run_count = add32 t.run_count 1;
      } in
      rw (
        quiet,
        set-set,
        get_or_of_some (set s.tasks i started) i started
            (get_elem?-set_self s.tasks i started (lt-length_of_some s.tasks i h)),
        finish-started s.sys_time_ms t w,
      )

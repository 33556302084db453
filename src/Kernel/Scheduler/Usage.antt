-- ===== src/Kernel/Scheduler/Usage.antt =====
-- scheduler_get_cpu_usage of src/kernel/scheduler.c.
use embed_rtos.Base.{
  ℕ, suc, ◌+◌, ◌≤◌, ◌<◌, ◌≡◌, refl, true, Option, none, some, List, [], ◌∷◌, arith, if◌then◌else◌,
  ◌==◌, add32, Bool-cases, inl, inr,
}
use embed_rtos.Base.Float.{Float, Laws, of_nat, ◌⊖◌, ◌⊗◌, ◌⊘◌}
use embed_rtos.Kernel.Scheduler.{
  Scheduler, Task, is_ready, init, tick, run_next, dispatch, add_task,
}
use embed_rtos.Kernel.Scheduler.Accounts.{Event, ticked, added, after}

pub cpu_usage : {F : Type 0} ⦃f : Float F⦄ → Scheduler → F
cpu_usage s =
    if s.tick_count == 0
    then of_nat 0
    else of_nat 100 ⊗ (of_nat 1 ⊖ of_nat s.idle_time ⊘ of_nat s.tick_count)

-- The ticks among some events.
unfoldable pub ticks_among : List Event → ℕ
ticks_among [] = 0
ticks_among (ticked ∷ es) = suc (ticks_among es)
ticks_among (added b f a p d n ∷ es) = ticks_among es

module _ {F : Type 0} ⦃f : Float F⦄ (l : Laws F) where
  pub cpu_usage-range :
      (s : Scheduler)
      → s.idle_time ≤ s.tick_count
      → s.tick_count < 4294967296
      → (f.le (of_nat 0) (cpu_usage s) ≡ true) × (f.le (cpu_usage s) (of_nat 100) ≡ true)
  unfolding cpu_usage
  cpu_usage-range s h small = elim (Bool-cases (s.tick_count == 0)) [
    | inl e ↦ rw e (l.of_nat_mono (omega arith), l.of_nat_mono (omega arith))
    | inr e ↦
        let share =
          l.quotient_unit (l.of_nat_mono (omega arith)) (l.of_nat_mono h)
            (l.of_nat_pos (ground arith)) (l.of_nat-IsFinite small) in
        let rest = l.rest_unit share.0 share.1 in
        rw (e, l.mul_comm (of_nat 100) (of_nat 1 ⊖ of_nat s.idle_time ⊘ of_nat s.tick_count))
          (l.part_nonneg rest.0 rest.1 (l.of_nat-IsFinite (omega arith))
            (l.of_nat_mono (omega arith)))
  ]

module _ (run_func : ℕ → ℕ → Scheduler → Scheduler)
    (quiet : (f a : ℕ) (s : Scheduler) → run_func f a s ≡ s) where
  -- No more ticks are idle than have been counted.
  abbrev Counted : ℕ → Scheduler → Type 0
  Counted n s = (s.idle_time ≤ s.tick_count) × (s.tick_count ≡ n)

  run_next-Counted :
      (next : Option (ℕ × Task)) (n : ℕ) (s : Scheduler)
      → n < 4294967295
      → s.idle_time ≤ n
      → s.tick_count ≡ n + 1
      → Counted (n + 1) (run_next run_func next s)
  unfolding run_next dispatch
  run_next-Counted none n s small h e = ground arith
  run_next-Counted (some (i, t)) n s small h e = elim (Bool-cases (is_ready t.state)) [
    | inl r ↦ rw (r, quiet) (omega arith, e)
    | inr r ↦ rw r (omega arith, e)
  ]

  after-Counted :
      (es : List Event) (n : ℕ) (s : Scheduler)
      → n + ticks_among es < 4294967296
      → Counted n s
      → Counted (n + ticks_among es) (after run_func es s)
  unfolding ticks_among after tick add_task
  after-Counted [] n s small h = (omega arith, omega arith)
  after-Counted (ticked ∷ es) n s small h =
      rw (let e : n + suc (ticks_among es) ≡ n + 1 + ticks_among es = omega arith in e) (
        after-Counted es (n + 1) (tick run_func s) (omega arith)
          (run_next-Counted _ n _ (omega arith) (omega arith) (omega arith)))
  after-Counted (added b f a p d m ∷ es) n s small h =
      after-Counted es n (add_task b f a p d m s).1 small (ground arith)

  -- In an arithmetic with the laws of floats: from scheduler_init, after any added tasks and fewer
  -- than 2 ^ 32 ticks, with task functions that leave the scheduler alone, scheduler_get_cpu_usage
  -- returns a number between 0 and 100.
  pub reachable-cpu_usage :
      {F : Type 0} ⦃f : Float F⦄
      → Laws F
      → (es : List Event) → ticks_among es < 4294967296
      → (f.le (of_nat 0) (cpu_usage (after run_func es init)) ≡ true)
        × (f.le (cpu_usage (after run_func es init)) (of_nat 100) ≡ true)
  unfolding init
  reachable-cpu_usage l es small =
      let c = after-Counted es 0 init (omega arith) (omega arith, refl) in
      cpu_usage-range l (after run_func es init) c.0 (omega (arith, c))

  run_next-tick_count :
      (next : Option (ℕ × Task)) (s : Scheduler)
      → (run_next run_func next s).tick_count ≡ s.tick_count
  unfolding run_next dispatch
  run_next-tick_count none s = refl
  run_next-tick_count (some (i, t)) s = elim (Bool-cases (is_ready t.state)) [
    | inl r ↦ rw (r, quiet) refl
    | inr r ↦ rw r refl
  ]

  pub tick-tick_count : (s : Scheduler) → (tick run_func s).tick_count ≡ add32 s.tick_count 1
  unfolding tick
  tick-tick_count s = run_next-tick_count _ _

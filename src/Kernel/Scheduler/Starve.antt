-- ===== src/Kernel/Scheduler/Starve.antt =====
-- Ticks of src/kernel/scheduler.c over time, with every task ready.
use embed_rtos.Base.{
  ℕ, zero, suc, ◌+◌, ◌<◌, ◌≡◌, refl, sym, subst, ap, ◌∙◌, ◌≢◌, inl, inr, Option, none, some, List,
  arith, set, get_elem?, u32, add32, get_elem?-set_self, get_elem?-set_ne, lt-length_of_some,
  ==_iff, Bool-cases, ◌==◌,
}
use embed_rtos.Kernel.Scheduler.{Task, Scheduler, run_next, tick, find_highest_priority_task}
use embed_rtos.Kernel.Scheduler.Pick.{
  IsHighest, IsHighest-unique, Finds, find_highest_priority_task-Finds,
}
use embed_rtos.Kernel.Scheduler.Ticks.{AllReady, ran, map-release, AllReady-set, dispatch_quiet}

Finds-IsHighest :
    {tasks : List Task} {i : ℕ} {t : Task} (r : Option (ℕ × Task))
    → IsHighest tasks i t
    → Finds tasks r
    → r ≡ some (i, t)
Finds-IsHighest {i} {t} none h f = absurd (f i t h.at h.is_ready)
Finds-IsHighest {tasks} {i} {t} (some (j, u)) h f =
    let e : j ≡ i = IsHighest-unique f h in
    let same : some u ≡ some t = sym f.at ∙ ap (get_elem? tasks) e ∙ h.at in cc

-- A run changes neither the priority nor the state.
IsHighest-set :
    {tasks : List Task} {i : ℕ} {t : Task} (now : ℕ)
    → IsHighest tasks i t
    → IsHighest (set tasks i (ran now t)) i (ran now t)
IsHighest-set {tasks} {i} {t} now h = record {
  at = get_elem?-set_self tasks i (ran now t) (lt-length_of_some tasks i h.at);
  is_ready = refl;
  least = λ j u e r. elim (Bool-cases (i == j)) [
    | inl p ↦
        let same : some u ≡ some (ran now t) =
          sym e
          ∙ ap (get_elem? (set tasks i (ran now t))) (sym ((==_iff i j).0 p))
          ∙ get_elem?-set_self tasks i (ran now t) (lt-length_of_some tasks i h.at) in
        ground arith
    | inr p ↦ h.least j u (sym (get_elem?-set_ne tasks i j (ran now t) (ground arith)) ∙ e) r
  ];
  first =
      λ j u e r l. h.first j u (sym (get_elem?-set_ne tasks i j (ran now t) (omega arith)) ∙ e) r l;
}

-- Between two schedulers only task `i` has run, `n` times, and there was no idle tick.
abbrev pub OnlyRan : ℕ → ℕ → Task → Scheduler → Scheduler → Type 0
OnlyRan n i t before later =
    ((j : ℕ) → j ≢ i → get_elem? later.tasks j ≡ get_elem? before.tasks j)
    × ((u : Task) × (get_elem? later.tasks i ≡ some u) × (u.run_count ≡ u32 (t.run_count + n)))
    × (later.idle_time ≡ before.idle_time)

module _ (run_func : ℕ → ℕ → Scheduler → Scheduler) where
  pub ticks : ℕ → Scheduler → Scheduler
  ticks zero s = s
  ticks (suc n) s = ticks n (tick run_func s)

module _ (run_func : ℕ → ℕ → Scheduler → Scheduler)
    (quiet : (f a : ℕ) (s : Scheduler) → run_func f a s ≡ s) where
  tick_highest :
      (s : Scheduler) {i : ℕ} {t : Task}
      → AllReady s.tasks
      → IsHighest s.tasks i t
      → tick run_func s ≡ record s {
        tick_count = add32 s.tick_count 1;
        sys_time_ms = add32 s.sys_time_ms 1;
        tasks = set s.tasks i (ran (add32 s.sys_time_ms 1) t);
      }
  unfolding tick run_next
  tick_highest s {i} {t} a h =
      let now : ℕ = add32 s.sys_time_ms 1 in
      rw
        (
          map-release now s.tasks a,
          Finds-IsHighest (find_highest_priority_task s.tasks) h
              (find_highest_priority_task-Finds s.tasks),
          h.is_ready,
        )
        (dispatch_quiet run_func quiet i t
          (record s { tick_count = add32 s.tick_count 1; sys_time_ms = now }) (omega arith) h.at)

  -- With every task ready and task functions that leave the scheduler alone, `n` ticks run the task
  -- that has the highest priority `n` times, whatever its period, and no other task at all: the
  -- others' records and the idle time are as before.
  pub starvation :
      (n : ℕ) (s : Scheduler) {i : ℕ} {t : Task}
      → AllReady s.tasks
      → IsHighest s.tasks i t
      → t.run_count < 4294967296
      → OnlyRan n i t s (ticks run_func n s)
  unfolding ticks
  starvation zero s {i} {t} a h w = (λ j ne. refl, (t, h.at, omega arith), refl)
  starvation (suc n) s {i} {t} a h w =
      let now : ℕ = add32 s.sys_time_ms 1 in
      let next : Scheduler = record s {
        tick_count = add32 s.tick_count 1;
        sys_time_ms = now;
        tasks = set s.tasks i (ran now t);
      } in
      let rest =
        starvation n next {i = i} {t = ran now t} (AllReady-set s.tasks i (ran now t) refl a)
          (IsHighest-set now h) (omega arith) in
      subst (OnlyRan (suc n) i t s) (sym (ap (ticks run_func n) (tick_highest s a h))) (
        λ j ne. rest.0 j ne ∙ get_elem?-set_ne s.tasks i j (ran now t) (λ p. ne (sym p)),
        (rest.1.0, rest.1.1, omega (arith, rest.1.2)),
        rest.2,
      )

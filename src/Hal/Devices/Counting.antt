-- ===== src/Hal/Devices/Counting.antt =====
-- The counter of a running timer.
use native.Mathlib.Nat.{mod-eq_of_lt, mod-add-mod, mod-lt, mod_self}
use embed_rtos.Base.{
  ℕ, zero, suc, ◌+◌, ◌%◌, ◌<◌, ◌≤◌, ◌≡◌, refl, sym, ap, ◌∙◌, inl, inr, Bool-cases, true, Option,
  some, arith, ltb, add32, if◌then◌else◌,
}
use embed_rtos.Hal.Devices.{Timer, timer_start, timer_get_count}

-- The timer after `n` calls of `hal_timer_get_count`.
pub reads : ℕ → Option Timer → Option Timer
reads zero t = t
reads (suc n) t = reads n (timer_get_count t).1

next_count : (c m : ℕ) → c ≤ m → (if ltb m (c + 1) then 0 else c + 1) ≡ (c + 1) % (m + 1)
next_count c m h = elim (Bool-cases (ltb m (c + 1))) [
  | inl e ↦
      let full : c ≡ m = ground arith in
      rw e (sym (ap (λ k. (k + 1) % (m + 1)) full ∙ mod_self (m + 1)))
  | inr e ↦ rw e (sym (mod-eq_of_lt (ground arith)))
]

one_read :
    (t : Timer)
    → t.running ≡ true
    → t.counter ≤ t.period
    → t.period < 4294967295
    → (timer_get_count (some t)).1 ≡ some (record t { counter = (t.counter + 1) % (t.period + 1) })
unfolding timer_get_count
one_read t r h w =
    let step : add32 t.counter 1 ≡ t.counter + 1 = omega arith in
    rw (r, step, next_count t.counter t.period h) refl

reads-from :
    (n : ℕ) (t : Timer)
    → t.running ≡ true
    → t.counter ≤ t.period
    → t.period < 4294967295
    → reads n (some t) ≡ some (record t { counter = (t.counter + n) % (t.period + 1) })
unfolding reads
reads-from zero t r h w =
    let same : (t.counter + 0) % (t.period + 1) ≡ t.counter =
      ap (λ k. k % (t.period + 1)) (omega arith) ∙ mod-eq_of_lt (omega arith) in
    rw same refl
reads-from (suc n) t r h w =
    let c : ℕ = (t.counter + 1) % (t.period + 1) in
    rw (one_read t r h w) (
      reads-from n (record t { counter = c }) r
        (let l : c < t.period + 1 = mod-lt (t.counter + 1) (omega arith) in omega arith) w
      ∙ ap (λ k. some (record t { counter = k }))
          (mod-add-mod (t.counter + 1) (t.period + 1) n
            ∙ ap (λ k. k % (t.period + 1)) (omega arith)))

-- A timer that is started and then read `n` times stands at `n` modulo one more than its period,
-- and runs on, where the period is below the greatest `uint32_t`.
pub start-reads :
    (n : ℕ) (t : Timer)
    → t.period < 4294967295
    → reads n (timer_start (some t))
      ≡ some (record t { running = true; counter = n % (t.period + 1) })
unfolding timer_start
start-reads n t w =
    reads-from n (record t { running = true; counter = 0 }) refl (omega arith) w
    ∙ ap (λ k. some (record t { running = true; counter = k % (t.period + 1) })) (omega arith)

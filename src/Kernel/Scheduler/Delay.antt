-- ===== src/Kernel/Scheduler/Delay.antt =====
-- The wait of `scheduler_delay`.
use embed_rtos.Base.{ℕ, zero, suc, ◌+◌, ◌<◌, ◌≡◌, refl, none, some, arith, add32, lt→ltb}
use embed_rtos.Kernel.Scheduler.{Scheduler, delay_loop, delay}

delay_loop-stuck : (fuel e : ℕ) (s : Scheduler) → s.sys_time_ms < e → delay_loop fuel e s ≡ none
unfolding delay_loop
delay_loop-stuck zero e s h = refl
delay_loop-stuck (suc fuel) e s h =
    rw (lt→ltb s.sys_time_ms e h, delay_loop) (delay_loop-stuck fuel e s h)

-- A delay of a positive time whose end does not pass `uint32_t` never returns, however long it is
-- watched: the loop waits for `sys_time_ms`, which only a tick advances, and no tick runs in it. A
-- delay of zero returns at once and changes nothing.
pub delay_stuck :
    (fuel ms : ℕ) (s : Scheduler)
    → 0 < ms
    → s.sys_time_ms + ms < 4294967296
    → (delay fuel ms s ≡ none) × (delay (suc fuel) 0 s ≡ some s)
unfolding delay delay_loop
delay_stuck fuel ms s pos fits =
    (delay_loop-stuck fuel (add32 s.sys_time_ms ms) s (omega arith), ground arith)

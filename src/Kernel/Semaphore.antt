-- ===== src/Kernel/Semaphore.antt =====
-- src/kernel/semaphore.c and semaphore.h: a counting semaphore. A `semaphore_t*` is an `Option`.
-- The wait of a failed `semaphore_take` changes nothing, since nothing else runs during it.
pub mod Counts
mod Examples
use embed_rtos.Base.{ℕ, Bool, true, false, Option, none, some, ltb, if◌then◌else◌, add32, sub32}

pub record Semaphore : Type 0 where
  pub count : ℕ
  pub max_count : ℕ

pub init : ℕ → ℕ → Semaphore
init initial_count max_count = record { count = initial_count; max_count = max_count }

-- `timeout_ms` only sets how long the call sleeps before it fails.
pub try_take : Option Semaphore → ℕ → Bool × Option Semaphore
try_take none timeout_ms = (false, none)
try_take (some s) timeout_ms =
    if ltb 0 s.count then (true, some (record s { count = sub32 s.count 1 })) else (false, some s)

pub give : Option Semaphore → Bool × Option Semaphore
give none = (false, none)
give (some s) =
    if ltb s.count s.max_count
    then (true, some (record s { count = add32 s.count 1 }))
    else (false, some s)

pub get_count : Option Semaphore → ℕ
get_count none = 0
get_count (some s) = s.count

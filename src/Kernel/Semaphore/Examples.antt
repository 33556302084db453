-- ===== src/Kernel/Semaphore/Examples.antt =====
-- A semaphore of maximum 2 with one unit to take.
use embed_rtos.Base.{◌≡◌, ◌+◌, ◌≤◌, List, [], ◌∷◌, arith}
use embed_rtos.Kernel.Semaphore.{Semaphore, init}
use embed_rtos.Kernel.Semaphore.Counts.{Call, take_for, release, IsValid, Tally, run, run_accounts}

abbrev half : Semaphore
half = record { count = 1; max_count = 2 }

half-IsValid : IsValid half
half-IsValid = ground arith

abbrev calls : List Call
calls = take_for 5 ∷ take_for 0 ∷ release ∷ release ∷ release ∷ take_for 1 ∷ []

abbrev tally : Tally
tally = run (record { sem = init 1 2; taken = 0; given = 0 }) calls

run_accounts_example :
    (tally.sem.count + tally.taken ≡ 1 + tally.given)
    × (tally.sem.count ≤ 2)
    × (tally.taken ≤ 1 + tally.given)
run_accounts_example = run_accounts 1 2 calls (omega arith) (omega arith)

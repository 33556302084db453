-- ===== src/Kernel/Semaphore/Counts.antt =====
-- What the count of a semaphore means over any sequence of calls.
use embed_rtos.Base.{
  ℕ, ◌+◌, ◌≤◌, ◌<◌, ◌≡◌, refl, Bool, true, Option, none, some, List, [], ◌∷◌, arith, if◌then◌else◌,
}
use embed_rtos.Kernel.Semaphore.{Semaphore, init, try_take, give}

pub data Call : Type 0 where
  take_for : ℕ → Call
  release : Call

pub call : Call → Semaphore → Bool × Option Semaphore
unfolding try_take give
call (take_for t) s = try_take (some s) t
call release s = give (some s)

-- The count lies within the maximum, which is a `uint32_t`.
pub record IsValid (s : Semaphore) : Type 0 where
  pub within : s.count ≤ s.max_count
  pub word : s.max_count < 4294967296

-- The state after the calls, with the numbers of successful takes and gives.
pub record Tally : Type 0 where
  pub sem : Semaphore
  pub taken : ℕ
  pub given : ℕ

one_if : Bool → ℕ
one_if b = if b then 1 else 0

step : Tally → Call → Tally
unfolding call one_if
step t (take_for ms) =
    let r = call (take_for ms) t.sem in
    record {
      sem = elim r.1 [ none ↦ t.sem | some s ↦ s ];
      taken = t.taken + one_if r.0;
      given = t.given;
    }
step t release =
    let r = call release t.sem in
    record {
      sem = elim r.1 [ none ↦ t.sem | some s ↦ s ];
      taken = t.taken;
      given = t.given + one_if r.0;
    }

pub run : Tally → List Call → Tally
run t [] = t
run t (c ∷ cs) = run (step t c) cs

record Balanced (initial max_count : ℕ) (t : Tally) : Type 0 where
  valid : IsValid t.sem
  same_max : t.sem.max_count ≡ max_count
  balance : t.sem.count + t.taken ≡ initial + t.given

step-Balanced : {i m : ℕ} {t : Tally} (c : Call) → Balanced i m t → Balanced i m (step t c)
unfolding step
step-Balanced (take_for ms) b = ground arith
step-Balanced release b = ground arith

run-Balanced : {i m : ℕ} (t : Tally) (cs : List Call) → Balanced i m t → Balanced i m (run t cs)
unfolding run
run-Balanced t [] b = b
run-Balanced t (c ∷ cs) b = run-Balanced (step t c) cs (step-Balanced c b)

-- From an initial count within the maximum, after any calls: the count is the initial count plus
-- the successful gives less the successful takes, it stays within the maximum, and so the takes
-- never pass the gives by more than the initial count.
pub run_accounts :
    (initial max_count : ℕ) (cs : List Call)
    → initial ≤ max_count
    → max_count < 4294967296
    → let t = run (record { sem = init initial max_count; taken = 0; given = 0 }) cs in
      (t.sem.count + t.taken ≡ initial + t.given)
      × (t.sem.count ≤ max_count)
      × (t.taken ≤ initial + t.given)
unfolding init
run_accounts i m cs h w =
    let start : Tally = record { sem = init i m; taken = 0; given = 0 } in
    let b : Balanced i m (run start cs) =
      run-Balanced start cs
        (record { valid = record { within = h; word = w }; same_max = refl; balance = refl }) in
    omega (arith, b)

-- On a valid semaphore whose count is positive and below the maximum, a take and a give both succeed
-- and each undoes the other, in either order.
pub take-give :
    {s : Semaphore} (t : ℕ)
    → IsValid s
    → 0 < s.count
    → s.count < s.max_count
    → ((try_take (some s) t).0 ≡ true)
      × (give (try_take (some s) t).1 ≡ (true, some s))
      × ((give (some s)).0 ≡ true)
      × (try_take (give (some s)).1 t ≡ (true, some s))
unfolding try_take give
take-give t v pos low = (ground arith, ground arith, ground arith, ground arith)

-- ===== src/Simulator/Display.antt =====
-- simulator/visualization.c: the progress bars, the list of steps and the bars of the dashboard. A
-- cell of a bar is the code of its character; an `int` that would overflow, a division by zero and a
-- conversion of a float that no `int` holds are `none`.
pub mod Bars
pub mod Load
mod Examples
use embed_rtos.Base.{
  ℕ, zero, suc, Bool, not, ◌+◌, ◌*◌, ◌/◌, Option, none, some, List, [], ◌∷◌, ◌>>=◌, if◌then◌else◌,
  ltb, ◌==◌,
}
use embed_rtos.Base.Int.{ℤ, pos, ltb_ℤ}
use embed_rtos.Base.Float.{Float, of_nat, ◌⊗◌, ◌⊘◌}

-- The loop over the cells of a bar, from cell `i` on, with what stands at each.
pub cells : {A : Type 0} → (ℕ → A) → ℕ → ℕ → List A
cells mark i zero = []
cells mark i (suc n) = mark i ∷ cells mark (i + 1) n

-- An `int` that is not negative.
abbrev pub int : ℕ → Option ℕ
int n = if ltb n 2147483648 then some n else none

abbrev pub quotient : ℕ → ℕ → Option ℕ
quotient n d = if d == 0 then none else some (n / d)

pub record TestProgress : Type 0 where
  pub bar : List ℕ
  pub percent : ℕ

-- `=` before the progress, `>` at it, blanks behind it.
pub test_mark : ℕ → ℕ → ℕ
test_mark progress i = if ltb i progress then b'=' else if i == progress then b'>' else b' '

pub display_test_progress : ℕ → ℕ → Option TestProgress
display_test_progress current total = int (current * 30) >>= λ scaled.
    quotient scaled total >>= λ progress. int (current * 100) >>= λ hundreds.
    quotient hundreds total >>= λ percent.
    some (record { bar = cells (test_mark progress) 0 30; percent = percent })

-- The mark before a step: done, current or to come.
pub data StepMark : Type 0 where
  step_done step_current step_to_come : StepMark

pub record UpdateProgress : Type 0 where
  pub bar : List ℕ
  pub steps : List StepMark
  pub complete : Bool

pub step_mark : ℕ → ℕ → StepMark
step_mark current_step i =
    if ltb i current_step
    then step_done
    else if i == current_step
    then step_current
    else step_to_come

-- A full block, U+2588, or a blank.
pub block_mark : ℕ → ℕ → ℕ
block_mark filled i = if ltb i filled then 0x2588 else b' '

-- The phase is only printed.
pub display_ota_update : ℕ → Option UpdateProgress
display_ota_update progress = int (progress * 60) >>= λ scaled. int (progress * 6) >>= λ steps.
    some (record {
      bar = cells (block_mark (scaled / 100)) 0 60;
      steps = cells (step_mark (steps / 100)) 0 6;
      complete = not (ltb progress 100);
    })

-- What display_dashboard computes from its arguments; the rest of its screen shows them as they are.
pub record Dashboard (F : Type 0) : Type 0 where
  pub used_kb : ℕ
  pub total_kb : ℕ
  pub cpu_bar : List ℕ
  pub mem_percent : F
  pub memory_bar : List ℕ

-- The block or the blank of a cell, where `filled` is an `int`.
pub fill_mark : ℤ → ℕ → ℕ
fill_mark filled i = if ltb_ℤ (pos i) filled then 0x2588 else b' '

module _ {F : Type 0} ⦃f : Float F⦄ where
  -- `filled = (int)(percent * bar_width / 100.0f)` and the loop over the cells.
  pub percent_bar : F → Option (List ℕ)
  percent_bar percent =
      f.to_int (percent ⊗ of_nat 50 ⊘ of_nat 100) >>= λ filled. some (cells (fill_mark filled) 0 50)

  pub display_dashboard : F → ℕ → ℕ → Option (Dashboard F)
  display_dashboard cpu_usage memory_used memory_total =
      let mem_percent = of_nat memory_used ⊗ of_nat 100 ⊘ of_nat memory_total in
      percent_bar cpu_usage >>= λ cpu_bar. percent_bar mem_percent >>= λ memory_bar. some (record {
        used_kb = memory_used / 1024;
        total_kb = memory_total / 1024;
        cpu_bar = cpu_bar;
        mem_percent = mem_percent;
        memory_bar = memory_bar;
      })

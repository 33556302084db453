-- ===== src/Simulator/Display/Bars.antt =====
-- How the bars of simulator/visualization.c are filled.
use embed_rtos.Base.{
  ℕ, zero, suc, ◌+◌, ◌-◌, ◌*◌, ◌/◌, ◌≤◌, ◌<◌, ◌≡◌, refl, ap, ap₂, ◌∙◌, false, not, inl, inr, some,
  List, ◌∷◌, ◌++◌, ◌>>=◌, arith, replicate, if◌then◌else◌, ltb, ◌==◌, Bool-cases,
}
use native.Mathlib.Nat
use embed_rtos.Simulator.Display.{
  cells, int, test_mark, step_mark, block_mark, step_done, step_current, step_to_come,
  display_test_progress, display_ota_update,
}

module _ {A : Type 0} where
  cells-add :
      (mark : ℕ → A) (i m n : ℕ) → cells mark i (m + n) ≡ cells mark i m ++ cells mark (i + m) n
  unfolding cells
  cells-add mark i zero n = ap₂ (λ j k. cells mark j k) (omega arith) (omega arith)
  cells-add mark i (suc m) n = rw (let e : suc m + n ≡ suc (m + n) = omega arith in e) (
      ap (λ xs. mark i ∷ xs)
        (cells-add mark (i + 1) m n
          ∙ ap (λ j. cells mark (i + 1) m ++ cells mark j n) (omega arith)))

  -- A stretch of cells that are all marked alike.
  cells-replicate :
      (mark : ℕ → A) (a : A) (i n : ℕ)
      → ((k : ℕ) → i ≤ k → k < i + n → mark k ≡ a)
      → cells mark i n ≡ replicate n a
  unfolding cells
  cells-replicate mark a i zero same = refl
  cells-replicate mark a i (suc n) same =
      ap₂ ◌∷◌ (same i (omega arith) (omega arith))
        (cells-replicate mark a (i + 1) n (λ k h1 h2. same k (omega arith) (omega arith)))

  -- `n` cells with a mark `b` at cell `p`, `a` before it and `c` behind it.
  pub marked : A → A → A → ℕ → ℕ → List A
  marked a b c p n =
      if ltb p n then replicate p a ++ (b ∷ replicate (n - p - 1) c) else replicate n a

  cells-marked :
      (mark : ℕ → A) (a b c : A) (p n : ℕ)
      → p ≤ n
      → ((k : ℕ) → k < p → mark k ≡ a)
      → (mark p ≡ b)
      → ((k : ℕ) → p < k → mark k ≡ c)
      → cells mark 0 n ≡ marked a b c p n
  unfolding marked cells
  cells-marked mark a b c p n le before at after = elim (Bool-cases (ltb p n)) [
    | inl e ↦
        let lt : p < n = ground arith in
        rw e (
          ap (cells mark 0) (let s : n ≡ p + (1 + (n - p - 1)) = omega arith in s)
          ∙ cells-add mark 0 p (1 + (n - p - 1))
          ∙ ap₂ ◌++◌ (cells-replicate mark a 0 p (λ k h1 h2. before k (omega arith))) (
              ap₂ (cells mark) (let z : 0 + p ≡ p = omega arith in z)
                (let z : 1 + (n - p - 1) ≡ suc (n - p - 1) = omega arith in z)
              ∙ ap₂ ◌∷◌ at
                  (cells-replicate mark c (p + 1) (n - p - 1) (λ k h1 h2. after k (omega arith)))))
    | inr e ↦ rw e (cells-replicate mark a 0 n (λ k h1 h2. before k (ground arith)))
  ]

test_mark-marked : (p : ℕ) → p ≤ 30 → cells (test_mark p) 0 30 ≡ marked b'=' b'>' b' ' p 30
unfolding test_mark
test_mark-marked p h =
    cells-marked (test_mark p) b'=' b'>' b' ' p 30 h (λ k l. ground arith) (ground arith)
      (λ k l. ground arith)

step_mark-marked :
    (s : ℕ) → s ≤ 6 → cells (step_mark s) 0 6 ≡ marked step_done step_current step_to_come s 6
unfolding step_mark
step_mark-marked s h =
    cells-marked (step_mark s) step_done step_current step_to_come s 6 h (λ k l. ground arith)
      (ground arith) (λ k l. ground arith)

-- A bar of `n` cells that is filled up to cell `filled`.
abbrev pub filled_bar : ℕ → ℕ → List ℕ
filled_bar filled n = replicate filled 0x2588 ++ replicate (n - filled) b' '

pub bar-replicate :
    (mark : ℕ → ℕ) (filled n : ℕ)
    → filled ≤ n
    → ((k : ℕ) → k < filled → mark k ≡ 0x2588)
    → ((k : ℕ) → filled ≤ k → mark k ≡ b' ')
    → cells mark 0 n ≡ filled_bar filled n
bar-replicate mark filled n h before after =
    ap (cells mark 0) (let s : n ≡ filled + (n - filled) = omega arith in s)
    ∙ cells-add mark 0 filled (n - filled)
    ∙ ap₂ ◌++◌ (cells-replicate mark 0x2588 0 filled (λ k h1 h2. before k (omega arith)))
        (cells-replicate mark b' ' (0 + filled) (n - filled) (λ k h1 h2. after k (omega arith)))

block_mark-replicate :
    (filled : ℕ) → filled ≤ 60 → cells (block_mark filled) 0 60 ≡ filled_bar filled 60
unfolding block_mark
block_mark-replicate filled h =
    bar-replicate (block_mark filled) filled 60 h (λ k l. ground arith) (λ k l. ground arith)

-- For at most all of the tests, of which there are fewer than 2 ^ 31 / 100, display_test_progress
-- divides by no zero and overflows nowhere; its bar of thirty cells is filled up to the part of the
-- tests that are done, with one arrow behind that if any are left, and the percentage is at most 100.
pub display_test_progress-bar :
    (current total : ℕ)
    → 0 < total
    → current ≤ total
    → current < 21474836
    → (display_test_progress current total
        ≡ some (record {
          bar = marked b'=' b'>' b' ' (current * 30 / total) 30;
          percent = current * 100 / total;
        }))
      × (current * 100 / total ≤ 100)
unfolding display_test_progress
display_test_progress-bar current total pos h small =
    let part : current * 30 / total ≤ 30 = Nat.div-le_of_le-mul total (Nat.mul-le-mul_right 30 h) in
    let nonzero : (total == 0) ≡ false = ground arith in
    let no_overflow : int (current * 30) ≡ some (current * 30) = ground arith in
    let none_at_all : int (current * 100) ≡ some (current * 100) = ground arith in
    (
      rw
          (
            no_overflow,
            ◌>>=◌,
            nonzero,
            ◌>>=◌,
            none_at_all,
            ◌>>=◌,
            test_mark-marked (current * 30 / total) part,
          )
          refl,
      Nat.div-le_of_le-mul total (Nat.mul-le-mul_right 100 h),
    )

-- For a progress of at most 100, display_ota_update fills its bar of sixty cells up to the progress,
-- and marks the steps before the one that the progress is at as done, that one as current and the
-- others as to come; the update is shown as complete where all six steps are done.
pub display_ota_update-steps :
    (progress : ℕ)
    → progress ≤ 100
    → (display_ota_update progress
        ≡ some (record {
          bar = replicate (progress * 60 / 100) 0x2588 ++ replicate (60 - progress * 60 / 100) b' ';
          steps = marked step_done step_current step_to_come (progress * 6 / 100) 6;
          complete = progress * 6 / 100 == 6;
        }))
unfolding display_ota_update
display_ota_update-steps progress h =
    let scaled : int (progress * 60) ≡ some (progress * 60) = ground arith in
    let steps : int (progress * 6) ≡ some (progress * 6) = ground arith in
    let complete : not (ltb progress 100) ≡ (progress * 6 / 100 == 6) = ground arith in
    rw
      (
        scaled,
        ◌>>=◌,
        steps,
        ◌>>=◌,
        block_mark-replicate (progress * 60 / 100) (omega arith),
        step_mark-marked (progress * 6 / 100) (omega arith),
        complete,
      )
      refl

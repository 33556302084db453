-- ===== src/Simulator/Display/Load.antt =====
-- The bars of display_dashboard of simulator/visualization.c, at the load of the scheduler.
use embed_rtos.Base.{
  Bool-cases, inl, inr, false, some-injective, leb, sym, ◌∙◌, ◌+◌, ℕ, ◌/◌, ◌≤◌, ◌<◌, ◌≡◌, refl,
  true, Option, some, ◌>>=◌, arith, subst,
}
use embed_rtos.Base.Int.{pos}
use embed_rtos.Base.Float.{Float, Laws, of_nat, ◌≤ᶠ◌, ◌<ᶠ◌, ◌⊗◌, ◌⊘◌}
use embed_rtos.Kernel.Scheduler.{Scheduler}
use embed_rtos.Simulator.Display.{cells, Dashboard, fill_mark, percent_bar, display_dashboard}
use embed_rtos.Simulator.Display.Bars.{filled_bar, bar-replicate}

fill_mark-replicate :
    (filled : ℕ) → filled ≤ 50 → cells (fill_mark (pos filled)) 0 50 ≡ filled_bar filled 50
unfolding fill_mark
fill_mark-replicate filled h =
    bar-replicate (fill_mark (pos filled)) filled 50 h (λ k l. ground arith) (λ k l. ground arith)

-- `k` is the number of cells of the fifty that `percent` fills: the whole part of its half.
pub record IsCells {F : Type 0} ⦃f : Float F⦄ (percent : F) (k : ℕ) : Type 0 where
  pub fits : k ≤ 50
  pub reached : of_nat k ≤ᶠ percent ⊗ of_nat 50 ⊘ of_nat 100
  pub not_passed : percent ⊗ of_nat 50 ⊘ of_nat 100 <ᶠ of_nat (k + 1)

-- A dashboard at the load `cpu` and at `used` bytes of `total`.
pub record IsDrawn {F : Type 0} ⦃f : Float F⦄ (cpu : F) (used total : ℕ) (d : Option (Dashboard F))
    : Type 0 where
  pub cpu_cells : ℕ
  pub memory_cells : ℕ
  pub returns :
      d
      ≡ some (record {
        used_kb = used / 1024;
        total_kb = total / 1024;
        cpu_bar = filled_bar cpu_cells 50;
        mem_percent = of_nat used ⊗ of_nat 100 ⊘ of_nat total;
        memory_bar = filled_bar memory_cells 50;
      })
  pub cpu_filled : IsCells {F = F} cpu cpu_cells
  pub memory_filled : IsCells {F = F} (of_nat used ⊗ of_nat 100 ⊘ of_nat total) memory_cells

module _ {F : Type 0} ⦃f : Float F⦄ (l : Laws F) where
  -- The half of 101 is less than 51.
  half-below : f.lt (f.div (of_nat 5050) (of_nat 100)) (of_nat 51) ≡ true
  half-below =
      let positive =
        l.div_mono {a = of_nat 5050} {b = of_nat 5050} {c = of_nat 100}
          (l.of_nat_mono (omega arith)) (l.of_nat_mono (omega arith)) (l.of_nat_pos (omega arith))
          (l.of_nat-IsFinite (omega arith)) (l.of_nat-IsFinite (omega arith)) in
      let below =
        l.quotient_le {m = 5050} {n = 100} {k = 51} (omega arith) (omega arith) (omega arith)
          (omega arith) (omega arith) in
      let (k, eq, le, reached, passed) = l.to_int-floor {n = 51} (omega arith) positive.0 below in
      let whole =
        l.to_int-quotient {m = 5050} {n = 100} (omega arith) (omega arith) (omega arith) in
      let same : k ≡ 50 = grind (arith, some-injective (sym eq ∙ whole)) in
      subst (λ j. f.lt (f.div (of_nat 5050) (of_nat 100)) (of_nat (j + 1)) ≡ true) same passed

  cells-fit : (k : ℕ) {a : F} → of_nat k ≤ᶠ a → a ≤ᶠ of_nat 5050 ⊘ of_nat 100 → k ≤ 50
  cells-fit k low high = elim (Bool-cases (leb k 50)) [
    | inl e ↦ ground (arith, e)
    | inr e ↦
        let more =
          l.le_trans (l.of_nat_mono {m = 51} {n = k} (ground (arith, e))) (l.le_trans low high) in
        let never : true ≡ false = sym half-below ∙ l.le→not_lt more in absurd (cc never)
  ]

  percent_bar-filled :
      (percent : F)
      → of_nat 0 ≤ᶠ percent
      → percent ≤ᶠ of_nat 101
      → (k : ℕ) × (percent_bar percent ≡ some (filled_bar k 50)) × IsCells percent k
  unfolding percent_bar
  percent_bar-filled percent low high =
      let scaled =
        l.mul_mono {c = of_nat 50} low high (l.of_nat_mono (omega arith))
          (l.of_nat-IsFinite (omega arith)) (l.of_nat-IsFinite (omega arith)) in
      let whole = l.of_nat-mul {m = 101} {n = 50} (omega arith) in
      let divided =
        l.div_mono {c = of_nat 100} scaled.0 (subst (λ x. percent ⊗ of_nat 50 ≤ᶠ x) whole scaled.1)
          (l.of_nat_pos (omega arith)) (l.of_nat-IsFinite (omega arith))
          (l.of_nat-IsFinite (omega arith)) in
      let (k, eq, le, reached, passed) =
        l.to_int-floor {n = 51} (omega arith) divided.0
          (l.le_trans divided.1 (l.lt→le half-below)) in
      let fits = cells-fit k reached divided.1 in
      (
        k,
        rw (eq, ◌>>=◌, fill_mark-replicate k fits) refl,
        record { fits = fits; reached = reached; not_passed = passed },
      )

  pub display_dashboard-IsDrawn :
      (cpu : F) (used total : ℕ)
      → of_nat 0 ≤ᶠ cpu
      → cpu ≤ᶠ of_nat 100
      → used ≤ total
      → 0 < total
      → total < 4294967296
      → IsDrawn cpu used total (display_dashboard cpu used total)
  unfolding display_dashboard
  display_dashboard-IsDrawn cpu used total low high h nonzero small =
      let (c, cpu_bar, cpu_filled) =
        percent_bar-filled cpu low (l.le_trans high (l.of_nat_mono (omega arith))) in
      let range = l.scaled_quotient {k = 100} h nonzero small (omega arith) in
      let (m, memory_bar, memory_filled) = percent_bar-filled _ range.0 range.1 in
      record {
        cpu_cells = c;
        memory_cells = m;
        returns = rw (cpu_bar, ◌>>=◌, memory_bar, ◌>>=◌) refl;
        cpu_filled = cpu_filled;
        memory_filled = memory_filled;
      }

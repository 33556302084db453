-- ===== src/Base/Ring.antt =====
-- The part of a ring of slots that is in use, as a list.
use native.Mathlib.Nat.{mod-add-mod, mod-eq_of_lt, mod-eq-sub-mod, mod-lt}
use embed_rtos.Base.Lists.{length, drop}
use embed_rtos.Base.Test.{ltb, Bool-cases, ltb→lt}
use Prim.Native.Nat.{ℕ, zero, suc, ◌+◌, ◌-◌, ◌%◌, ◌≤◌, ◌<◌}
use mathlib.Core.Path.{◌≡◌, refl, sym, ap, ap₂, ◌∙◌}
use mathlib.Core.Logic.{◌≢◌, inl, inr}
use mathlib.Core.List.{List, [], ◌∷◌, ◌++◌}
use native.Mathlib.Omega.{arith}

module _ {ℓ} {A : Type ℓ} where
  -- `n` slots from `h` on, going round at `cap`.
  abbrev pub window : (ℕ → A) → ℕ → ℕ → ℕ → List A
  window f cap h zero = []
  window f cap h (suc n) = f h ∷ window f cap ((h + 1) % cap) n

  pub length-window : (f : ℕ → A) (cap h n : ℕ) → length (window f cap h n) ≡ n
  length-window f cap h zero = refl
  length-window f cap h (suc n) = ap suc (length-window f cap ((h + 1) % cap) n)

  -- Where a test has ruled zero out.
  pub window-pos :
      (f : ℕ → A) (cap h n : ℕ)
      → 0 < n
      → window f cap h n ≡ f h ∷ window f cap ((h + 1) % cap) (n - 1)
  window-pos f cap h zero p = absurd (omega arith)
  window-pos f cap h (suc n) p = ap (λ k. f h ∷ window f cap ((h + 1) % cap) k) (omega arith)

-- One step more round the ring.
pub mod-shift : (cap h n : ℕ) → (h + suc n) % cap ≡ ((h + 1) % cap + n) % cap
mod-shift cap h n = ap (λ k. k % cap) (omega arith) ∙ sym (mod-add-mod (h + 1) cap n)

-- Less than a full turn does not come back to the start.
pub mod-ne_start : (cap h n : ℕ) → h < cap → suc n < cap → (h + suc n) % cap ≢ h
mod-ne_start m h n hh hn = elim (Bool-cases (ltb (h + suc n) m)) [
  | inl p ↦ omega (arith, mod-eq_of_lt (ltb→lt (h + suc n) m p))
  | inr p ↦
      let over : m ≤ h + suc n = ground arith in
      omega (arith, mod-eq-sub-mod over, mod-eq_of_lt {n = h + suc n - m} {m = m} (omega arith))
]

module _ {ℓ} {A : Type ℓ} (f g : ℕ → A) (cap : ℕ) where
  -- A slot written just past the window extends it.
  pub window-write :
      (x : A) (n h t : ℕ)
      → h < cap
      → n < cap
      → t ≡ (h + n) % cap
      → g t ≡ x
      → ((j : ℕ) → j < cap → j ≢ t → g j ≡ f j)
      → window g cap h (suc n) ≡ window f cap h n ++ (x ∷ [])
  window-write x zero h t hh hn et e same =
      ap (λ y. y ∷ []) (ap g (omega (arith, mod-eq_of_lt {n = h + 0} {m = cap} (omega arith))) ∙ e)
  window-write x (suc n) h t hh hn et e same =
      ap₂ ◌∷◌ (same h hh (λ p. mod-ne_start cap h n hh hn (sym et ∙ sym p))) (
        window-write x n ((h + 1) % cap) t (mod-lt (h + 1) (omega arith)) (omega arith)
          (et ∙ mod-shift cap h n) e same)

module _ {ℓ} {A : Type ℓ} (f : ℕ → A) (cap : ℕ) where
  -- Dropping slots moves the start of the window on.
  pub window-drop :
      (k n h : ℕ)
      → h < cap
      → k ≤ n
      → drop k (window f cap h n) ≡ window f cap ((h + k) % cap) (n - k)
  window-drop zero n h hh hk =
      ap₂ (window f cap) (omega (arith, mod-eq_of_lt {n = h + 0} {m = cap} (omega arith)))
        (omega arith)
  window-drop (suc k) zero h hh hk = absurd (omega arith)
  window-drop (suc k) (suc n) h hh hk =
      window-drop k n ((h + 1) % cap) (mod-lt (h + 1) (omega arith)) (omega arith)
      ∙ ap₂ (window f cap) (sym (mod-shift cap h k)) (omega arith)

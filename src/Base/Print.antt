-- ===== src/Base/Print.antt =====
-- What `printf` writes for a number: its digits, and the padding to a width.
use Prim.Native.Nat.{ℕ, zero, suc, ◌+◌, ◌-◌, ◌/◌, ◌%◌, ◌<◌}
use mathlib.Core.Path.{◌≡◌, refl}
use mathlib.Core.Logic.{inl, inr}
use native.Mathlib.Omega.{arith}
use mathlib.Core.List.{List, [], ◌∷◌, ◌++◌}
use embed_rtos.Base.Test.{ltb, lt→ltb, Bool-cases, if◌then◌else◌}
use embed_rtos.Base.Lists.{length, replicate}

-- 0 to 9, then a to f.
abbrev pub digit : ℕ → ℕ
digit d = if ltb d 10 then 48 + d else 87 + d

-- The digits in front of `rest`, the fuel being at least their number.
digits : ℕ → ℕ → ℕ → List ℕ → List ℕ
digits zero base n rest = rest
digits (suc fuel) base n rest =
    let rest' = digit (n % base) ∷ rest in
    let longer = digits fuel base (n / base) rest' in if ltb n base then rest' else longer

-- `%d` and `%x` of a number of at most 64 bits.
pub decimal : ℕ → List ℕ
unfolding digits
decimal n = digits 20 10 n []

pub hexadecimal : ℕ → List ℕ
unfolding digits
hexadecimal n = digits 16 16 n []

-- Filled up on the left to a width.
abbrev pub pad : ℕ → ℕ → List ℕ → List ℕ
pad width fill text = replicate (width - length text) fill ++ text

-- A byte has two hexadecimal digits once it is padded.
pub length-pad-hexadecimal : (b : ℕ) → b < 256 → length (pad 2 48 (hexadecimal b)) ≡ 2
unfolding hexadecimal digits
length-pad-hexadecimal b h = elim (Bool-cases (ltb b 16)) [
  | inl e ↦ rw e refl
  | inr e ↦ rw (e, lt→ltb (b / 16) 16 (omega arith)) refl
]

-- ===== src/Base/Bits.antt =====
-- `|`, `&` and `^` at variables: the laws that field packing and the checksums need.
use Prim.Native.Nat.{
  ℕ, zero, suc, ◌+◌, ◌-◌, ◌*◌, ◌/◌, ◌%◌, ◌^◌, ◌≤◌, ◌<◌, min, max, bit_and, bit_or, digits, bitwise,
  bit_and-bitwise, bit_or-bitwise,
}
use mathlib.Core.Path.{◌≡◌, refl, ap, ◌∙◌}
use native.Mathlib.Nat.{
  pow-suc, div-add-mod', mul-add-mod_self_right, mod-eq_of_lt, mod-lt, mul_assoc,
}
use native.Mathlib.Omega.{arith}

-- The recursion on binary digits does not depend on its fuel.
module _ (z : ℕ → ℕ) (f : ℕ → ℕ → ℕ) where
  digits-fuel : (k l a b : ℕ) → a ≤ k → a ≤ l → digits z f k a b ≡ digits z f l a b
  digits-fuel zero zero a b p q = refl
  digits-fuel (suc k) (suc l) zero b p q = refl
  digits-fuel (suc k) (suc l) (suc a) b p q =
      rw (digits-fuel k l (suc a / 2) (b / 2) (omega arith) (omega arith))
  digits-fuel (suc k) zero zero b p q = refl
  digits-fuel (suc k) zero (suc a) b p q = absurd (omega arith)
  digits-fuel zero (suc l) zero b p q = refl
  digits-fuel zero (suc l) (suc a) b p q = absurd (omega arith)

  -- One digit off the low end.
  pub bitwise-step :
      (a b : ℕ)
      → bitwise z f (suc a) b ≡ bitwise z f (suc a / 2) (b / 2) * 2 + f (suc a % 2) (b % 2)
  bitwise-step a b =
      omega (arith, digits-fuel a (suc a / 2) (suc a / 2) (b / 2) (omega arith) (omega arith))

pub bit_or-step : (a b : ℕ) → bit_or a b ≡ bit_or (a / 2) (b / 2) * 2 + max (a % 2) (b % 2)
bit_or-step zero b = simp bit_or-bitwise (omega arith)
bit_or-step (suc a) b = simp bit_or-bitwise (bitwise-step (λ y. y) max a b)

pub bit_and-step : (a b : ℕ) → bit_and a b ≡ bit_and (a / 2) (b / 2) * 2 + min (a % 2) (b % 2)
bit_and-step zero b = simp bit_and-bitwise (omega arith)
bit_and-step (suc a) b = simp bit_and-bitwise (bitwise-step (λ y. 0) min a b)

-- Strong induction as fuel: `n` halves at each step.
bit_or-zero_below : (k n : ℕ) → n ≤ k → bit_or n 0 ≡ n
bit_or-zero_below k zero h = bit_or-bitwise 0 0
bit_or-zero_below zero (suc n) h = absurd (omega arith)
bit_or-zero_below (suc k) (suc n) h =
    omega (arith, bit_or-step (suc n) 0, bit_or-zero_below k (suc n / 2) (omega arith))

bit_and-zero_below : (k n : ℕ) → n ≤ k → bit_and n 0 ≡ 0
bit_and-zero_below k zero h = bit_and-bitwise 0 0
bit_and-zero_below zero (suc n) h = absurd (omega arith)
bit_and-zero_below (suc k) (suc n) h =
    omega (arith, bit_and-step (suc n) 0, bit_and-zero_below k (suc n / 2) (omega arith))

times_two_pow : (q k : ℕ) → q * 2 ^ suc k ≡ 2 * (q * 2 ^ k)
times_two_pow q k = omega (arith, ap (λ (p : ℕ). q * p) (pow-suc 2 k))

-- A field of `k` bits below the rest of the word: `|` is `+`.
pub bit_or-field : (k q r : ℕ) → r < 2 ^ k → bit_or (q * 2 ^ k) r ≡ q * 2 ^ k + r
bit_or-field zero q r h = ground (arith, bit_or-zero_below q q)
bit_or-field (suc k) q r h =
    ground (
      arith,
      times_two_pow q k,
      pow-suc 2 k,
      bit_or-step (q * 2 ^ suc k) r,
      bit_or-field k q (r / 2),
    )

pub two-pow-pos : (k : ℕ) → 0 < 2 ^ k
two-pow-pos zero = omega arith
two-pow-pos (suc k) = omega (arith, pow-suc 2 k, two-pow-pos k)

-- Doubling the modulus takes in one more digit.
pub mod-double : (p a : ℕ) → 0 < p → a % (p * 2) ≡ a / 2 % p * 2 + a % 2
mod-double p a h =
    let r : ℕ = a / 2 % p in
    let e : a ≡ a / 2 / p * (p * 2) + (r * 2 + a % 2) =
      omega (arith, div-add-mod' (a / 2) p, mul_assoc (a / 2 / p) p 2) in
    ap (λ x. x % (p * 2)) e
    ∙ mul-add-mod_self_right (a / 2 / p) (p * 2) (r * 2 + a % 2)
    ∙ mod-eq_of_lt (omega (arith, mod-lt (a / 2) h))

-- A mask of `k` ones keeps the remainder by `2 ^ k`.
pub bit_and-mask : (k a : ℕ) → bit_and a (2 ^ k - 1) ≡ a % 2 ^ k
bit_and-mask zero a = rw (bit_and-zero_below a a (omega arith)) (omega arith)
bit_and-mask (suc k) a =
    let half : (2 ^ suc k - 1) / 2 ≡ 2 ^ k - 1 = omega (arith, pow-suc 2 k, two-pow-pos k) in
    let odd : (2 ^ suc k - 1) % 2 ≡ 1 = omega (arith, pow-suc 2 k, two-pow-pos k) in
    bit_and-step a (2 ^ suc k - 1)
    ∙ rw (half, odd, pow-suc)
        (omega (arith, bit_and-mask k (a / 2), mod-double (2 ^ k) a (two-pow-pos k)))

-- The same where the upper part is known to be a multiple of `2 ^ k`.
pub bit_or-multiple : (k x q r : ℕ) → x ≡ q * 2 ^ k → r < 2 ^ k → bit_or x r ≡ x + r
bit_or-multiple k x q r h l = rw h (bit_or-field k q r l)

bit_or_comm_below : (k a b : ℕ) → a ≤ k → b ≤ k → bit_or a b ≡ bit_or b a
bit_or_comm_below zero zero zero h l = refl
bit_or_comm_below zero (suc a) b h l = absurd (omega arith)
bit_or_comm_below zero zero (suc b) h l = absurd (omega arith)
bit_or_comm_below (suc k) a b h l = omega (
  arith,
  bit_or-step a b,
  bit_or-step b a,
  bit_or_comm_below k (a / 2) (b / 2) (omega arith) (omega arith),
)

pub bit_or_comm : (a b : ℕ) → bit_or a b ≡ bit_or b a
bit_or_comm a b = bit_or_comm_below (a + b) a b (omega arith) (omega arith)

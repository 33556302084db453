-- ===== src/Base/Xor.antt =====
-- `^` at variables: digits, remainders and cancellation.
use Prim.Native.Nat.{
  ℕ, zero, suc, ◌+◌, ◌*◌, ◌/◌, ◌%◌, ◌^◌, ◌≤◌, ◌<◌, differ, bit_xor, bit_xor-bitwise,
}
use mathlib.Core.Path.{◌≡◌, refl, sym, ap, ap₂, ◌∙◌}
use native.Mathlib.Nat.{pow-suc}
use native.Mathlib.Omega.{arith}
use embed_rtos.Base.Bits.{bitwise-step, mod-double, two-pow-pos}

differ-add : (x y : ℕ) → x < 2 → y < 2 → differ x y ≡ (x + y) % 2
differ-add zero y h l = omega arith
differ-add (suc x) zero h l = omega arith
differ-add (suc zero) (suc zero) h l = refl
differ-add (suc zero) (suc (suc y)) h l = absurd (omega arith)
differ-add (suc (suc x)) (suc y) h l = absurd (omega arith)

-- One digit off the low end.
pub bit_xor-step : (a b : ℕ) → bit_xor a b ≡ bit_xor (a / 2) (b / 2) * 2 + (a + b) % 2
bit_xor-step zero b = simp bit_xor-bitwise (omega arith)
bit_xor-step (suc a) b = simp bit_xor-bitwise (
    omega (
      arith,
      bitwise-step (λ y. y) differ a b,
      differ-add (suc a % 2) (b % 2) (omega arith) (omega arith),
    ))

-- The remainder by a power of two is of the low digits alone.
pub bit_xor-mod : (k a b : ℕ) → bit_xor a b % 2 ^ k ≡ bit_xor (a % 2 ^ k) (b % 2 ^ k)
bit_xor-mod zero a b =
    let none_left : bit_xor (a % 1) (b % 1) ≡ 0 =
      ap₂ bit_xor (let e : a % 1 ≡ 0 = omega arith in e) (let e : b % 1 ≡ 0 = omega arith in e) in
    omega (arith, none_left)
bit_xor-mod (suc k) a b =
    let p : ℕ = 2 ^ k in
    let a' : ℕ = a % (p * 2) in
    let b' : ℕ = b % (p * 2) in
    let low : (n : ℕ) → (n % (p * 2) / 2 ≡ n / 2 % p) × (n % (p * 2) % 2 ≡ n % 2) = λ n. (
      omega (arith, mod-double p n (two-pow-pos k)),
      omega (arith, mod-double p n (two-pow-pos k)),
    ) in
    let half : bit_xor a b / 2 ≡ bit_xor (a / 2) (b / 2) = omega (arith, bit_xor-step a b) in
    let halves : bit_xor (a' / 2) (b' / 2) ≡ bit_xor (a / 2) (b / 2) % p =
      ap₂ bit_xor (low a).0 (low b).0 ∙ sym (bit_xor-mod k (a / 2) (b / 2)) in
    rw pow-suc (
      mod-double p (bit_xor a b) (two-pow-pos k)
      ∙ ap (λ n. n % p * 2 + bit_xor a b % 2) half
      ∙ omega (arith, bit_xor-step a b, bit_xor-step a' b', halves, (low a).1, (low b).1))

cancel_below : (k a b c : ℕ) → a ≤ k → b ≤ k → c ≤ k → bit_xor a b ≡ bit_xor a c → b ≡ c
cancel_below zero a b c ha hb hc e = omega arith
cancel_below (suc k) a b c ha hb hc e =
    let half : b / 2 ≡ c / 2 =
      cancel_below k (a / 2) (b / 2) (c / 2) (omega arith) (omega arith) (omega arith)
        (omega (arith, bit_xor-step a b, bit_xor-step a c)) in
    omega (arith, bit_xor-step a b, bit_xor-step a c)

pub bit_xor-cancel : (a b c : ℕ) → bit_xor a b ≡ bit_xor a c → b ≡ c
bit_xor-cancel a b c = cancel_below (a + (b + c)) a b c (omega arith) (omega arith) (omega arith)

bit_xor_comm_below : (k a b : ℕ) → a ≤ k → b ≤ k → bit_xor a b ≡ bit_xor b a
bit_xor_comm_below zero a b ha hb = ap₂ bit_xor {y = b} (omega arith) (omega arith)
bit_xor_comm_below (suc k) a b ha hb = omega (
  arith,
  bit_xor-step a b,
  bit_xor-step b a,
  bit_xor_comm_below k (a / 2) (b / 2) (omega arith) (omega arith),
)

pub bit_xor_comm : (a b : ℕ) → bit_xor a b ≡ bit_xor b a
bit_xor_comm a b = bit_xor_comm_below (a + b) a b (omega arith) (omega arith)

pub bit_xor-zero : (b : ℕ) → bit_xor 0 b ≡ b
bit_xor-zero b = bit_xor-bitwise 0 b

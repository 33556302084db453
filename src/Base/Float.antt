-- ===== src/Base/Float.antt =====
-- The arithmetic of `float`, which is the processor's: a parameter. `F` holds the values of a
-- float; the two zeros are one of them, and so are all values that are not a number.
pub mod Fixed
use Prim.Native.Nat.{ℕ, ◌+◌, ◌*◌, ◌/◌, ◌≤◌, ◌<◌}
use mathlib.Core.Option.{Option, some}
use embed_rtos.Base.Int.{ℤ, pos}
use mathlib.Core.Path.{◌≡◌, subst}
use mathlib.Core.Bool.{Bool, true, false}
use mathlib.Core.List.{List}
use embed_rtos.Base.Lists.{length}

-- `ratio n d` is the float nearest to n / d, as a constant of the source is; `finite` is `isfinite`,
-- `bytes` are the bytes of the float in memory, and `to_int` is the conversion to an `int`, which is
-- undefined where the value without its fraction is none.
pub record Float (F : Type 0) : Type 0 where
  pub ratio : ℕ → ℕ → F
  pub add : F → F → F
  pub sub : F → F → F
  pub mul : F → F → F
  pub div : F → F → F
  pub neg : F → F
  pub le : F → F → Bool
  pub lt : F → F → Bool
  pub finite : F → Bool
  pub bytes : F → List ℕ
  pub to_int : F → Option ℤ

module _ {F : Type 0} ⦃f : Float F⦄ where
  infixl 65 ◌⊕◌ ◌⊖◌
  infixl 70 ◌⊗◌ ◌⊘◌
  abbrev pub ◌⊕◌ : F → F → F
  a ⊕ b = f.add a b

  abbrev pub ◌⊖◌ : F → F → F
  a ⊖ b = f.sub a b

  abbrev pub ◌⊗◌ : F → F → F
  a ⊗ b = f.mul a b

  abbrev pub ◌⊘◌ : F → F → F
  a ⊘ b = f.div a b

  -- `(float)n` of an integer.
  abbrev pub of_nat : ℕ → F
  of_nat n = f.ratio n 1

  infix 50 ◌≤ᶠ◌ ◌<ᶠ◌
  abbrev pub ◌≤ᶠ◌ : F → F → Type 0
  a ≤ᶠ b = f.le a b ≡ true

  abbrev pub ◌<ᶠ◌ : F → F → Type 0
  a <ᶠ b = f.lt a b ≡ true

  abbrev pub IsFinite : F → Type 0
  IsFinite a = f.finite a ≡ true

-- What IEEE 754 says of rounded arithmetic. There is no associativity, and a sum or a product may
-- be infinite or not a number where its operands are. The integers up to 2 ^ 24 are exact.
pub record Laws (F : Type 0) ⦃f : Float F⦄ : Type 0 where
  pub le_trans : {a b c : F} → a ≤ᶠ b → b ≤ᶠ c → a ≤ᶠ c
  pub lt→le : {a b : F} → a <ᶠ b → a ≤ᶠ b
  pub lt_irrefl : (a : F) → f.lt a a ≡ false
  pub add_comm : (a b : F) → a ⊕ b ≡ b ⊕ a
  pub mul_comm : (a b : F) → a ⊗ b ≡ b ⊗ a
  pub add-zero : (a : F) → a ⊕ of_nat 0 ≡ a
  pub sub-zero : (a : F) → a ⊖ of_nat 0 ≡ a
  pub one-mul : (a : F) → of_nat 1 ⊗ a ≡ a
  pub zero-mul : {a : F} → IsFinite a → of_nat 0 ⊗ a ≡ of_nat 0
  pub add_mono : {a b c : F} → IsFinite a → b ≤ᶠ c → a ⊕ b ≤ᶠ a ⊕ c
  pub le-add_nonneg : {a b : F} → of_nat 0 ≤ᶠ a → of_nat 0 ≤ᶠ b → a ≤ᶠ a ⊕ b
  pub add_pos : {a b : F} → of_nat 0 ≤ᶠ a → of_nat 0 <ᶠ b → of_nat 0 <ᶠ a ⊕ b
  pub sub_nonneg : {a b : F} → IsFinite a → a ≤ᶠ b → of_nat 0 ≤ᶠ b ⊖ a
  pub sub_nonpos : {a b : F} → IsFinite a → b ≤ᶠ a → b ⊖ a ≤ᶠ of_nat 0
  pub between-IsFinite : {a b : F} → of_nat 0 ≤ᶠ a → a ≤ᶠ b → IsFinite b → IsFinite a
  pub part_nonneg :
      {k a : F}
      → of_nat 0 ≤ᶠ k
      → k ≤ᶠ of_nat 1
      → IsFinite a
      → of_nat 0 ≤ᶠ a
      → (of_nat 0 ≤ᶠ k ⊗ a) × (k ⊗ a ≤ᶠ a)
  pub part_nonpos :
      {k a : F}
      → of_nat 0 ≤ᶠ k
      → k ≤ᶠ of_nat 1
      → IsFinite a
      → a ≤ᶠ of_nat 0
      → (a ≤ᶠ k ⊗ a) × (k ⊗ a ≤ᶠ of_nat 0)
  pub quotient_unit :
      {a b : F}
      → of_nat 0 ≤ᶠ a
      → a ≤ᶠ b
      → of_nat 0 <ᶠ b
      → IsFinite b
      → (of_nat 0 ≤ᶠ a ⊘ b) × (a ⊘ b ≤ᶠ of_nat 1)
  pub rest_unit :
      {k : F}
      → of_nat 0 ≤ᶠ k
      → k ≤ᶠ of_nat 1
      → (of_nat 0 ≤ᶠ of_nat 1 ⊖ k) × (of_nat 1 ⊖ k ≤ᶠ of_nat 1)
  pub neg_le : (n : ℕ) → f.le (f.neg (of_nat n)) (of_nat n) ≡ true
  pub le→not_lt : {a b : F} → a ≤ᶠ b → f.lt b a ≡ false
  pub of_nat_mono : {m n : ℕ} → m ≤ n → f.le (of_nat m) (of_nat n) ≡ true
  pub of_nat_pos : {n : ℕ} → 0 < n → f.lt (of_nat 0) (of_nat n) ≡ true
  pub of_nat-IsFinite : {n : ℕ} → n < 4294967296 → f.finite (of_nat n) ≡ true
  pub of_nat-mul : {m n : ℕ} → m * n ≤ 16777216 → f.mul (of_nat m) (of_nat n) ≡ of_nat (m * n)
  pub quotient_le :
      {m n k : ℕ}
      → m ≤ 16777216
      → n ≤ 16777216
      → k ≤ 16777216
      → 0 < n
      → m ≤ n * k
      → f.le (f.div (of_nat m) (of_nat n)) (of_nat k) ≡ true
  pub mul_mono :
      {a b c : F}
      → of_nat 0 ≤ᶠ a
      → a ≤ᶠ b
      → of_nat 0 ≤ᶠ c
      → IsFinite b
      → IsFinite c
      → (of_nat 0 ≤ᶠ a ⊗ c) × (a ⊗ c ≤ᶠ b ⊗ c)
  pub div_mono :
      {a b c : F}
      → of_nat 0 ≤ᶠ a
      → a ≤ᶠ b
      → of_nat 0 <ᶠ c
      → IsFinite b
      → IsFinite c
      → (of_nat 0 ≤ᶠ a ⊘ c) × (a ⊘ c ≤ᶠ b ⊘ c)
  pub scaled_quotient :
      {m n k : ℕ}
      → m ≤ n
      → 0 < n
      → n < 4294967296
      → k ≤ 65536
      → (f.le (of_nat 0) (f.div (f.mul (of_nat m) (of_nat k)) (of_nat n)) ≡ true)
        × (f.le (f.div (f.mul (of_nat m) (of_nat k)) (of_nat n)) (of_nat (k + 1)) ≡ true)
  pub to_int-floor :
      {a : F} {n : ℕ}
      → n ≤ 16777216
      → of_nat 0 ≤ᶠ a
      → a ≤ᶠ of_nat n
      → (k : ℕ) × (f.to_int a ≡ some (pos k)) × (k ≤ n) × (of_nat k ≤ᶠ a) × (a <ᶠ of_nat (k + 1))
  pub to_int-quotient :
      {m n : ℕ}
      → m < 8388608
      → n < 8388608
      → 0 < n
      → f.to_int (f.div (of_nat m) (of_nat n)) ≡ some (pos (m / n))
  pub length-bytes : (a : F) → length (f.bytes a) ≡ 4

module _ {F : Type 0} ⦃f : Float F⦄ (l : Laws F) where
  pub zero-add : (a : F) → of_nat 0 ⊕ a ≡ a
  zero-add a = rw (l.add_comm (of_nat 0) a) (l.add-zero a)

  pub le-add : {a b : F} → IsFinite a → of_nat 0 ≤ᶠ b → a ≤ᶠ a ⊕ b
  le-add {a} {b} n h = subst (λ x. x ≤ᶠ a ⊕ b) (l.add-zero a) (l.add_mono n h)

  pub add-le : {a b : F} → IsFinite a → b ≤ᶠ of_nat 0 → a ⊕ b ≤ᶠ a
  add-le {a} {b} n h = subst (λ x. a ⊕ b ≤ᶠ x) (l.add-zero a) (l.add_mono n h)

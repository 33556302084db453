-- ===== src/Base/Float/Fixed.antt =====
-- A concrete arithmetic with the laws of floats: signed numbers of thousandths, rounded towards 0.
use Prim.Native.Nat.{ℕ, zero, suc, ◌+◌, ◌*◌, ◌/◌, ◌≤◌, ◌<◌}
use mathlib.Core.Path.{subst, sym, ◌≡◌, refl, ap, ◌∙◌}
use mathlib.Core.Bool.{true, false}
use mathlib.Core.Option.{Option, some}
use mathlib.Core.List.{[], ◌∷◌}
use native.Mathlib.Omega.{arith}
use native.Mathlib.Nat
use embed_rtos.Base.Int.{ℤ, pos, negsuc, pos_part, neg_part, sub_ℕ, ◌+ℤ◌, ◌-ℤ◌, ltb_ℤ, leb_ℤ}
use embed_rtos.Base.Float.{Float, Laws}

-- Minus `n`.
abbrev minus : ℕ → ℤ
minus n = sub_ℕ 0 n

abbrev mul : ℤ → ℤ → ℤ
mul (pos a) (pos b) = pos (a * b / 1000)
mul (pos a) (negsuc b) = minus (a * suc b / 1000)
mul (negsuc a) (pos b) = minus (b * suc a / 1000)
mul (negsuc a) (negsuc b) = pos (suc a * suc b / 1000)

abbrev div : ℤ → ℤ → ℤ
div (pos a) (pos b) = pos (a * 1000 / b)
div (pos a) (negsuc b) = minus (a * 1000 / suc b)
div (negsuc a) (pos b) = minus (suc a * 1000 / b)
div (negsuc a) (negsuc b) = pos (suc a * 1000 / suc b)

-- Without the fraction.
abbrev truncate : ℤ → Option ℤ
truncate (pos a) = some (pos (a / 1000))
truncate (negsuc a) = some (minus (suc a / 1000))

instance abbrev pub fixed : Float ℤ
fixed = record {
  ratio = λ n d. pos (n * 1000 / d);
  add = ◌+ℤ◌;
  sub = ◌-ℤ◌;
  mul = mul;
  div = div;
  neg = λ a. sub_ℕ (neg_part a) (pos_part a);
  le = leb_ℤ;
  lt = ltb_ℤ;
  finite = λ a. true;
  bytes = λ a. pos_part a ∷ neg_part a ∷ 0 ∷ 0 ∷ [];
  to_int = truncate;
}

le_trans : (a b c : ℤ) → leb_ℤ a b ≡ true → leb_ℤ b c ≡ true → leb_ℤ a c ≡ true
le_trans a b c h k = ground arith

lt_irrefl : (a : ℤ) → ltb_ℤ a a ≡ false
lt_irrefl a = ground arith

add_comm : (a b : ℤ) → a +ℤ b ≡ b +ℤ a
add_comm a b = ground arith

mul_comm : (a b : ℤ) → mul a b ≡ mul b a
mul_comm (pos a) (pos b) = rw (Nat.mul_comm a b) refl
mul_comm (pos a) (negsuc b) = refl
mul_comm (negsuc a) (pos b) = refl
mul_comm (negsuc a) (negsuc b) = rw (Nat.mul_comm (suc a) (suc b)) refl

add-zero : (a : ℤ) → a +ℤ pos 0 ≡ a
add-zero a = ground arith

sub-zero : (a : ℤ) → a -ℤ pos 0 ≡ a
sub-zero a = ground arith

one-mul : (a : ℤ) → mul (pos 1000) a ≡ a
one-mul a = ground arith

zero-mul : (a : ℤ) → mul (pos 0) a ≡ pos 0
zero-mul a = ground arith

add_mono : (a b c : ℤ) → leb_ℤ b c ≡ true → leb_ℤ (a +ℤ b) (a +ℤ c) ≡ true
add_mono a b c h = ground arith

le-add_nonneg :
    (a b : ℤ) → leb_ℤ (pos 0) a ≡ true → leb_ℤ (pos 0) b ≡ true → leb_ℤ a (a +ℤ b) ≡ true
le-add_nonneg a b h k = ground arith

add_pos :
    (a b : ℤ) → leb_ℤ (pos 0) a ≡ true → ltb_ℤ (pos 0) b ≡ true → ltb_ℤ (pos 0) (a +ℤ b) ≡ true
add_pos a b h k = ground arith

lt→le : (a b : ℤ) → ltb_ℤ a b ≡ true → leb_ℤ a b ≡ true
lt→le a b h = ground arith

sub_nonneg : (a b : ℤ) → leb_ℤ a b ≡ true → leb_ℤ (pos 0) (b -ℤ a) ≡ true
sub_nonneg a b h = ground arith

sub_nonpos : (a b : ℤ) → leb_ℤ b a ≡ true → leb_ℤ (b -ℤ a) (pos 0) ≡ true
sub_nonpos a b h = ground arith

part_le : (k a : ℕ) → k ≤ 1000 → k * a / 1000 ≤ a
part_le k a h = Nat.div-le_of_le-mul 1000 (Nat.mul-le-mul_right a h)

part_nonneg :
    (k a : ℤ)
    → leb_ℤ (pos 0) k ≡ true
    → leb_ℤ k (pos 1000) ≡ true
    → leb_ℤ (pos 0) a ≡ true
    → (leb_ℤ (pos 0) (mul k a) ≡ true) × (leb_ℤ (mul k a) a ≡ true)
part_nonneg (pos k) (pos a) h1 h2 h = let p = part_le k a (ground arith) in ground arith
part_nonneg (pos k) (negsuc a) h1 h2 h = absurd (ground arith)
part_nonneg (negsuc k) a h1 h2 h = absurd (ground arith)

part_nonpos :
    (k a : ℤ)
    → leb_ℤ (pos 0) k ≡ true
    → leb_ℤ k (pos 1000) ≡ true
    → leb_ℤ a (pos 0) ≡ true
    → (leb_ℤ a (mul k a) ≡ true) × (leb_ℤ (mul k a) (pos 0) ≡ true)
part_nonpos (pos k) (pos zero) h1 h2 h = ground arith
part_nonpos (pos k) (pos (suc a)) h1 h2 h = absurd (ground arith)
part_nonpos (pos k) (negsuc a) h1 h2 h = let p = part_le k (suc a) (ground arith) in ground arith
part_nonpos (negsuc k) a h1 h2 h = absurd (ground arith)

quotient_le : (a b : ℕ) → a ≤ b → a * 1000 / b ≤ 1000
quotient_le a b h = Nat.div-le_of_le-mul b (Nat.mul-le-mul_right 1000 h)

quotient_unit :
    (a b : ℤ)
    → leb_ℤ (pos 0) a ≡ true
    → leb_ℤ a b ≡ true
    → (leb_ℤ (pos 0) (div a b) ≡ true) × (leb_ℤ (div a b) (pos 1000) ≡ true)
quotient_unit (pos a) (pos b) h1 h2 = let p = quotient_le a b (ground arith) in ground arith
quotient_unit (pos a) (negsuc b) h1 h2 = absurd (ground arith)
quotient_unit (negsuc a) b h1 h2 = absurd (ground arith)

rest_unit :
    (k : ℤ)
    → leb_ℤ (pos 0) k ≡ true
    → leb_ℤ k (pos 1000) ≡ true
    → (leb_ℤ (pos 0) (pos 1000 -ℤ k) ≡ true) × (leb_ℤ (pos 1000 -ℤ k) (pos 1000) ≡ true)
rest_unit k h1 h2 = (ground arith, ground arith)

neg_le : (n : ℕ) → leb_ℤ (sub_ℕ 0 (n * 1000 / 1)) (pos (n * 1000 / 1)) ≡ true
neg_le n = ground arith

le→not_lt : (a b : ℤ) → leb_ℤ a b ≡ true → ltb_ℤ b a ≡ false
le→not_lt a b h = ground arith

of_nat_mono : {m n : ℕ} → m ≤ n → leb_ℤ (pos (m * 1000 / 1)) (pos (n * 1000 / 1)) ≡ true
of_nat_mono {m} {n} h = ground arith

of_nat_pos : {n : ℕ} → 0 < n → ltb_ℤ (pos 0) (pos (n * 1000 / 1)) ≡ true
of_nat_pos {n} h = ground arith

thousands : (m n : ℕ) → m * 1000 * (n * 1000) ≡ 1000 * (1000 * (m * n))
thousands m n = omega arith

of_nat-mul : (m n : ℕ) → mul (pos (m * 1000 / 1)) (pos (n * 1000 / 1)) ≡ pos (m * n * 1000 / 1)
of_nat-mul m n = let e = thousands m n in ground arith

of_quotient_le :
    (m n k : ℕ)
    → m ≤ n * k
    → leb_ℤ (div (pos (m * 1000 / 1)) (pos (n * 1000 / 1))) (pos (k * 1000 / 1)) ≡ true
of_quotient_le m n k h =
    let small : m * 1000 * 1000 ≤ n * 1000 * (k * 1000) = omega (arith, thousands n k) in
    let p = Nat.div-le_of_le-mul (n * 1000) small in ground arith

div_le : (a b c : ℕ) → a ≤ b → a / c ≤ b / c
div_le a b zero h = rw (Nat.div-zero a, Nat.div-zero b) (omega arith)
div_le a b (suc c) h =
    (Nat.le-div_iff_mul-le (omega arith)).1 (
      let below = Nat.mul-div-le a (suc c) in
      omega (arith, below, Nat.mul_comm (suc c) (a / suc c)))

mul_mono :
    (a b c : ℤ)
    → leb_ℤ (pos 0) a ≡ true
    → leb_ℤ a b ≡ true
    → leb_ℤ (pos 0) c ≡ true
    → (leb_ℤ (pos 0) (mul a c) ≡ true) × (leb_ℤ (mul a c) (mul b c) ≡ true)
mul_mono (pos a) (pos b) (pos c) h1 h2 h3 =
    let p = div_le (a * c) (b * c) 1000 (Nat.mul-le-mul_right c (ground arith)) in ground arith
mul_mono (negsuc a) b c h1 h2 h3 = absurd (ground arith)
mul_mono (pos a) (negsuc b) c h1 h2 h3 = absurd (ground arith)
mul_mono (pos a) (pos b) (negsuc c) h1 h2 h3 = absurd (ground arith)

div_mono :
    (a b c : ℤ)
    → leb_ℤ (pos 0) a ≡ true
    → leb_ℤ a b ≡ true
    → ltb_ℤ (pos 0) c ≡ true
    → (leb_ℤ (pos 0) (div a c) ≡ true) × (leb_ℤ (div a c) (div b c) ≡ true)
div_mono (pos a) (pos b) (pos c) h1 h2 h3 =
    let p = div_le (a * 1000) (b * 1000) c (Nat.mul-le-mul_right 1000 (ground arith)) in
    ground arith
div_mono (negsuc a) b c h1 h2 h3 = absurd (ground arith)
div_mono (pos a) (negsuc b) c h1 h2 h3 = absurd (ground arith)
div_mono (pos a) (pos b) (negsuc c) h1 h2 h3 = absurd (ground arith)

truncate-floor :
    (a : ℤ) (n : ℕ)
    → leb_ℤ (pos 0) a ≡ true
    → leb_ℤ a (pos (n * 1000 / 1)) ≡ true
    → (k : ℕ) × (truncate a ≡ some (pos k))
      × (k ≤ n)
      × (leb_ℤ (pos (k * 1000 / 1)) a ≡ true)
      × (ltb_ℤ a (pos ((k + 1) * 1000 / 1)) ≡ true)
truncate-floor (pos a) n h1 h2 = (a / 1000, refl, ground arith, ground arith, ground arith)
truncate-floor (negsuc a) n h1 h2 = absurd (ground arith)

truncate-quotient :
    (m n : ℕ)
    → 0 < n
    → truncate (div (pos (m * 1000 / 1)) (pos (n * 1000 / 1))) ≡ some (pos (m / n))
truncate-quotient m n h =
    let hm : m * 1000 / 1 ≡ m * 1000 = omega arith in
    let hn : n * 1000 / 1 ≡ n * 1000 = omega arith in
    ap (λ k. some (pos k))
      (rw (hm, hn)
        (Nat.div-div-eq-div-mul (m * 1000 * 1000) (n * 1000) 1000
          ∙ Nat.mul-div-mul_right (m * 1000) (n * 1000) (omega arith)
          ∙ Nat.mul-div-mul_right m n (omega arith)))

of_scaled_quotient :
    (m n k : ℕ)
    → m ≤ n
    → (leb_ℤ (pos 0) (div (mul (pos (m * 1000 / 1)) (pos (k * 1000 / 1))) (pos (n * 1000 / 1)))
        ≡ true)
      × (leb_ℤ
            (div (mul (pos (m * 1000 / 1)) (pos (k * 1000 / 1))) (pos (n * 1000 / 1)))
            (pos ((k + 1) * 1000 / 1))
          ≡ true)
of_scaled_quotient m n k h =
    let product = of_nat-mul m k in
    let below : m * k ≤ n * (k + 1) =
      let le = Nat.mul-le-mul_right k h in
      let more : n * (k + 1) ≡ n * k + n = Nat.mul-add n k 1 ∙ omega arith in
      omega (arith, le, more) in
    (
      subst (λ x. leb_ℤ (pos 0) (div x (pos (n * 1000 / 1))) ≡ true) (sym product) (ground arith),
      subst (λ x. leb_ℤ (div x (pos (n * 1000 / 1))) (pos ((k + 1) * 1000 / 1)) ≡ true)
          (sym product) (of_quotient_le (m * k) n (k + 1) below),
    )

pub fixed-Laws : Laws ℤ
fixed-Laws = record {
  le_trans = λ {a} {b} {c} h k. le_trans a b c h k;
  lt→le = λ {a} {b} h. lt→le a b h;
  lt_irrefl = lt_irrefl;
  add_comm = add_comm;
  mul_comm = mul_comm;
  add-zero = add-zero;
  sub-zero = sub-zero;
  one-mul = one-mul;
  zero-mul = λ {a} h. zero-mul a;
  add_mono = λ {a} {b} {c} n h. add_mono a b c h;
  le-add_nonneg = λ {a} {b} h k. le-add_nonneg a b h k;
  add_pos = λ {a} {b} h k. add_pos a b h k;
  sub_nonneg = λ {a} {b} n h. sub_nonneg a b h;
  sub_nonpos = λ {a} {b} n h. sub_nonpos a b h;
  between-IsFinite = λ h k n. refl;
  part_nonneg = λ {k} {a} h1 h2 n h. part_nonneg k a h1 h2 h;
  part_nonpos = λ {k} {a} h1 h2 n h. part_nonpos k a h1 h2 h;
  quotient_unit = λ {a} {b} h1 h2 p n. quotient_unit a b h1 h2;
  rest_unit = λ {k} h1 h2. rest_unit k h1 h2;
  neg_le = neg_le;
  le→not_lt = λ {a} {b} h. le→not_lt a b h;
  of_nat_mono = of_nat_mono;
  of_nat_pos = of_nat_pos;
  of_nat-IsFinite = λ h. refl;
  of_nat-mul = λ {m} {n} h. of_nat-mul m n;
  quotient_le = λ {m} {n} {k} hm hn hk p h. of_quotient_le m n k h;
  mul_mono = λ {a} {b} {c} h1 h2 h3 n1 n2. mul_mono a b c h1 h2 h3;
  div_mono = λ {a} {b} {c} h1 h2 h3 n1 n2. div_mono a b c h1 h2 h3;
  scaled_quotient = λ {m} {n} {k} h p s sk. of_scaled_quotient m n k h;
  to_int-floor = λ {a} {n} s h1 h2. truncate-floor a n h1 h2;
  to_int-quotient = λ {m} {n} hm hn h. truncate-quotient m n h;
  length-bytes = λ a. refl;
}

-- ===== src/Base/Lists.antt =====
-- C arrays as lists over the native numbers, and `memcpy` between them.
use Prim.Native.Nat.{ℕ, zero, suc, ◌+◌, ◌-◌, ◌≤◌, ◌<◌, min}
use mathlib.Core.Path.{◌≡◌, refl, ap, ap₂, ◌∙◌}
use mathlib.Core.Logic.{◌≢◌, ◌⊎◌, inl, inr}
use mathlib.Core.List.{List, [], ◌∷◌, ◌++◌}
use mathlib.Core.Option.{Option, none, some}
use native.Mathlib.Omega.{arith}
use embed_rtos.Base.Test.{leb, if◌then◌else◌}

module _ {ℓ} {A : Type ℓ} where
  abbrev pub length : List A → ℕ
  length [] = 0
  length (_ ∷ xs) = suc (length xs)

  abbrev pub get_or : List A → ℕ → A → A
  get_or [] i d = d
  get_or (x ∷ xs) zero d = x
  get_or (x ∷ xs) (suc i) d = get_or xs i d

  abbrev pub get_elem? : List A → ℕ → Option A
  get_elem? [] i = none
  get_elem? (x ∷ xs) zero = some x
  get_elem? (x ∷ xs) (suc i) = get_elem? xs i

  -- A write out of bounds changes nothing: the callers check the range first.
  abbrev pub set : List A → ℕ → A → List A
  set [] i v = []
  set (x ∷ xs) zero v = v ∷ xs
  set (x ∷ xs) (suc i) v = x ∷ set xs i v

  abbrev pub take : ℕ → List A → List A
  take zero xs = []
  take (suc n) [] = []
  take (suc n) (x ∷ xs) = x ∷ take n xs

  abbrev pub drop : ℕ → List A → List A
  drop zero xs = xs
  drop (suc n) [] = []
  drop (suc n) (x ∷ xs) = drop n xs

  abbrev pub replicate : ℕ → A → List A
  replicate zero a = []
  replicate (suc n) a = a ∷ replicate n a

module _ {ℓ} {A : Type ℓ} where
  pub length-append : (xs ys : List A) → length (xs ++ ys) ≡ length xs + length ys
  length-append [] ys = omega arith
  length-append (x ∷ xs) ys = omega (arith, length-append xs ys)

  pub length-set : (xs : List A) (i : ℕ) (v : A) → length (set xs i v) ≡ length xs
  length-set [] i v = refl
  length-set (x ∷ xs) zero v = refl
  length-set (x ∷ xs) (suc i) v = ap suc (length-set xs i v)

  pub length-replicate : (n : ℕ) (a : A) → length (replicate n a) ≡ n
  length-replicate zero a = refl
  length-replicate (suc n) a = ap suc (length-replicate n a)

  pub length-take : (n : ℕ) (xs : List A) → length (take n xs) ≡ min n (length xs)
  length-take zero xs = omega arith
  length-take (suc n) [] = omega arith
  length-take (suc n) (x ∷ xs) = omega (arith, length-take n xs)

  pub length-drop : (n : ℕ) (xs : List A) → length (drop n xs) ≡ length xs - n
  length-drop zero xs = omega arith
  length-drop (suc n) [] = omega arith
  length-drop (suc n) (x ∷ xs) = omega (arith, length-drop n xs)

  pub take-append-drop : (n : ℕ) (xs : List A) → take n xs ++ drop n xs ≡ xs
  take-append-drop zero xs = refl
  take-append-drop (suc n) [] = refl
  take-append-drop (suc n) (x ∷ xs) = ap (λ ys. x ∷ ys) (take-append-drop n xs)

  pub get_or-set_self :
      (xs : List A) (i : ℕ) (v d : A) → i < length xs → get_or (set xs i v) i d ≡ v
  get_or-set_self [] i v d h = absurd (omega arith)
  get_or-set_self (x ∷ xs) zero v d h = refl
  get_or-set_self (x ∷ xs) (suc i) v d h = get_or-set_self xs i v d (omega arith)

  pub get_or-set_ne :
      (xs : List A) (i j : ℕ) (v d : A) → i ≢ j → get_or (set xs i v) j d ≡ get_or xs j d
  get_or-set_ne [] i j v d h = refl
  get_or-set_ne (x ∷ xs) zero zero v d h = absurd (h refl)
  get_or-set_ne (x ∷ xs) zero (suc j) v d h = refl
  get_or-set_ne (x ∷ xs) (suc i) zero v d h = refl
  get_or-set_ne (x ∷ xs) (suc i) (suc j) v d h = get_or-set_ne xs i j v d (λ e. h (ap suc e))

  pub get_elem?-set_self :
      (xs : List A) (i : ℕ) (v : A) → i < length xs → get_elem? (set xs i v) i ≡ some v
  get_elem?-set_self [] i v h = absurd (omega arith)
  get_elem?-set_self (x ∷ xs) zero v h = refl
  get_elem?-set_self (x ∷ xs) (suc i) v h = get_elem?-set_self xs i v (omega arith)

  pub get_elem?-set_ne :
      (xs : List A) (i j : ℕ) (v : A) → i ≢ j → get_elem? (set xs i v) j ≡ get_elem? xs j
  get_elem?-set_ne [] i j v h = refl
  get_elem?-set_ne (x ∷ xs) zero zero v h = absurd (h refl)
  get_elem?-set_ne (x ∷ xs) zero (suc j) v h = refl
  get_elem?-set_ne (x ∷ xs) (suc i) zero v h = refl
  get_elem?-set_ne (x ∷ xs) (suc i) (suc j) v h = get_elem?-set_ne xs i j v (λ e. h (ap suc e))

  pub set-set : (xs : List A) (i : ℕ) (v w : A) → set (set xs i v) i w ≡ set xs i w
  set-set [] i v w = refl
  set-set (x ∷ xs) zero v w = refl
  set-set (x ∷ xs) (suc i) v w = ap (λ ys. x ∷ ys) (set-set xs i v w)

  pub lt-length_of_some : (xs : List A) (i : ℕ) {x : A} → get_elem? xs i ≡ some x → i < length xs
  lt-length_of_some [] i h = cc
  lt-length_of_some (x ∷ xs) zero h = omega arith
  lt-length_of_some (x ∷ xs) (suc i) h = omega (arith, lt-length_of_some xs i h)

  pub get_or_of_some :
      (xs : List A) (i : ℕ) (d : A) {x : A} → get_elem? xs i ≡ some x → get_or xs i d ≡ x
  get_or_of_some [] i d h = cc
  get_or_of_some (x ∷ xs) zero d h = cc
  get_or_of_some (x ∷ xs) (suc i) d h = get_or_of_some xs i d h

  -- Where an index into a list with one more element points.
  pub get_elem?-snoc :
      (xs : List A) (y : A) (j : ℕ) {u : A}
      → get_elem? (xs ++ (y ∷ [])) j ≡ some u
      → (get_elem? xs j ≡ some u) ⊎ ((j ≡ length xs) × (u ≡ y))
  get_elem?-snoc [] y zero h = inr (refl, cc)
  get_elem?-snoc [] y (suc j) h = cc
  get_elem?-snoc (x ∷ xs) y zero h = inl h
  get_elem?-snoc (x ∷ xs) y (suc j) h = elim (get_elem?-snoc xs y j h) [
    | inl p ↦ inl p
    | inr p ↦ inr (ap suc p.0, p.1)
  ]

  pub get_elem?-append_last :
      (xs : List A) (y : A) → get_elem? (xs ++ (y ∷ [])) (length xs) ≡ some y
  get_elem?-append_last [] y = refl
  get_elem?-append_last (x ∷ xs) y = get_elem?-append_last xs y

  pub get_elem?-append_left :
      (xs ys : List A) (i : ℕ) {x : A} → get_elem? xs i ≡ some x → get_elem? (xs ++ ys) i ≡ some x
  get_elem?-append_left [] ys i h = cc
  get_elem?-append_left (x ∷ xs) ys zero h = h
  get_elem?-append_left (x ∷ xs) ys (suc i) h = get_elem?-append_left xs ys i h

  -- `n` elements of `xs` from index `i`; those out of range read as `d`.
  abbrev pub slice : List A → A → ℕ → ℕ → List A
  slice xs d i zero = []
  slice xs d i (suc n) = get_or xs i d ∷ slice xs d (suc i) n

  -- `ys` written over `xs` from index `i` on, element by element.
  abbrev pub splice : List A → ℕ → List A → List A
  splice xs i [] = xs
  splice xs i (y ∷ ys) = splice (set xs i y) (suc i) ys

  pub length-splice : (xs : List A) (i : ℕ) (ys : List A) → length (splice xs i ys) ≡ length xs
  length-splice xs i [] = refl
  length-splice xs i (y ∷ ys) = length-splice (set xs i y) (suc i) ys ∙ length-set xs i y

  pub length-slice : (xs : List A) (d : A) (i n : ℕ) → length (slice xs d i n) ≡ n
  length-slice xs d i zero = refl
  length-slice xs d i (suc n) = ap suc (length-slice xs d (suc i) n)

  pub get_or-splice_outside :
      (xs : List A) (i : ℕ) (ys : List A) (j : ℕ) (d : A)
      → (j < i) ⊎ (i + length ys ≤ j)
      → get_or (splice xs i ys) j d ≡ get_or xs j d
  get_or-splice_outside xs i [] j d h = refl
  get_or-splice_outside xs i (y ∷ ys) j d h =
      get_or-splice_outside (set xs i y) (suc i) ys j d (omega arith)
      ∙ get_or-set_ne xs i j y d (omega arith)

  pub slice-shift :
      (x : A) (xs : List A) (d : A) (i n : ℕ) → slice (x ∷ xs) d (suc i) n ≡ slice xs d i n
  slice-shift x xs d i zero = refl
  slice-shift x xs d i (suc n) = ap (λ ys. get_or xs i d ∷ ys) (slice-shift x xs d (suc i) n)

  -- Reading a whole array gives it back.
  pub slice-all : (xs : List A) (d : A) → slice xs d 0 (length xs) ≡ xs
  slice-all [] d = refl
  slice-all (x ∷ xs) d = ap (λ ys. x ∷ ys) (slice-shift x xs d 0 (length xs) ∙ slice-all xs d)

  pub slice-add :
      (xs : List A) (d : A) (i m n : ℕ)
      → slice xs d i (m + n) ≡ slice xs d i m ++ slice xs d (i + m) n
  slice-add xs d i zero n = ap₂ (slice xs d) (omega arith) (omega arith)
  slice-add xs d i (suc m) n =
      ap (slice xs d i) (let e : suc m + n ≡ suc (m + n) = omega arith in e)
      ∙ ap (λ ys. get_or xs i d ∷ ys)
          (slice-add xs d (suc i) m n
            ∙ ap (λ j. slice xs d (suc i) m ++ slice xs d j n) (omega arith))

  -- Reading what was just written.
  pub slice-splice_self :
      (xs : List A) (d : A) (i : ℕ) (ys : List A)
      → i + length ys ≤ length xs
      → slice (splice xs i ys) d i (length ys) ≡ ys
  slice-splice_self xs d i [] h = refl
  slice-splice_self xs d i (y ∷ ys) h =
      ap₂ ◌∷◌
        (get_or-splice_outside (set xs i y) (suc i) ys i d (omega arith)
          ∙ get_or-set_self xs i y d (omega arith))
        (slice-splice_self (set xs i y) d (suc i) ys (omega (arith, length-set xs i y)))

  -- A read that does not touch what was written.
  pub slice-splice_apart :
      (xs : List A) (d : A) (i : ℕ) (ys : List A) (j n : ℕ)
      → (j + n ≤ i) ⊎ (i + length ys ≤ j)
      → slice (splice xs i ys) d j n ≡ slice xs d j n
  slice-splice_apart xs d i ys j zero h = refl
  slice-splice_apart xs d i ys j (suc n) h =
      ap₂ ◌∷◌ (get_or-splice_outside xs i ys j d (omega arith))
        (slice-splice_apart xs d i ys (suc j) n (omega arith))

-- `memcpy` out of and into an array of bytes; `none` is an access out of bounds.
unfoldable pub read_bytes : List ℕ → ℕ → ℕ → Option (List ℕ)
read_bytes buf i n = if leb (i + n) (length buf) then some (slice buf 0 i n) else none

unfoldable pub write_bytes : List ℕ → ℕ → List ℕ → Option (List ℕ)
write_bytes buf i ys = if leb (i + length ys) (length buf) then some (splice buf i ys) else none

pub read_bytes-in_range :
    (buf : List ℕ) (i n : ℕ) → i + n ≤ length buf → read_bytes buf i n ≡ some (slice buf 0 i n)
unfolding read_bytes
read_bytes-in_range buf i n h = ground arith

pub write_bytes-in_range :
    (buf : List ℕ) (i : ℕ) (ys : List ℕ)
    → i + length ys ≤ length buf
    → write_bytes buf i ys ≡ some (splice buf i ys)
unfolding write_bytes
write_bytes-in_range buf i ys h = ground arith

pub get_elem?-in_range :
    (xs : List ℕ) (i : ℕ) → i < length xs → get_elem? xs i ≡ some (get_or xs i 0)
get_elem?-in_range [] i h = absurd (omega arith)
get_elem?-in_range (x ∷ xs) zero h = refl
get_elem?-in_range (x ∷ xs) (suc i) h = get_elem?-in_range xs i (omega arith)

-- ===== src/Base/Splits.antt =====
-- Lists cut in two, and copies of two parts.
use Prim.Native.Nat.{ℕ, zero, suc, ◌+◌, ◌≤◌}
use mathlib.Core.Path.{◌≡◌, refl, sym, ap, ap₂, ◌∙◌}
use mathlib.Core.List.{List, [], ◌∷◌, ◌++◌}
use native.Mathlib.Omega.{arith}
use embed_rtos.Base.Lists.{length, take, drop, set, splice, slice, slice-shift, get_elem?}

module _ {ℓ} {A : Type ℓ} where
  pub drop-append_left :
      (k : ℕ) (xs ys : List A) → k ≤ length xs → drop k (xs ++ ys) ≡ drop k xs ++ ys
  drop-append_left zero xs ys h = refl
  drop-append_left (suc k) [] ys h = absurd (omega arith)
  drop-append_left (suc k) (x ∷ xs) ys h = drop-append_left k xs ys (omega arith)

  pub drop-nil : (n : ℕ) → drop {A = A} n [] ≡ []
  drop-nil zero = refl
  drop-nil (suc n) = refl

  pub drop-drop : (j k : ℕ) (xs : List A) → drop j (drop k xs) ≡ drop (k + j) xs
  drop-drop j zero xs = ap (λ n. drop n xs) (omega arith)
  drop-drop j (suc k) [] = drop-nil j ∙ sym (drop-nil (suc k + j))
  drop-drop j (suc k) (x ∷ xs) =
      drop-drop j k xs
      ∙ ap (λ n. drop n (x ∷ xs)) (let e : suc (k + j) ≡ suc k + j = omega arith in e)

  pub take-append_left :
      (ys zs : List A) (n m : ℕ) → length ys ≡ n → take (n + m) (ys ++ zs) ≡ ys ++ take m zs
  take-append_left [] zs n m e = ap (λ k. take k zs) (omega arith)
  take-append_left (y ∷ ys) zs n m e =
      ap (λ k. take k (y ∷ (ys ++ zs))) (let e' : n + m ≡ suc (length ys + m) = omega arith in e')
      ∙ ap (λ xs. y ∷ xs) (take-append_left ys zs (length ys) m refl)

  pub drop-append_length : (ys zs : List A) (n : ℕ) → length ys ≡ n → drop n (ys ++ zs) ≡ zs
  drop-append_length ys zs n e = ap (λ k. drop k (ys ++ zs)) (sym e) ∙ same ys
    where
      same : (xs : List A) → drop (length xs) (xs ++ zs) ≡ zs
      same [] = refl
      same (x ∷ xs) = same xs

  -- Two copies one behind the other are one copy.
  pub splice-append :
      (xs : List A) (i j : ℕ) (ys zs : List A)
      → j ≡ i + length ys
      → splice (splice xs i ys) j zs ≡ splice xs i (ys ++ zs)
  splice-append xs i j [] zs e = ap (λ k. splice xs k zs) (omega arith)
  splice-append xs i j (y ∷ ys) zs e = splice-append (set xs i y) (suc i) j ys zs (omega arith)

  -- A copy over the start of an array.
  pub splice-start :
      (xs ys : List A) → length ys ≤ length xs → splice xs 0 ys ≡ ys ++ drop (length ys) xs
  splice-start xs [] h = refl
  splice-start [] (y ∷ ys) h = absurd (omega arith)
  splice-start (x ∷ xs) (y ∷ ys) h =
      shifted y xs 0 ys ∙ ap (λ zs. y ∷ zs) (splice-start xs ys (omega arith))
    where
      shifted :
          (z : A) (ws : List A) (i : ℕ) (bs : List A)
          → splice (z ∷ ws) (suc i) bs ≡ z ∷ splice ws i bs
      shifted z ws i [] = refl
      shifted z ws i (b ∷ bs) = shifted z (set ws i b) (suc i) bs

  -- The part in the middle, and an element behind a prefix.
  pub slice-middle :
      (xs ys zs : List A) (d : A) (i n : ℕ)
      → length xs ≡ i
      → length ys ≡ n
      → slice (xs ++ (ys ++ zs)) d i n ≡ ys
  slice-middle xs ys zs d i n ei en = ap₂ (slice (xs ++ (ys ++ zs)) d) (sym ei) (sym en) ∙ skip xs
    where
      start : (ws : List A) → slice (ws ++ zs) d 0 (length ws) ≡ ws
      start [] = refl
      start (a ∷ ws) = ap (λ bs. a ∷ bs) (slice-shift a (ws ++ zs) d 0 (length ws) ∙ start ws)

      skip : (ws : List A) → slice (ws ++ (ys ++ zs)) d (length ws) (length ys) ≡ ys
      skip [] = start ys
      skip (a ∷ ws) = slice-shift a (ws ++ (ys ++ zs)) d (length ws) (length ys) ∙ skip ws

  pub get_elem?-append_right :
      (xs ys : List A) (i k : ℕ) → i ≡ length xs + k → get_elem? (xs ++ ys) i ≡ get_elem? ys k
  get_elem?-append_right [] ys i k e = ap (get_elem? ys) (omega arith)
  get_elem?-append_right (x ∷ xs) ys i k e =
      ap (get_elem? (x ∷ (xs ++ ys))) (let e' : i ≡ suc (length xs + k) = omega arith in e')
      ∙ get_elem?-append_right xs ys (length xs + k) k refl

  -- A write behind a prefix.
  pub set-middle :
      (xs : List A) (y : A) (ys : List A) (v : A)
      → set (xs ++ (y ∷ ys)) (length xs) v ≡ xs ++ (v ∷ ys)
  set-middle [] y ys v = refl
  set-middle (x ∷ xs) y ys v = ap (λ zs. x ∷ zs) (set-middle xs y ys v)

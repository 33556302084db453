-- ===== src/Base/Rows.antt =====
-- The loops of the dumps of memory, by rows of sixteen bytes over an offset of 32 bits. `read` is the
-- read of a byte; `none` is an access out of bounds.
use Prim.Native.Nat.{ℕ, zero, suc, ◌+◌, ◌-◌, ◌*◌, ◌/◌, ◌%◌, ◌≤◌, ◌<◌, min}
use mathlib.Core.Path.{◌≡◌, refl, sym, ap, ◌∙◌}
use mathlib.Core.Logic.{inl, inr}
use mathlib.Core.Bool.{true}
use mathlib.Core.List.{List, [], ◌∷◌}
use mathlib.Core.Option.{Option, none, some}
use native.Mathlib.Omega.{arith}
use embed_rtos.Base.Test.{ltb, if◌then◌else◌, ◌>>=◌, ltb→lt, Bool-cases, Option-cases, ◌==◌}
use embed_rtos.Base.Word.{add32}

module _ (read : ℕ → Option ℕ) where
  -- The bytes of the row at offset `i`, from column `j` on, with `n` columns left.
  pub read_row : ℕ → ℕ → ℕ → ℕ → ℕ → Option (List ℕ)
  read_row address size i j zero = some []
  read_row address size i j (suc n) =
      let rest = read_row address size i (j + 1) n in
      if ltb (add32 i j) size
      then (read (add32 (add32 address i) j) >>= λ b. rest >>= λ r. some (b ∷ r))
      else some []

  -- The rows from offset `i` on; the fuel is more than their number.
  pub read_rows : ℕ → ℕ → ℕ → ℕ → Option (List (List ℕ))
  read_rows zero address size i = none
  read_rows (suc fuel) address size i =
      let rest = read_rows fuel address size (add32 i 16) in
      if ltb i size
      then (read_row address size i 0 16 >>= λ row. rest >>= λ rows. some (row ∷ rows))
      else some []

-- `n` bytes from an address on, which wraps around.
pub bytes_from : (ℕ → ℕ) → ℕ → ℕ → List ℕ
bytes_from view address zero = []
bytes_from view address (suc n) = view (address % 4294967296) ∷ bytes_from view (address + 1) n

-- `n` rows from offset `i` on, each of sixteen bytes or what is left.
pub rows_from : (ℕ → ℕ) → ℕ → ℕ → ℕ → ℕ → List (List ℕ)
rows_from view address size i zero = []
rows_from view address size i (suc n) =
    bytes_from view (address + i) (min 16 (size - i)) ∷ rows_from view address size (i + 16) n

-- Where every byte of the dump can be read.
module _ (read : ℕ → Option ℕ) (view : ℕ → ℕ) (address size : ℕ) (small : size + 16 ≤ 4294967296)
    (readable : (k : ℕ)
      → k < size
      → read ((address + k) % 4294967296) ≡ some (view ((address + k) % 4294967296))) where
  read_row-bytes_from :
      (i j n : ℕ)
      → i ≤ size
      → j + n ≤ 16
      → read_row read address size i j n
        ≡ some (bytes_from view (address + (i + j)) (min n (size - (i + j))))
  unfolding read_row bytes_from
  read_row-bytes_from i j zero hi hj =
      rw (let e : min 0 (size - (i + j)) ≡ 0 = omega arith in e) refl
  read_row-bytes_from i j (suc n) hi hj =
      let offset : add32 i j ≡ i + j = omega arith in
      let spot : add32 (add32 address i) j ≡ (address + (i + j)) % 4294967296 = omega arith in
      let rest = read_row-bytes_from i (j + 1) n hi (omega arith) in
      rw offset (elim (Bool-cases (ltb (i + j) size)) [
        | inl e ↦
            let next : address + suc (i + j) ≡ address + (i + j) + 1 = omega arith in
            let fewer : i + (j + 1) ≡ suc (i + j) = omega arith in
            let more : min (suc n) (size - (i + j)) ≡ suc (min n (size - suc (i + j))) =
              omega (arith, ltb→lt (i + j) size e) in
            rw
              (
                e,
                spot,
                readable (i + j) (ltb→lt (i + j) size e),
                ◌>>=◌,
                rest,
                ◌>>=◌,
                fewer,
                next,
                more,
              )
              refl
        | inr e ↦ let end : min (suc n) (size - (i + j)) ≡ 0 = ground arith in rw (e, end) refl
      ])

  read_rows-rows_from :
      (fuel i : ℕ)
      → i ≤ size + 15
      → size + 16 ≤ i + 16 * fuel
      → read_rows read fuel address size i
        ≡ some (rows_from view address size i ((size + 15 - i) / 16))
  unfolding read_rows rows_from
  read_rows-rows_from zero i hi hf = absurd (omega arith)
  read_rows-rows_from (suc fuel) i hi hf = elim (Bool-cases (ltb i size)) [
    | inl e ↦
        let below = ltb→lt i size e in
        let here : i + 0 ≡ i = omega arith in
        let next : add32 i 16 ≡ i + 16 = omega arith in
        let more : (size + 15 - i) / 16 ≡ suc ((size + 15 - (i + 16)) / 16) = omega arith in
        rw
          (
            e,
            read_row-bytes_from i 0 16 (omega arith) (omega arith),
            ◌>>=◌,
            next,
            read_rows-rows_from fuel (i + 16) (omega arith) (omega arith),
            ◌>>=◌,
            more,
            here,
          )
          refl
    | inr e ↦ let none_left : (size + 15 - i) / 16 ≡ 0 = ground arith in rw (e, none_left) refl
  ]

  -- The whole dump.
  pub read_rows-all :
      read_rows read (suc size) address size 0
      ≡ some (rows_from view address size 0 ((size + 15) / 16))
  read_rows-all =
      read_rows-rows_from (suc size) 0 (omega arith) (omega arith)
      ∙ ap (λ k. some (rows_from view address size 0 (k / 16))) (omega arith)

some-none : {A : Type 0} {x : A} → some x ≡ none → ⊥
some-none h = cc

-- Where a byte of the dump, the one at offset `k`, cannot be read.
module _ (read : ℕ → Option ℕ) (address size k : ℕ) (small : size + 16 ≤ 4294967296)
    (within : k < size) (fails : read ((address + k) % 4294967296) ≡ none) where
  read_row-none :
      (i j n : ℕ) → i + j ≤ k → k < i + j + n → j + n ≤ 16 → read_row read address size i j n ≡ none
  unfolding read_row
  read_row-none i j zero lo hi hj = absurd (omega arith)
  read_row-none i j (suc n) lo hi hj =
      let offset : add32 i j ≡ i + j = omega arith in
      let spot : add32 (add32 address i) j ≡ (address + (i + j)) % 4294967296 = omega arith in
      let inside : ltb (i + j) size ≡ true = ground arith in
      rw (offset, inside, spot)
        (elim (Option-cases (read ((address + (i + j)) % 4294967296))) [
          | inl e ↦ rw (e, ◌>>=◌) refl
          | inr p ↦ elim (Bool-cases (i + j == k)) [
            | inl e ↦
                let same : i + j ≡ k = ground arith in
                absurd
                  (some-none (sym p.1 ∙ ap (λ m. read ((address + m) % 4294967296)) same ∙ fails))
            | inr e ↦
                let rest = read_row-none i (j + 1) n (ground arith) (omega arith) (omega arith) in
                rw (p.1, ◌>>=◌, rest, ◌>>=◌) refl
          ]
        ])

  pub read_rows-none :
      (fuel i : ℕ) → i ≤ k → k < i + 16 * fuel → read_rows read fuel address size i ≡ none
  unfolding read_rows
  read_rows-none zero i lo hi = absurd (omega arith)
  read_rows-none (suc fuel) i lo hi =
      let inside : ltb i size ≡ true = ground arith in
      let next : add32 i 16 ≡ i + 16 = omega arith in
      elim (Bool-cases (ltb k (i + 16))) [
        | inl e ↦
            let here = read_row-none i 0 16 (omega arith) (ground arith) (omega arith) in
            rw (inside, here, ◌>>=◌) refl
        | inr e ↦
            let later = read_rows-none fuel (i + 16) (ground arith) (omega arith) in
            elim (Option-cases (read_row read address size i 0 16)) [
              | inl r ↦ rw (inside, r, ◌>>=◌) refl
              | inr p ↦ rw (inside, p.1, ◌>>=◌, next, later, ◌>>=◌) refl
            ]
      ]

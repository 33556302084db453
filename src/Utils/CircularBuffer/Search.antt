-- ===== src/Utils/CircularBuffer/Search.antt =====
-- `circular_buffer_find`. The result `none` inside is the C function's -1; outside it is an access
-- out of bounds.
use native.Mathlib.Nat.{mod-lt, mod-add-mod, mod-eq_of_lt}
use embed_rtos.Base.{
  ℕ, zero, suc, ◌+◌, ◌-◌, ◌%◌, ◌≤◌, ◌<◌, ◌≡◌, refl, sym, ap, ◌∙◌, Option, none, some, List, [], ◌∷◌,
  Bool, true, false, arith, ltb, if◌then◌else◌, ◌||◌, ◌==◌, Bool-cases, inl, inr, get_elem?, get_or,
  length, slice, add_size, sub_size, ◌>>=◌, get_elem?-in_range, length-slice,
}
use embed_rtos.Base.Ring.{window, length-window}
use embed_rtos.Utils.CircularBuffer.{CircularBuffer}
use embed_rtos.Utils.CircularBuffer.Bounds.{IsValid, byte_at, contents, length-contents}

-- The inner loop, with `left` bytes of the pattern to compare, the next at `j`.
pub match_loop : ℕ → ℕ → ℕ → List ℕ → CircularBuffer → Option Bool
match_loop zero j i pattern cb = some true
match_loop (suc left) j i pattern cb =
    get_elem? cb.buffer (add_size (add_size cb.head i) j % cb.capacity) >>= λ byte.
    get_elem? pattern j >>= λ wanted. elim (byte == wanted) [
      | false ↦ some false
      | true ↦ match_loop left (suc j) i pattern cb
    ]

-- The outer loop, with `left` places to try, the next at `i`.
pub find_loop : ℕ → ℕ → List ℕ → ℕ → CircularBuffer → Option (Option ℕ)
find_loop zero i pattern pattern_size cb = some none
find_loop (suc left) i pattern pattern_size cb = match_loop pattern_size 0 i pattern cb >>= λ found.
    elim found [ true ↦ some (some i) | false ↦ find_loop left (suc i) pattern pattern_size cb ]

pub find : Option CircularBuffer → Option (List ℕ) → ℕ → Option (Option ℕ)
find none pattern pattern_size = some none
find (some cb) none pattern_size = some none
find (some cb) (some pattern) pattern_size =
    if pattern_size == 0 || ltb cb.count pattern_size
    then some none
    else find_loop (suc (sub_size cb.count pattern_size)) 0 pattern pattern_size cb

-- The reference: whether a list starts with another, and the first place where it does so.
abbrev pub starts_with : List ℕ → List ℕ → Bool
starts_with [] xs = true
starts_with (p ∷ ps) [] = false
starts_with (p ∷ ps) (x ∷ xs) = if x == p then starts_with ps xs else false

abbrev pub index_from : ℕ → List ℕ → List ℕ → Option ℕ
index_from i ps [] = none
index_from i ps (x ∷ xs) = if starts_with ps (x ∷ xs) then some i else index_from (suc i) ps xs

starts_with-short : (ps xs : List ℕ) → length xs < length ps → starts_with ps xs ≡ false
starts_with-short [] xs h = absurd (omega arith)
starts_with-short (p ∷ ps) [] h = refl
starts_with-short (p ∷ ps) (x ∷ xs) h = ground (arith, starts_with-short ps xs)

index_from-short : (i : ℕ) (ps xs : List ℕ) → length xs < length ps → index_from i ps xs ≡ none
index_from-short i ps [] h = refl
index_from-short i ps (x ∷ xs) h =
    rw (starts_with-short ps (x ∷ xs) h) (index_from-short (suc i) ps xs (omega arith))

module _ {cb : CircularBuffer} (v : IsValid cb) where
  open cb use {buffer, capacity, head, count}

  abbrev from : ℕ → ℕ → List ℕ
  from at n = window (byte_at buffer) capacity (at % capacity) n

  hop : (at : ℕ) → suc at % capacity ≡ (at % capacity + 1) % capacity
  hop at = ap (λ k. k % capacity) (omega arith) ∙ sym (mod-add-mod at capacity 1)

  match_loop-starts_with :
      (left j i n : ℕ) (pattern : List ℕ)
      → left ≤ n
      → i + (j + n) ≤ count
      → j + left ≤ length pattern
      → match_loop left j i pattern cb
        ≡ some (starts_with (slice pattern 0 j left) (from (head + i + j) n))
  unfolding match_loop
  match_loop-starts_with zero j i n pattern hn hc hp = refl
  match_loop-starts_with (suc left) j i zero pattern hn hc hp = absurd (omega arith)
  match_loop-starts_with (suc left) j i (suc n) pattern hn hc hp =
      let at : ℕ = head + i + j in
      let sum : add_size (add_size head i) j ≡ at = omega (arith, v) in
      let next : (head + i + suc j) % capacity ≡ (at % capacity + 1) % capacity =
        ap (λ k. k % capacity) (omega arith) ∙ hop at in
      let byte : get_elem? buffer (add_size (add_size head i) j % capacity)
          ≡ some (byte_at buffer (at % capacity)) =
        ap (λ k. get_elem? buffer (k % capacity)) sum
        ∙ get_elem?-in_range buffer (at % capacity)
            (omega (arith, v, mod-lt at {m = capacity} (omega (arith, v)))) in
      let wanted = get_elem?-in_range pattern j (omega arith) in
      elim (Bool-cases (byte_at buffer (at % capacity) == get_or pattern j 0)) [
        | inl e ↦
            rw (byte, wanted, ◌>>=◌, e)
              (match_loop-starts_with left (suc j) i n pattern (omega arith) (omega arith)
                  (omega arith)
                ∙ ap
                    (λ k. some (
                      starts_with (slice pattern 0 (suc j) left)
                        (window (byte_at buffer) capacity k n)))
                    next)
        | inr e ↦ rw (byte, wanted, ◌>>=◌, e) refl
      ]

  find_loop-index_from :
      (left i n : ℕ) (pattern : List ℕ) (size : ℕ)
      → 0 < size
      → size ≤ length pattern
      → i + n ≡ count
      → n + 1 ≡ left + size
      → find_loop left i pattern size cb
        ≡ some (index_from i (slice pattern 0 0 size) (from (head + i) n))
  unfolding find_loop
  find_loop-index_from zero i n pattern size hz hp hc hn = ap some (
      sym (
        index_from-short i (slice pattern 0 0 size) (from (head + i) n) (
          omega (
            arith,
            length-slice pattern 0 0 size,
            length-window (byte_at buffer) capacity ((head + i) % capacity) n,
          ))))
  find_loop-index_from (suc left) i zero pattern size hz hp hc hn = absurd (omega arith)
  find_loop-index_from (suc left) i (suc n) pattern size hz hp hc hn =
      let found =
        match_loop-starts_with size 0 i (suc n) pattern (omega arith) (omega arith) (omega arith) in
      let start : from (head + i + 0) (suc n) ≡ from (head + i) (suc n) =
        ap (λ k. from k (suc n)) (omega arith) in
      let next : (head + suc i) % capacity ≡ ((head + i) % capacity + 1) % capacity =
        ap (λ k. k % capacity) (omega arith) ∙ hop (head + i) in
      let found' : match_loop size 0 i pattern cb
          ≡ some (starts_with (slice pattern 0 0 size) (from (head + i) (suc n))) =
        found ∙ ap (λ xs. some (starts_with (slice pattern 0 0 size) xs)) start in
      rw found'
        (elim (Bool-cases (starts_with (slice pattern 0 0 size) (from (head + i) (suc n)))) [
          | inl e ↦ rw e refl
          | inr e ↦ rw e (
              find_loop-index_from left (suc i) n pattern size hz hp (omega arith) (omega arith)
              ∙ ap
                  (λ k. some (
                    index_from (suc i) (slice pattern 0 0 size)
                      (window (byte_at buffer) capacity k n)))
                  next)
        ])

-- For a pattern of at least one byte, `circular_buffer_find` ends and stays in bounds, and returns
-- the first place where the bytes held, oldest first, go on with the pattern, as a search of the
-- plain list finds it, or -1 if there is none.
pub find-index_from :
    (pattern : List ℕ) (size : ℕ) {cb : CircularBuffer}
    → IsValid cb
    → 0 < size
    → size ≤ length pattern
    → find (some cb) (some pattern) size
      ≡ some (index_from 0 (slice pattern 0 0 size) (contents cb))
unfolding find
find-index_from pattern size {cb} v hz hp = elim (Bool-cases (ltb cb.count size)) [
  | inl short ↦
      let long : index_from 0 (slice pattern 0 0 size) (contents cb) ≡ none =
        index_from-short 0 (slice pattern 0 0 size) (contents cb)
          (ground (arith, length-slice pattern 0 0 size, length-contents cb)) in
      rw (short, long) (ground arith)
  | inr fits ↦
      let less : sub_size cb.count size ≡ cb.count - size = ground (arith, v) in
      let nonzero : (size == 0) ≡ false = ground arith in
      let start : (cb.head + 0) % cb.capacity ≡ cb.head =
        ap (λ k. k % cb.capacity) {y = cb.head} (omega arith) ∙ mod-eq_of_lt v.head_in in
      rw (nonzero, fits, less)
        (find_loop-index_from v (suc (cb.count - size)) 0 cb.count pattern size hz hp (omega arith)
            (ground arith)
          ∙ ap
              (λ k. some (
                index_from 0 (slice pattern 0 0 size)
                  (window (byte_at cb.buffer) cb.capacity k cb.count)))
              start)
]

-- ===== src/Kernel/Queue/Wrap.antt =====
-- A queue whose size in bytes does not fit `uint32_t`.
use embed_rtos.Base.{
  ℕ, suc, ◌+◌, ◌*◌, ◌%◌, ◌≤◌, ◌<◌, ◌≡◌, refl, sym, ap, ◌∙◌, true, false, Option, none, some, List,
  [], ◌∷◌, ◌++◌, map, arith, ◌>>=◌, ◌==◌, length, replicate, slice, slice-all, splice,
  length-splice, u32, add32, subst, inl, inr, ltb, Bool-cases, write_bytes, read_bytes-in_range,
  write_bytes-in_range,
}
use native.Mathlib.Nat
use embed_rtos.Kernel.Queue.{Queue, create, enqueue, is_full}
use embed_rtos.Kernel.Queue.Runs.{send, run}

abbrev pub AreSized : ℕ → List (List ℕ) → Type 0
AreSized s [] = Unit
AreSized s (x ∷ xs) = (length x ≡ s) × AreSized s xs

-- `j` elements have been sent to a queue whose block holds `k` of its `c` elements of size `s`.
record IsFilled (c s k j : ℕ) (q : Queue) : Type 0 where
  same_capacity : q.capacity ≡ c
  same_size : q.element_size ≡ s
  tail : q.tail ≡ j
  count : q.count ≡ j
  fits : k * s ≤ length q.buffer
  no_more : length q.buffer < suc k * s
  small : length q.buffer < 4294967296

-- An element within the block is put in.
enqueue-fits :
    (c s k j : ℕ) (x : List ℕ) (q : Queue)
    → j < k
    → k < c
    → c < 4294967296
    → length x ≡ s
    → IsFilled c s k j q
    → (q' : Queue) × (enqueue (some q) x ≡ some (true, some q')) × IsFilled c s k (suc j) q'
unfolding enqueue is_full
enqueue-fits c s k j x q hj hk small size f =
    let room : suc j * s ≤ k * s = Nat.mul-le-mul_right s hj in
    let step = Nat.suc-mul j s in
    let not_full : (j == c) ≡ false = ground arith in
    let at : u32 (j * s) ≡ j * s = omega (arith, f, room, step) in
    let next : add32 j 1 % c ≡ suc j =
      ap (λ n. n % c) (let e : add32 j 1 ≡ suc j = omega arith in e)
      ∙ Nat.mod-eq_of_lt (omega arith) in
    let counted : add32 j 1 ≡ suc j = omega arith in
    let src : slice x 0 0 s ≡ x = ap (slice x 0 0) (sym size) ∙ slice-all x 0 in
    let buffer : List ℕ = splice q.buffer (j * s) x in
    let len = length-splice q.buffer (j * s) x in
    (
      record q { buffer = buffer; tail = suc j; count = suc j },
      rw
          (
            f.count,
            f.same_capacity,
            not_full,
            f.same_size,
            read_bytes-in_range x 0 s (omega arith),
            ◌>>=◌,
            src,
            f.tail,
            at,
            write_bytes-in_range q.buffer (j * s) x (omega (arith, f, room, step)),
            ◌>>=◌,
            next,
            counted,
          )
          refl,
      record {
        same_capacity = f.same_capacity;
        same_size = f.same_size;
        tail = refl;
        count = refl;
        fits = rw len f.fits;
        no_more = rw len f.no_more;
        small = rw len f.small;
      },
    )

-- The next one falls behind the block.
enqueue-overruns :
    (c s k : ℕ) (x : List ℕ) (q : Queue)
    → k < c
    → length x ≡ s
    → IsFilled c s k k q
    → enqueue (some q) x ≡ none
unfolding enqueue is_full write_bytes
enqueue-overruns c s k x q hk size f =
    let step = Nat.suc-mul k s in
    let not_full : (k == c) ≡ false = ground arith in
    let at : u32 (k * s) ≡ k * s = omega (arith, f) in
    let src : slice x 0 0 s ≡ x = ap (slice x 0 0) (sym size) ∙ slice-all x 0 in
    let beyond : length q.buffer < k * s + length x = omega (arith, f, step, size) in
    let refused : write_bytes q.buffer (k * s) x ≡ none = ground (arith, beyond) in
    rw
      (
        f.count,
        f.same_capacity,
        not_full,
        f.same_size,
        read_bytes-in_range x 0 s (omega arith),
        ◌>>=◌,
        src,
        f.tail,
        at,
        refused,
        ◌>>=◌,
      )
      refl

sends-fit :
    (c s k j : ℕ) (xs : List (List ℕ)) (q : Queue)
    → j + length xs ≤ k
    → k < c
    → c < 4294967296
    → AreSized s xs
    → IsFilled c s k j q
    → run (some q) (map send xs) ≡ some (replicate (length xs) (true, none))
unfolding run
sends-fit c s k j [] q h hk small sized f = refl
sends-fit c s k j (x ∷ xs) q h hk small sized f =
    let (q', sent, f') = enqueue-fits c s k j x q (omega arith) hk small sized.0 f in
    rw (sent, ◌>>=◌, sends-fit c s k (suc j) xs q' (omega arith) hk small sized.1 f', ◌>>=◌) refl

sends-overrun :
    (c s k j : ℕ) (xs : List (List ℕ)) (x : List ℕ) (q : Queue)
    → j + length xs ≡ k
    → k < c
    → c < 4294967296
    → AreSized s xs
    → length x ≡ s
    → IsFilled c s k j q
    → run (some q) (map send (xs ++ (x ∷ []))) ≡ none
unfolding run
sends-overrun c s k j [] x q h hk small sized size f =
    let same : j ≡ k = omega arith in
    rw (enqueue-overruns c s k x q hk size (subst (λ i. IsFilled c s k i q) same f), ◌>>=◌) refl
sends-overrun c s k j (y ∷ xs) x q h hk small sized size f =
    let (q', sent, f') = enqueue-fits c s k j y q (omega arith) hk small sized.0 f in
    rw
      (
        sent,
        ◌>>=◌,
        sends-overrun c s k (suc j) xs x q' (omega arith) hk small sized.1 size f',
        ◌>>=◌,
      )
      refl

-- Where the capacity fits uint32_t, capacity times element size does not, and malloc grants a block
-- of the size that it is asked for: queue_create succeeds; as many elements of that size as the
-- block holds are sent with success, though it holds fewer than the capacity; and the next
-- queue_enqueue writes behind the block.
pub create-overruns :
    (malloc : ℕ → Option (List ℕ)) (c s : ℕ) (block : List ℕ) (xs : List (List ℕ)) (x : List ℕ)
    → malloc (u32 (c * s)) ≡ some block
    → length block ≡ u32 (c * s)
    → 4294967296 ≤ c * s
    → c < 4294967296
    → AreSized s xs
    → length x ≡ s
    → length xs * s ≤ length block
    → length block < suc (length xs) * s
    → (q : Queue) × (create true malloc c s ≡ some q)
      × (run (some q) (map send xs) ≡ some (replicate (length xs) (true, none)))
      × (run (some q) (map send (xs ++ (x ∷ []))) ≡ none)
      × (length xs < c)
unfolding create
create-overruns malloc c s block xs x granted size wraps small sized size_x fits no_more =
    let k : ℕ = length xs in
    let fewer : k < c = elim (Bool-cases (ltb k c)) [
      | inl e ↦ ground arith
      | inr e ↦
          let more : c * s ≤ k * s = Nat.mul-le-mul_right s (let le : c ≤ k = ground arith in le) in
          absurd (omega (arith, more, fits, size, wraps))
    ] in
    let q : Queue = record {
      buffer = block;
      capacity = c;
      element_size = s;
      head = 0;
      tail = 0;
      count = 0;
    } in
    let filled : IsFilled c s k 0 q = record {
      same_capacity = refl;
      same_size = refl;
      tail = refl;
      count = refl;
      fits = fits;
      no_more = no_more;
      small = omega (arith, size);
    } in
    (
      q,
      rw (granted, ◌>>=◌) refl,
      sends-fit c s k 0 xs q (omega arith) fewer small sized filled,
      sends-overrun c s k 0 xs x q (omega arith) fewer small sized size_x filled,
      fewer,
    )

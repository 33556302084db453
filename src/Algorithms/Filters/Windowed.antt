-- ===== src/Algorithms/Filters/Windowed.antt =====
-- moving_average of src/algorithms/kalman_filter.c against averages that are computed from all the
-- values so far, without a buffer.
use embed_rtos.Base.{
  ℕ, zero, suc, ◌+◌, ◌-◌, ◌%◌, ◌≤◌, ◌<◌, min, ◌≡◌, ◌≢◌, refl, sym, ap, ◌∙◌, true, false, some, List,
  [], ◌∷◌, ◌++◌, inl, inr, arith, ◌>>=◌, if◌then◌else◌, ltb, leb, ◌==◌, length, get_or, get_elem?,
  set, add32, length-set, length-append, get_elem?-set_self, get_elem?-set_ne,
  get_elem?-append_last, lt→ltb, le→leb, leb-false, Bool-cases, leb→le, ltb→lt, get_or_of_some,
}
use embed_rtos.Base.Ring.{mod-ne_start}
use embed_rtos.Base.Float.{Float, of_nat, ◌⊕◌, ◌⊖◌, ◌⊘◌}
use embed_rtos.Algorithms.Filters.{Average, fresh, without_oldest, store, moving_average, averages}
use native.Mathlib.Nat.{mod-lt, mod-add-mod, add-mod_right, mod-eq_of_lt}

-- Two indices less than a turn apart.
mod-apart : (size j k : ℕ) → suc k < size → (j + suc k) % size ≢ j % size
mod-apart size j k h e =
    mod-ne_start size (j % size) k (mod-lt j (omega arith)) h (mod-add-mod j size (suc k) ∙ e)

get_or-append_left :
    {A : Type 0} (xs ys : List A) (i : ℕ) (d : A)
    → i < length xs
    → get_or (xs ++ ys) i d ≡ get_or xs i d
get_or-append_left [] ys i d h = absurd (omega arith)
get_or-append_left (x ∷ xs) ys zero d h = refl
get_or-append_left (x ∷ xs) ys (suc i) d h = get_or-append_left xs ys i d (omega arith)

module _ {F : Type 0} ⦃f : Float F⦄ where
  -- `past` are the values so far and `s` is the sum that is kept. The value that leaves the window
  -- is the one `size` before.
  unfoldable pub window_averages : ℕ → List F → F → List F → List F
  window_averages size past s [] = []
  window_averages size past s (v ∷ vs) =
      let kept =
        if leb size (length past) then s ⊖ get_or past (length past - size) (of_nat 0) else s in
      ((kept ⊕ v) ⊘ of_nat (min (length past + 1) size))
      ∷ window_averages size (past ++ (v ∷ [])) (kept ⊕ v) vs

  -- The buffer holds the last `size` values of `past`, each at its number modulo `size`.
  record Holds (a : Average F) (buffer : List F) (size : ℕ) (past : List F) (s : F) : Type 0 where
    index_at : a.index ≡ length past % size
    count_at : a.count ≡ min (length past) size
    sum_at : a.sum ≡ s
    room : size ≤ length buffer
    window :
        (j : ℕ)
        → j < length past
        → length past ≤ j + size
        → get_elem? buffer (j % size) ≡ some (get_or past j (of_nat 0))

  fresh-Holds :
      (buffer : List F) (size : ℕ)
      → 0 < size
      → size ≤ length buffer
      → Holds fresh buffer size [] (of_nat 0)
  unfolding fresh
  fresh-Holds buffer size pos room = record {
    index_at = sym (mod-eq_of_lt pos);
    count_at = omega arith;
    sum_at = refl;
    room = room;
    window = λ j h k. absurd (omega arith);
  }

  abbrev kept_sum : ℕ → List F → F → F
  kept_sum size past s =
      if leb size (length past) then s ⊖ get_or past (length past - size) (of_nat 0) else s

  without_oldest-kept_sum :
      (a : Average F) (buffer : List F) (size : ℕ) (past : List F) (s : F)
      → 0 < size
      → Holds a buffer size past s
      → without_oldest a buffer size ≡ some (kept_sum size past s)
  unfolding without_oldest
  without_oldest-kept_sum a buffer size past s pos h = elim (Bool-cases (leb size (length past))) [
    | inl e ↦
        let full : size ≤ length past = leb→le size (length past) e in
        let turn : (length past - size) % size ≡ a.index =
          sym (add-mod_right (length past - size) size)
          ∙ ap (λ n. n % size) (omega arith)
          ∙ sym h.index_at in
        rw
          (
            e,
            le→leb size a.count (omega (arith, h.count_at)),
            sym turn,
            h.window (length past - size) (omega arith) (omega arith),
            ◌>>=◌,
            h.sum_at,
          )
          refl
    | inr e ↦ rw (e, leb-false size a.count (ground (arith, h.count_at)), h.sum_at) refl
  ]

  abbrev next : Average F → ℕ → List F → F → F → Average F
  next a size past s v = record {
    index = add32 a.index 1 % size;
    count = if ltb a.count size then add32 a.count 1 else a.count;
    sum = kept_sum size past s ⊕ v;
  }

  -- The window after a value is stored.
  window-step :
      (a : Average F) (buffer : List F) (size : ℕ) (past : List F) (s v : F)
      → 0 < size
      → Holds a buffer size past s
      → (j : ℕ) → j < length past + 1
      → length past + 1 ≤ j + size
      → get_elem? (set buffer (length past % size) v) (j % size)
        ≡ some (get_or (past ++ (v ∷ [])) j (of_nat 0))
  window-step a buffer size past s v pos h j h1 h2 = elim (Bool-cases (ltb j (length past))) [
    | inl e ↦
        let before : j < length past = ltb→lt j (length past) e in
        let gap : j + suc (length past - j - 1) ≡ length past = omega arith in
        let apart : length past % size ≢ j % size =
          λ k. mod-apart size j (length past - j - 1) (omega arith) (ap (λ n. n % size) gap ∙ k) in
        get_elem?-set_ne buffer (length past % size) (j % size) v apart
        ∙ h.window j before (omega arith)
        ∙ ap some (sym (get_or-append_left past (v ∷ []) j (of_nat 0) before))
    | inr e ↦
        let here : j ≡ length past = ground arith in
        rw here (
          get_elem?-set_self buffer (length past % size) v
            (omega (arith, h.room, mod-lt (length past) pos))
          ∙ ap some (
              sym (
                get_or_of_some (past ++ (v ∷ [])) (length past) (of_nat 0)
                  (get_elem?-append_last past v))))
  ]

  after-Holds :
      (a : Average F) (buffer : List F) (size : ℕ) (past : List F) (s v : F)
      → 0 < size
      → size < 4294967296
      → Holds a buffer size past s
      → Holds
          (next a size past s v)
          (set buffer a.index v)
          size
          (past ++ (v ∷ []))
          (kept_sum size past s ⊕ v)
  after-Holds a buffer size past s v pos small h =
      let len = length-append past (v ∷ []) in
      let bound = mod-lt (length past) pos in
      record {
        index_at =
            rw
              (
                h.index_at,
                len,
                mod-eq_of_lt {n = length past % size + 1} {m = 4294967296} (omega arith),
              )
              (mod-add-mod (length past) size 1);
        count_at = rw (h.count_at, len) (ground (arith, h.count_at));
        sum_at = refl;
        room = omega (arith, h.room, length-set buffer a.index v);
        window = λ j h1 h2.
            rw h.index_at (window-step a buffer size past s v pos h j (omega arith) (omega arith));
      }

  moving_average-Holds :
      (a : Average F) (buffer : List F) (size : ℕ) (past : List F) (s v : F)
      → 0 < size
      → size < 4294967296
      → Holds a buffer size past s
      → moving_average a buffer size v
        ≡ some (
          (kept_sum size past s ⊕ v) ⊘ of_nat (min (length past + 1) size),
          next a size past s v,
          set buffer a.index v,
        )
  unfolding moving_average store
  moving_average-Holds a buffer size past s v pos small h =
      let nonzero : (size == 0) ≡ false = ground arith in
      let count : (if ltb a.count size then add32 a.count 1 else a.count)
          ≡ min (length past + 1) size =
        rw h.count_at (ground arith) in
      let inside : ltb a.index (length buffer) ≡ true =
        lt→ltb a.index (length buffer)
          (omega (arith, h.index_at, h.room, mod-lt (length past) pos)) in
      rw (nonzero, without_oldest-kept_sum a buffer size past s pos h, ◌>>=◌, inside, ◌>>=◌, count)
        refl

  averages-Holds :
      (a : Average F) (buffer : List F) (size : ℕ) (past : List F) (s : F) (vs : List F)
      → 0 < size
      → size < 4294967296
      → Holds a buffer size past s
      → averages a buffer size vs ≡ some (window_averages size past s vs)
  unfolding averages window_averages
  averages-Holds a buffer size past s [] pos small h = refl
  averages-Holds a buffer size past s (v ∷ vs) pos small h =
      rw
        (
          moving_average-Holds a buffer size past s v pos small h,
          ◌>>=◌,
          averages-Holds (next a size past s v) (set buffer a.index v) size (past ++ (v ∷ []))
              (kept_sum size past s ⊕ v) vs pos small
              (after-Holds a buffer size past s v pos small h),
          ◌>>=◌,
        )
        refl

  -- With one buffer that has room for the window, the calls of moving_average stay in bounds for any
  -- list of values, and return the averages that a computation from the list of all values gives,
  -- where each value leaves the sum when it is a window old.
  pub averages_refine :
      (buffer : List F) (size : ℕ) (vs : List F)
      → 0 < size
      → size < 4294967296
      → size ≤ length buffer
      → averages fresh buffer size vs ≡ some (window_averages size [] (of_nat 0) vs)
  averages_refine buffer size vs pos small room =
      averages-Holds fresh buffer size [] (of_nat 0) vs pos small (fresh-Holds buffer size pos room)

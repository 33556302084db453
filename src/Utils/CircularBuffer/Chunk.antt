-- ===== src/Utils/CircularBuffer/Chunk.antt =====
-- Chunks of bytes that do not run past the end of the array, copied in at the tail or out at the
-- head.
use native.Mathlib.Nat.{mod-lt, mod-add-mod, mod-eq_of_lt}
use embed_rtos.Base.{
  ℕ, zero, suc, ◌+◌, ◌-◌, ◌%◌, ◌≤◌, ◌<◌, ◌≡◌, sym, ap, ap₂, ◌∙◌, some, List, [], ◌∷◌, ◌++◌,
  append-nil, append_assoc, arith, length, set, drop, true, false, none, slice, splice, length-set,
  length-splice, get_or-set_self, get_or-set_ne, write_bytes-in_range,
}
use embed_rtos.Base.Ring.{window, window-write, window-drop, mod-shift}
use embed_rtos.Utils.CircularBuffer.{CircularBuffer, store, make_room}
use embed_rtos.Utils.CircularBuffer.Bounds.{IsValid, byte_at, contents}

-- The index after `t` where `t` is not the last.
mod-next : (cap h n t : ℕ) → t ≡ (h + n) % cap → suc t < cap → suc t ≡ (h + suc n) % cap
mod-next cap h n t e lt =
    sym (mod-eq_of_lt lt)
    ∙ ap (λ k. k % cap) (let e' : suc t ≡ (h + n) % cap + 1 = omega arith in e')
    ∙ mod-add-mod (h + n) cap 1
    ∙ ap (λ k. k % cap) (omega arith)

-- Bytes written from the end of the window on, up to the end of the array at most, extend it.
window-splice :
    (buf : List ℕ) (cap h n t : ℕ) (ys : List ℕ)
    → length buf ≡ cap
    → h < cap
    → (0 < length ys → t ≡ (h + n) % cap)
    → t + length ys ≤ cap
    → n + length ys ≤ cap
    → window (byte_at (splice buf t ys)) cap h (n + length ys) ≡ window (byte_at buf) cap h n ++ ys
window-splice buf cap h n t [] hs hh ht hr hn =
    ap (window (byte_at buf) cap h) (omega arith) ∙ sym (append-nil _)
window-splice buf cap h n t (y ∷ ys) hs hh ht hr hn =
    ap (window (byte_at (splice (set buf t y) (suc t) ys)) cap h)
      (let e : n + suc (length ys) ≡ suc n + length ys = omega arith in e)
    ∙ window-splice (set buf t y) cap h (suc n) (suc t) ys (length-set buf t y ∙ hs) hh
        (λ p. mod-next cap h n t (ht (omega arith)) (omega arith)) (omega arith) (omega arith)
    ∙ ap (λ xs. xs ++ ys)
        (window-write (byte_at buf) (byte_at (set buf t y)) cap y n h t hh (omega arith)
          (ht (omega arith)) (get_or-set_self buf t y 0 (omega arith))
          (λ j hj ne. get_or-set_ne buf t j y 0 (λ e. ne (sym e))))
    ∙ append_assoc (window (byte_at buf) cap h n) (y ∷ []) ys

-- Bytes read from the head on, up to the end of the array at most, are the first of the window.
pub window-slice :
    (buf : List ℕ) (cap n k h i : ℕ)
    → h < cap
    → (0 < k → i ≡ h)
    → i + k ≤ cap
    → k ≤ n
    → window (byte_at buf) cap h n
      ≡ slice buf 0 i k ++ window (byte_at buf) cap ((h + k) % cap) (n - k)
window-slice buf cap n zero h i hh hi hr hk =
    ap₂ (window (byte_at buf) cap) (omega (arith, mod-eq_of_lt {n = h + 0} {m = cap} (omega arith)))
      (omega arith)
window-slice buf cap zero (suc k) h i hh hi hr hk = absurd (omega arith)
window-slice buf cap (suc n) (suc k) h i hh hi hr hk =
    ap₂ ◌∷◌ (ap (byte_at buf) (sym (hi (omega arith)))) (
      window-slice buf cap n k ((h + 1) % cap) (suc i) (mod-lt (h + 1) (omega arith))
        (λ p. omega (arith, hi, mod-eq_of_lt {n = h + 1} {m = cap} (omega (arith, hi))))
        (omega arith) (omega arith)
      ∙ ap (λ xs. slice buf 0 (suc i) k ++ xs)
          (ap₂ (window (byte_at buf) cap) (sym (mod-shift cap h k)) (omega arith)))

-- The buffer after a chunk has gone in at the tail.
abbrev pub stored : CircularBuffer → List ℕ → CircularBuffer
stored cb src = record cb {
  buffer = splice cb.buffer cb.tail src;
  tail = (cb.tail + length src) % cb.capacity;
  count = cb.count + length src;
}

-- The buffer after the oldest `k` bytes are given up.
abbrev pub advanced : CircularBuffer → ℕ → CircularBuffer
advanced cb k = record cb { head = (cb.head + k) % cb.capacity; count = cb.count - k }

module _ {cb : CircularBuffer} (v : IsValid cb) where
  open cb use {buffer, capacity, head, tail, count}

  pub store-stored :
      (src : List ℕ)
      → tail + length src ≤ capacity
      → count + length src ≤ capacity
      → store cb src ≡ some (stored cb src)
  unfolding store
  store-stored src ht hc = ground (arith, v, write_bytes-in_range buffer tail src)

  pub stored-IsValid :
      (src : List ℕ)
      → tail + length src ≤ capacity
      → count + length src ≤ capacity
      → IsValid (stored cb src)
  stored-IsValid src ht hc = record {
    storage = length-splice buffer tail src ∙ v.storage;
    small = v.small;
    head_in = v.head_in;
    tail_at =
        ap (λ t. (t + length src) % capacity) v.tail_at
        ∙ mod-add-mod (head + count) capacity (length src)
        ∙ ap (λ k. k % capacity) (omega arith);
    count_in = hc;
  }

  pub contents-stored :
      (src : List ℕ)
      → tail + length src ≤ capacity
      → count + length src ≤ capacity
      → contents (stored cb src) ≡ contents cb ++ src
  contents-stored src ht hc =
      window-splice buffer capacity head count tail src v.storage v.head_in (λ p. v.tail_at) ht hc

  pub advanced-IsValid : (k : ℕ) → k ≤ count → IsValid (advanced cb k)
  advanced-IsValid k h = record {
    storage = v.storage;
    small = v.small;
    head_in = mod-lt (head + k) (omega (arith, v));
    tail_at =
        v.tail_at
        ∙ ap (λ i. i % capacity) (omega arith)
        ∙ sym (mod-add-mod (head + k) capacity (count - k));
    count_in = omega (arith, v);
  }

  pub contents-advanced : (k : ℕ) → k ≤ count → contents (advanced cb k) ≡ drop k (contents cb)
  contents-advanced k h = sym (window-drop (byte_at buffer) capacity k count head v.head_in h)

  -- Room for a chunk, on each branch.
  pub make_room-fits : (n : ℕ) → count + n ≤ capacity → make_room cb n ≡ some cb
  unfolding make_room
  make_room-fits n h = ground (arith, v)

  pub make_room-break :
      (n : ℕ) → capacity < count + n → n ≤ capacity → cb.overwrite ≡ false → make_room cb n ≡ none
  unfolding make_room
  make_room-break n h hn o = ground (arith, v)

  pub make_room-advanced :
      (n : ℕ)
      → capacity < count + n
      → n ≤ capacity
      → cb.overwrite ≡ true
      → make_room cb n ≡ some (advanced cb (count + n - capacity))
  unfolding make_room
  make_room-advanced n h hn o = ground (arith, v)

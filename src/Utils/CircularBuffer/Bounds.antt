-- ===== src/Utils/CircularBuffer/Bounds.antt =====
-- The representation invariant of `circular_buffer_t`, and the bytes that it holds.
use native.Mathlib.Nat.{mod-lt}
use embed_rtos.Base.{
  ℕ, ◌+◌, ◌%◌, ◌≤◌, ◌<◌, ◌^◌, ◌≡◌, Bool, Option, some, List, arith, length, get_or,
}
use embed_rtos.Base.Ring.{window, length-window}
use embed_rtos.Utils.CircularBuffer.{CircularBuffer, init}

-- `small` holds of every block that `malloc` grants: no object has 2 ^ 63 bytes.
pub record IsValid (cb : CircularBuffer) : Type 0 where
  pub storage : length cb.buffer ≡ cb.capacity
  pub small : cb.capacity < 2 ^ 63
  pub head_in : cb.head < cb.capacity
  pub tail_at : cb.tail ≡ (cb.head + cb.count) % cb.capacity
  pub count_in : cb.count ≤ cb.capacity

pub tail_in : {cb : CircularBuffer} → IsValid cb → cb.tail < cb.capacity
tail_in {cb} v = omega (arith, v, mod-lt (cb.head + cb.count) {m = cb.capacity} (omega arith))

abbrev pub byte_at : List ℕ → ℕ → ℕ
byte_at buffer i = get_or buffer i 0

-- The bytes that the buffer holds, oldest first.
abbrev pub contents : CircularBuffer → List ℕ
contents cb = window (byte_at cb.buffer) cb.capacity cb.head cb.count

pub length-contents : (cb : CircularBuffer) → length (contents cb) ≡ cb.count
length-contents cb = length-window (byte_at cb.buffer) cb.capacity cb.head cb.count

pub init-IsValid :
    (malloc : ℕ → Option (List ℕ)) (capacity : ℕ) (overwrite : Bool) {cb : CircularBuffer}
    → ((n : ℕ) (block : List ℕ) → malloc n ≡ some block → length block ≡ n)
    → ((n : ℕ) (block : List ℕ) → malloc n ≡ some block → n < 2 ^ 63)
    → init malloc capacity overwrite ≡ some cb
    → IsValid cb × (cb.count ≡ 0) × (cb.capacity ≡ capacity)
unfolding init
init-IsValid malloc capacity overwrite gives limited h =
    grind (arith, gives capacity, limited capacity)

-- ===== src/Kernel/Queue/Bounds.antt =====
-- The representation invariant of `queue_t`.
use embed_rtos.Base.{
  ℕ, ◌+◌, ◌*◌, ◌%◌, ◌≤◌, ◌<◌, ◌≡◌, true, Option, some, List, arith, length, u32, ◌⊎◌, inl, inr, ◌≢◌,
  Bool-cases, ltb, ltb→lt,
}
use embed_rtos.Kernel.Queue.{Queue, create, clear}

-- `fits` is what `queue_create` does not check: the byte size of the array is below 2 ^ 32.
pub record IsValid (q : Queue) : Type 0 where
  pub storage : length q.buffer ≡ q.capacity * q.element_size
  pub fits : q.capacity * q.element_size < 4294967296
  pub small : q.capacity < 4294967296
  pub head_in : q.head < q.capacity
  pub tail_at : q.tail ≡ (q.head + q.count) % q.capacity
  pub count_in : q.count ≤ q.capacity

-- A created queue is empty and valid, given that `malloc n` returns `n` bytes and that the byte
-- size of the array does not pass `uint32_t`.
pub create-IsValid :
    (malloc : ℕ → Option (List ℕ)) (capacity element_size : ℕ) {q : Queue}
    → ((n : ℕ) (block : List ℕ) → malloc n ≡ some block → length block ≡ n)
    → 0 < capacity
    → capacity < 4294967296
    → capacity * element_size < 4294967296
    → create true malloc capacity element_size ≡ some q
    → IsValid q × (q.count ≡ 0)
unfolding create
create-IsValid malloc c e gives pos small fits h = grind (arith, gives (u32 (c * e)))

-- Where the byte size passes `uint32_t`, `queue_create` still succeeds with the memory that is
-- granted, and the array is shorter than the capacity that the queue records needs.
pub create-too_short :
    (malloc : ℕ → Option (List ℕ)) (capacity element_size : ℕ) {q : Queue}
    → ((n : ℕ) (block : List ℕ) → malloc n ≡ some block → length block ≡ n)
    → 4294967296 ≤ capacity * element_size
    → create true malloc capacity element_size ≡ some q
    → length q.buffer < q.capacity * q.element_size
unfolding create
create-too_short malloc c e gives over h = grind (arith, gives (u32 (c * e)))

-- `queue_clear` empties the queue and keeps it valid.
pub clear-IsValid :
    {q q' : Queue} → IsValid q → clear (some q) ≡ some q' → IsValid q' × (q'.count ≡ 0)
unfolding clear
clear-IsValid v h = ground (arith)

-- Slots do not run past the array, and do not overlap.
pub slot_in : (i cap e : ℕ) → i < cap → i * e + e ≤ cap * e
slot_in i cap e h = grind arith

pub slots_apart : (i j e : ℕ) → i ≢ j → (i * e + e ≤ j * e) ⊎ (j * e + e ≤ i * e)
slots_apart i j e h = elim (Bool-cases (ltb i j)) [
  | inl p ↦ inl (slot_in i j e (ltb→lt i j p))
  | inr p ↦ inr (slot_in j i e (ground arith))
]

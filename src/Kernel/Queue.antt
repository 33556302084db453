-- ===== src/Kernel/Queue.antt =====
-- src/kernel/queue.c and queue.h: a bounded queue of fixed-size elements in one byte array.
-- A `queue_t*` is an `Option Queue` (`none` is NULL). Where a function touches memory the outer
-- `Option` is `none` for an access out of bounds.
pub mod Bounds
pub mod Fifo
pub mod Runs
pub mod Wrap
mod Examples
use embed_rtos.Base.{
  ℕ, ◌+◌, ◌*◌, ◌%◌, Bool, true, false, Option, none, some, List, ◌>>=◌, ◌==◌, if◌then◌else◌, u32,
  add32, sub32, read_bytes, write_bytes,
}

pub record Queue : Type 0 where
  pub buffer : List ℕ
  pub capacity : ℕ
  pub element_size : ℕ
  pub head : ℕ
  pub tail : ℕ
  pub count : ℕ

-- `malloc` is a parameter: `malloc n` is the block for `n` bytes, or `none`. `has_room` is whether
-- the structure itself can be allocated.
pub create : Bool → (ℕ → Option (List ℕ)) → ℕ → ℕ → Option Queue
create has_room malloc capacity element_size =
    if has_room
    then (malloc (u32 (capacity * element_size)) >>= λ block. some (record {
      buffer = block;
      capacity = capacity;
      element_size = element_size;
      head = 0;
      tail = 0;
      count = 0;
    }))
    else none

pub is_empty : Option Queue → Bool
is_empty none = true
is_empty (some q) = q.count == 0

pub is_full : Option Queue → Bool
is_full none = true
is_full (some q) = q.count == q.capacity

pub count_of : Option Queue → ℕ
count_of none = 0
count_of (some q) = q.count

-- The bytes of `*element` are a list; the byte offset of a slot is a `uint32_t` product.
pub enqueue : Option Queue → List ℕ → Option (Bool × Option Queue)
unfolding is_full
enqueue none element = some (false, none)
enqueue (some q) element =
    if is_full (some q)
    then some (false, some q)
    else (read_bytes element 0 q.element_size >>= λ src.
        write_bytes q.buffer (u32 (q.tail * q.element_size)) src >>= λ buffer'. some (
          true,
          some (record q {
            buffer = buffer';
            tail = add32 q.tail 1 % q.capacity;
            count = add32 q.count 1;
          }),
        ))

-- The second component is what is copied to `*element`.
pub dequeue : Option Queue → Option (Bool × Option (List ℕ) × Option Queue)
unfolding is_empty
dequeue none = some (false, none, none)
dequeue (some q) =
    if is_empty (some q)
    then some (false, none, some q)
    else (read_bytes q.buffer (u32 (q.head * q.element_size)) q.element_size >>= λ src. some (
      true,
      some src,
      some (record q { head = add32 q.head 1 % q.capacity; count = sub32 q.count 1 }),
    ))

pub peek : Option Queue → Option (Bool × Option (List ℕ))
unfolding is_empty
peek none = some (false, none)
peek (some q) =
    if is_empty (some q)
    then some (false, none)
    else (read_bytes q.buffer (u32 (q.head * q.element_size)) q.element_size >>= λ src.
        some (true, some src))

pub clear : Option Queue → Option Queue
clear none = none
clear (some q) = some (record q { head = 0; tail = 0; count = 0 })

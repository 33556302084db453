-- ===== src/Utils/CircularBuffer.antt =====
-- src/utils/circular_buffer.c and circular_buffer.h: a ring of bytes. A `circular_buffer_t*` and a
-- `uint8_t*` are `Option`s (`none` is NULL). Where a function touches memory, `none` as the result
-- is an access out of bounds, or a loop that has used up its fuel. `size_t` is 64 bits wide.
pub mod Bounds
pub mod Chunk
pub mod Round
pub mod Read
pub mod Write
pub mod Overwrite
pub mod Peek
pub mod Search
pub mod Puts
pub mod Copy
pub mod Pointers
mod Examples
use embed_rtos.Base.{
  ℕ, zero, suc, ◌+◌, ◌-◌, ◌%◌, Bool, true, false, not, ◌&&◌, ◌||◌, Option, none, some, List, [],
  ◌>>=◌, ◌==◌, ltb, if◌then◌else◌, add_size, sub_size, read_bytes, write_bytes, length,
}

pub record CircularBuffer : Type 0 where
  pub buffer : List ℕ
  pub capacity : ℕ
  pub head : ℕ
  pub tail : ℕ
  pub count : ℕ
  pub overwrite : Bool

-- `malloc n` is the block for `n` bytes, or `none`. The result is `none` where the C function
-- returns false.
pub init : (ℕ → Option (List ℕ)) → ℕ → Bool → Option CircularBuffer
init malloc capacity overwrite =
    if capacity == 0
    then none
    else (malloc capacity >>= λ block. some (record {
      buffer = block;
      capacity = capacity;
      head = 0;
      tail = 0;
      count = 0;
      overwrite = overwrite;
    }))

-- A `buffer` that is NULL has no bytes.
pub destroy : Option CircularBuffer → Option CircularBuffer
destroy none = none
destroy (some cb) =
    if length cb.buffer == 0
    then some cb
    else some (record cb { buffer = []; capacity = 0; head = 0; tail = 0; count = 0 })

pub clear : Option CircularBuffer → Option CircularBuffer
clear none = none
clear (some cb) = some (record cb { head = 0; tail = 0; count = 0 })

pub is_empty : Option CircularBuffer → Bool
is_empty none = true
is_empty (some cb) = cb.count == 0

pub is_full : Option CircularBuffer → Bool
is_full none = true
is_full (some cb) = cb.count == cb.capacity

pub size_of : Option CircularBuffer → ℕ
size_of none = 0
size_of (some cb) = cb.count

pub free_space : Option CircularBuffer → ℕ
free_space none = 0
free_space (some cb) = sub_size cb.capacity cb.count

-- The bytes that go in one `memcpy`, out of `size` with `done` copied, at index `at` of an array of
-- `capacity`: no more than are left, nor than up to the end of the array.
pub contiguous : ℕ → ℕ → ℕ → ℕ → ℕ
contiguous size done capacity at =
    let to_end = sub_size capacity at in
    if ltb (sub_size size done) to_end then sub_size size done else to_end

-- Room for a chunk of `n` bytes, by giving up the oldest where overwriting is allowed. `none` is
-- the `break`.
pub make_room : CircularBuffer → ℕ → Option CircularBuffer
make_room cb n =
    if ltb cb.capacity (add_size cb.count n)
    then (if not cb.overwrite
        then none
        else (let overflow = sub_size (add_size cb.count n) cb.capacity in
            some (record cb {
              head = add_size cb.head overflow % cb.capacity;
              count = sub_size cb.count overflow;
            })))
    else some cb

-- One chunk is copied in at the tail.
pub store : CircularBuffer → List ℕ → Option CircularBuffer
store cb src = write_bytes cb.buffer cb.tail src >>= λ buffer'. some (record cb {
  buffer = buffer';
  tail = add_size cb.tail (length src) % cb.capacity;
  count = add_size cb.count (length src);
})

-- The `while` loop of `circular_buffer_write`, with fuel.
pub write_loop : ℕ → List ℕ → ℕ → ℕ → CircularBuffer → Option (ℕ × CircularBuffer)
write_loop zero bytes size written cb = none
write_loop (suc fuel) bytes size written cb =
    let n = contiguous size written cb.capacity cb.tail in
    elim (ltb written size) [
      | false ↦ some (written, cb)
      | true ↦ elim (make_room cb n) [
        | none ↦ some (written, cb)
        | some roomy ↦ read_bytes bytes written n >>= λ src.
            store roomy src >>= λ stored. write_loop fuel bytes size (add_size written n) stored
      ]
    ]

-- Each round copies at least one byte, so `size + 1` rounds are enough.
pub write : Option CircularBuffer → Option (List ℕ) → ℕ → Option (ℕ × Option CircularBuffer)
unfolding is_full
write none bytes size = some (0, none)
write (some cb) none size = some (0, some cb)
write (some cb) (some bytes) size =
    if size == 0 || (is_full (some cb) && not cb.overwrite)
    then some (0, some cb)
    else (write_loop (suc size) bytes size 0 cb >>= λ r. some (r.0, some r.1))

-- The loop of `circular_buffer_read`; `out` is the caller's array.
pub read_loop : ℕ → ℕ → ℕ → List ℕ → CircularBuffer → Option (ℕ × List ℕ × CircularBuffer)
read_loop zero to_read done out cb = none
read_loop (suc fuel) to_read done out cb =
    let n = contiguous to_read done cb.capacity cb.head in
    elim (ltb done to_read) [
      | false ↦ some (done, out, cb)
      | true ↦ read_bytes cb.buffer cb.head n >>= λ src. write_bytes out done src >>= λ out'.
          read_loop fuel to_read (add_size done n) out'
            (record cb { head = add_size cb.head n % cb.capacity; count = sub_size cb.count n })
    ]

pub read :
    Option CircularBuffer
    → Option (List ℕ)
    → ℕ
    → Option (ℕ × Option (List ℕ) × Option CircularBuffer)
unfolding is_empty
read none out size = some (0, out, none)
read (some cb) none size = some (0, none, some cb)
read (some cb) (some out) size =
    if size == 0 || is_empty (some cb)
    then some (0, some out, some cb)
    else (let to_read = if ltb size cb.count then size else cb.count in
        read_loop (suc to_read) to_read 0 out cb >>= λ r. some (r.0, some r.1, some r.2))

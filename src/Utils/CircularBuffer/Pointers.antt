-- ===== src/Utils/CircularBuffer/Pointers.antt =====
-- The access by pointer of src/utils/circular_buffer.c: a pointer into the buffer is its index, and
-- comes with the number of bytes available there. Whether the caller asks for that number makes no
-- difference here.
use embed_rtos.Base.{
  ℕ, false, ◌+◌, ◌-◌, ◌%◌, min, ◌≤◌, ◌<◌, ◌≡◌, refl, ap, Option, none, some, List, ◌++◌, arith, ltb,
  if◌then◌else◌, ◌==◌, length, slice, splice, add_size, sub_size,
}
use embed_rtos.Utils.CircularBuffer.{CircularBuffer, is_empty, is_full}
use embed_rtos.Utils.CircularBuffer.Bounds.{IsValid, contents, tail_in}
use embed_rtos.Utils.CircularBuffer.Chunk.{
  stored, advanced, stored-IsValid, contents-stored, advanced-IsValid, window-slice,
}

pub get_read_ptr : Option CircularBuffer → Option ℕ × ℕ
unfolding is_empty
get_read_ptr none = (none, 0)
get_read_ptr (some cb) =
    if is_empty (some cb)
    then (none, 0)
    else (let contiguous_available = sub_size cb.capacity cb.head in
        (
          some cb.head,
          if ltb cb.count contiguous_available then cb.count else contiguous_available,
        ))

pub advance_read : Option CircularBuffer → ℕ → Option CircularBuffer
advance_read none size = none
advance_read (some cb) size =
    if size == 0
    then some cb
    else (let to_advance = if ltb size cb.count then size else cb.count in
        some (record cb {
          head = add_size cb.head to_advance % cb.capacity;
          count = sub_size cb.count to_advance;
        }))

pub get_write_ptr : Option CircularBuffer → Option ℕ × ℕ
unfolding is_full
get_write_ptr none = (none, 0)
get_write_ptr (some cb) =
    if is_full (some cb)
    then (none, 0)
    else (let contiguous_available = sub_size cb.capacity cb.tail in
        let free_space = sub_size cb.capacity cb.count in
        (
          some cb.tail,
          if ltb free_space contiguous_available then free_space else contiguous_available,
        ))

pub advance_write : Option CircularBuffer → ℕ → Option CircularBuffer
advance_write none size = none
advance_write (some cb) size =
    if size == 0
    then some cb
    else (let free_space = sub_size cb.capacity cb.count in
        let to_advance = if ltb size free_space then size else free_space in
        some (record cb {
          tail = add_size cb.tail to_advance % cb.capacity;
          count = add_size cb.count to_advance;
        }))

-- What a caller writes at an index of the buffer.
abbrev pub written_at : CircularBuffer → ℕ → List ℕ → CircularBuffer
written_at cb i src = record cb { buffer = splice cb.buffer i src }

module _ {cb : CircularBuffer} (v : IsValid cb) where
  -- Where a valid buffer is not empty, `circular_buffer_get_read_ptr` points to a positive number of
  -- bytes that lie within the array and are the oldest of the contents, and
  -- `circular_buffer_advance_read` by that number leaves the others, in a valid buffer.
  pub get_read_ptr-advance_read :
      0 < cb.count
      → (i n : ℕ) × (cb' : CircularBuffer) × (get_read_ptr (some cb) ≡ (some i, n))
        × (0 < n)
        × (i + n ≤ length cb.buffer)
        × (advance_read (some cb) n ≡ some cb')
        × IsValid cb'
        × (contents cb ≡ slice cb.buffer 0 i n ++ contents cb')
  unfolding get_read_ptr advance_read
  get_read_ptr-advance_read pos =
      let n : ℕ = min (cb.capacity - cb.head) cb.count in
      (
        cb.head,
        n,
        advanced cb n,
        ground (arith, v),
        omega (arith, v),
        omega (arith, v),
        ground (arith, v),
        advanced-IsValid v n (omega arith),
        window-slice cb.buffer cb.capacity cb.count n cb.head cb.head v.head_in (λ p. refl)
            (omega (arith, v)) (omega arith),
      )

  -- Where a valid buffer is not full, `circular_buffer_get_write_ptr` points to a positive number of
  -- bytes within the array, and bytes that are written there, one at least and up to that number, and passed by
  -- `circular_buffer_advance_write` go behind the contents, in a valid buffer.
  pub get_write_ptr-advance_write :
      (src : List ℕ)
      → cb.count < cb.capacity
      → 0 < length src
      → length src ≤ (get_write_ptr (some cb)).1
      → (i n : ℕ) × (cb' : CircularBuffer) × (get_write_ptr (some cb) ≡ (some i, n))
        × (0 < n)
        × (i + n ≤ length cb.buffer)
        × (advance_write (some (written_at cb i src)) (length src) ≡ some cb')
        × IsValid cb'
        × (contents cb' ≡ contents cb ++ src)
  unfolding get_write_ptr advance_write
  get_write_ptr-advance_write src room pos fits =
      let n : ℕ = min (cb.capacity - cb.tail) (cb.capacity - cb.count) in
      let at : get_write_ptr (some cb) ≡ (some cb.tail, n) = ground (arith, v, tail_in v) in
      let short : length src ≤ n = omega (arith, ap (λ (r : Option ℕ × ℕ). r.1) at) in
      let some_bytes : (length src == 0) ≡ false = ground arith in
      let amount : (if ltb (length src) (sub_size cb.capacity cb.count)
            then length src
            else sub_size cb.capacity cb.count)
          ≡ length src =
        ground (arith, v) in
      let tail' : add_size cb.tail (length src) ≡ cb.tail + length src =
        omega (arith, v, tail_in v) in
      let count' : add_size cb.count (length src) ≡ cb.count + length src = omega (arith, v) in
      let advanced-by : advance_write (some (written_at cb cb.tail src)) (length src)
          ≡ some (stored cb src) =
        rw (some_bytes, amount, tail', count') refl in
      (
        cb.tail,
        n,
        stored cb src,
        at,
        omega (arith, v, tail_in v),
        omega (arith, v, tail_in v),
        advanced-by,
        stored-IsValid v src (omega (arith, tail_in v)) (omega (arith, v)),
        contents-stored v src (omega (arith, tail_in v)) (omega (arith, v)),
      )

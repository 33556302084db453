-- ===== src/Utils/CircularBuffer/Round.antt =====
-- One round of the loop of `circular_buffer_write`.
use embed_rtos.Base.{
  ℕ, suc, ◌+◌, ◌≤◌, ◌<◌, ◌^◌, ◌≡◌, none, some, List, arith, length, slice, add_size, lt→ltb,
  ltb-false, read_bytes-in_range, length-slice,
}
use embed_rtos.Utils.CircularBuffer.{CircularBuffer, contiguous, make_room, write_loop}
use embed_rtos.Utils.CircularBuffer.Bounds.{IsValid}
use embed_rtos.Utils.CircularBuffer.Chunk.{stored, store-stored}

-- The next chunk is positive, and runs past neither the data nor the array.
pub record IsChunk (size done capacity at n : ℕ) : Type 0 where
  pub pos : 0 < n
  pub within : done + n ≤ size
  pub to_end : at + n ≤ capacity

pub contiguous-IsChunk :
    (size done capacity at : ℕ)
    → at < capacity
    → capacity < 2 ^ 63
    → size < 2 ^ 64
    → done < size
    → IsChunk size done capacity at (contiguous size done capacity at)
unfolding contiguous
contiguous-IsChunk size done capacity at t c s h = ground arith

pub write_loop-done :
    (fuel : ℕ) (bytes : List ℕ) (size written : ℕ) (cb : CircularBuffer)
    → size ≤ written
    → write_loop (suc fuel) bytes size written cb ≡ some (written, cb)
unfolding write_loop
write_loop-done fuel bytes size written cb h = rw (ltb-false written size h, write_loop)

pub write_loop-break :
    (fuel : ℕ) (bytes : List ℕ) (size written : ℕ) (cb : CircularBuffer)
    → written < size
    → make_room cb (contiguous size written cb.capacity cb.tail) ≡ none
    → write_loop (suc fuel) bytes size written cb ≡ some (written, cb)
unfolding write_loop
write_loop-break fuel bytes size written cb h e = rw (lt→ltb written size h, write_loop, e)

pub write_loop-next :
    (fuel : ℕ) (bytes : List ℕ) (size written n : ℕ) (cb : CircularBuffer) {roomy : CircularBuffer}
    → written < size
    → contiguous size written cb.capacity cb.tail ≡ n
    → make_room cb n ≡ some roomy
    → IsValid roomy
    → roomy.tail + n ≤ roomy.capacity
    → roomy.count + n ≤ roomy.capacity
    → written + n ≤ length bytes
    → written + n < 2 ^ 64
    → write_loop (suc fuel) bytes size written cb
      ≡ write_loop fuel bytes size (written + n) (stored roomy (slice bytes 0 written n))
unfolding write_loop
write_loop-next fuel bytes size written n cb {roomy} h en e v ht hc hr hw =
    let same : add_size written n ≡ written + n = omega arith in
    rw (
      lt→ltb written size h,
      write_loop,
      en,
      e,
      en,
      read_bytes-in_range bytes written n hr,
      store-stored v (slice bytes 0 written n) (rw length-slice ht) (rw length-slice hc),
      same,
    )

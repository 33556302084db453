-- ===== src/Utils/CircularBuffer/Peek.antt =====
-- `circular_buffer_peek`: reading at an offset, the buffer left as it is.
use embed_rtos.Base.{
  ℕ, zero, suc, ◌+◌, ◌-◌, ◌%◌, ◌≤◌, ◌≡◌, refl, ap, ◌∙◌, Option, none, some, List, true, false,
  arith, ltb, if◌then◌else◌, leb, ◌||◌, ◌==◌, Bool-cases, inl, inr, take, drop, splice, min, length,
  add_size, sub_size, ◌>>=◌, read_bytes, write_bytes, subst, ap₂,
}
use embed_rtos.Utils.CircularBuffer.{CircularBuffer, contiguous, read_loop}
use embed_rtos.Utils.CircularBuffer.Bounds.{IsValid, contents}
use embed_rtos.Utils.CircularBuffer.Chunk.{advanced, advanced-IsValid, contents-advanced}
use embed_rtos.Utils.CircularBuffer.Read.{Takes, read_loop-Takes}

-- The loop, from the virtual head `at`.
pub peek_loop : ℕ → ℕ → ℕ → ℕ → List ℕ → CircularBuffer → Option (ℕ × List ℕ)
peek_loop zero to_peek done at out cb = none
peek_loop (suc fuel) to_peek done at out cb =
    let n = contiguous to_peek done cb.capacity at in
    elim (ltb done to_peek) [
      | false ↦ some (done, out)
      | true ↦ read_bytes cb.buffer at n >>= λ src. write_bytes out done src >>= λ out'.
          peek_loop fuel to_peek (add_size done n) (add_size at n % cb.capacity) out' cb
    ]

pub peek : Option CircularBuffer → Option (List ℕ) → ℕ → ℕ → Option (ℕ × Option (List ℕ))
peek none out size offset = some (0, out)
peek (some cb) none size offset = some (0, none)
peek (some cb) (some out) size offset =
    if size == 0 || leb cb.count offset
    then some (0, some out)
    else (let left = sub_size cb.count offset in
        let to_peek = if ltb size left then size else left in
        peek_loop (suc to_peek) to_peek 0 (add_size cb.head offset % cb.capacity) out cb >>= λ r.
        some (r.0, some r.1))

abbrev copied : ℕ × List ℕ × CircularBuffer → Option (ℕ × List ℕ)
copied r = some (r.0, r.1)

-- The loop copies what the loop of `circular_buffer_read` copies from a buffer whose head is `at`.
peek_loop-read_loop :
    (fuel to_peek done at count : ℕ) (out : List ℕ) (cb : CircularBuffer)
    → peek_loop fuel to_peek done at out cb
      ≡ (read_loop fuel to_peek done out (record cb { head = at; count = count }) >>= copied)
unfolding peek_loop read_loop
peek_loop-read_loop zero to_peek done at count out cb = refl
peek_loop-read_loop (suc fuel) to_peek done at count out cb =
    let n : ℕ = contiguous to_peek done cb.capacity at in
    let rest =
      peek_loop-read_loop fuel to_peek (add_size done n) (add_size at n % cb.capacity)
        (sub_size count n) in
    grind arith

peek_loop-copies :
    (n offset : ℕ) (out : List ℕ) {cb : CircularBuffer}
    → IsValid cb
    → offset ≤ cb.count
    → n ≤ cb.count - offset
    → n ≤ length out
    → peek_loop (suc n) n 0 ((cb.head + offset) % cb.capacity) out cb
      ≡ some (n, splice out 0 (take n (drop offset (contents cb))))
peek_loop-copies n offset out {cb} v ho hn hl =
    let t : Takes n 0 out (advanced cb offset) (read_loop (suc n) n 0 out (advanced cb offset)) =
      subst
        (λ k. Takes k 0 out (advanced cb offset) (read_loop (suc n) n 0 out (advanced cb offset)))
        (omega arith)
        (read_loop-Takes (suc n) n 0 out (advanced-IsValid v offset ho) (omega arith) (omega arith)
          hl (omega (arith, v)) (omega arith)) in
    peek_loop-read_loop (suc n) n 0 ((cb.head + offset) % cb.capacity) (cb.count - offset) out cb
    ∙ ap (λ r. r >>= copied) t.returns
    ∙ ap₂ (λ k xs. some (k, splice out 0 (take n xs))) (omega arith) (contents-advanced v offset ho)

-- `circular_buffer_peek` into an array that has room ends and stays in bounds, returns the smaller
-- of `size` and the number of bytes held past `offset`, and copies that many bytes to the array in
-- order, from the byte at `offset` on.
pub peek_copies :
    (out : List ℕ) (size offset : ℕ) {cb : CircularBuffer}
    → IsValid cb
    → min size (cb.count - offset) ≤ length out
    → let n = min size (cb.count - offset) in
      peek (some cb) (some out) size offset
      ≡ some (n, some (splice out 0 (take n (drop offset (contents cb)))))
unfolding peek
peek_copies out size offset {cb} v hl = elim (Bool-cases (size == 0 || leb cb.count offset)) [
  | inl nothing ↦ let e : min size (cb.count - offset) ≡ 0 = ground arith in rw (nothing, e) refl
  | inr more ↦
      let n : ℕ = min size (cb.count - offset) in
      let c = peek_loop-copies n offset out v (ground arith) (omega arith) hl in
      let start : add_size cb.head offset ≡ cb.head + offset = ground (arith, v) in
      let left : sub_size cb.count offset ≡ cb.count - offset = ground (arith, v) in
      let least : (if ltb size (cb.count - offset) then size else (cb.count - offset)) ≡ n =
        ground arith in
      rw (more, start, left, least, c) refl
]

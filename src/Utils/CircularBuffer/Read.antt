-- ===== src/Utils/CircularBuffer/Read.antt =====
-- `circular_buffer_read`.
use embed_rtos.Base.{
  ℕ, zero, suc, ◌+◌, ◌-◌, ◌≤◌, ◌<◌, ◌^◌, ◌≡◌, refl, sym, subst, ap, ap₂, ◌∙◌, inl, inr, Option,
  some, List, arith, length, slice, splice, take, drop, ltb, Bool-cases, length-slice, ltb→lt,
  ltb-false, lt→ltb, ◌==◌, length-splice, min, take-append_left, drop-drop, splice-append,
  read_bytes-in_range, write_bytes-in_range, add_size, sub_size, ◌>>=◌, ◌≢◌,
}
use embed_rtos.Utils.CircularBuffer.{CircularBuffer, contiguous, read_loop, read}
use embed_rtos.Utils.CircularBuffer.Bounds.{IsValid, contents}
use embed_rtos.Utils.CircularBuffer.Chunk.{
  advanced, advanced-IsValid, contents-advanced, window-slice,
}
use embed_rtos.Utils.CircularBuffer.Round.{IsChunk, contiguous-IsChunk}

-- From `cb`, with `done` bytes copied, the loop copies the oldest `left` bytes to `out` and leaves
-- the rest.
pub record Takes (left done : ℕ) (out : List ℕ) (cb : CircularBuffer)
    (result : Option (ℕ × List ℕ × CircularBuffer)) : Type 0 where
  pub after : CircularBuffer
  pub returns : result ≡ some (done + left, splice out done (take left (contents cb)), after)
  pub valid : IsValid after
  pub holds : contents after ≡ drop left (contents cb)

read_loop-next :
    (fuel to_read done n : ℕ) (out : List ℕ) {cb : CircularBuffer}
    → IsValid cb
    → done < to_read
    → contiguous to_read done cb.capacity cb.head ≡ n
    → cb.head + n ≤ cb.capacity
    → n ≤ cb.count
    → done + n ≤ length out
    → done + n < 2 ^ 64
    → read_loop (suc fuel) to_read done out cb
      ≡ read_loop fuel to_read
          (done + n)
          (splice out done (slice cb.buffer 0 cb.head n))
          (advanced cb n)
unfolding read_loop
read_loop-next fuel to_read done n out {cb} v lt en he hc ho hw =
    let sum : add_size done n ≡ done + n = omega arith in
    let step : add_size cb.head n ≡ cb.head + n = omega (arith, v) in
    let less : sub_size cb.count n ≡ cb.count - n = omega (arith, v) in
    rw (
      lt→ltb done to_read lt,
      read_loop,
      en,
      read_bytes-in_range cb.buffer cb.head n (omega (arith, v)),
      write_bytes-in_range out done (slice cb.buffer 0 cb.head n) (rw length-slice ho),
      sum,
      step,
      less,
    )

read_loop-done :
    (fuel to_read done : ℕ) (out : List ℕ) (cb : CircularBuffer)
    → to_read ≤ done
    → read_loop (suc fuel) to_read done out cb ≡ some (done, out, cb)
unfolding read_loop
read_loop-done fuel to_read done out cb h = rw (ltb-false done to_read h, read_loop)

-- A chunk of `n` bytes and then `m` bytes are the first `n + m`.
two_reads :
    (n m done : ℕ) (out : List ℕ) {cb : CircularBuffer}
    → IsValid cb
    → cb.head + n ≤ cb.capacity
    → n ≤ cb.count
    → splice
        (splice out done (slice cb.buffer 0 cb.head n))
        (done + n)
        (take m (contents (advanced cb n)))
      ≡ splice out done (take (n + m) (contents cb))
two_reads n m done out {cb} v h hn =
    let src : List ℕ = slice cb.buffer 0 cb.head n in
    let len : length src ≡ n = length-slice cb.buffer 0 cb.head n in
    splice-append out done (done + n) src (take m (contents (advanced cb n))) (rw len)
    ∙ ap (splice out done) (
        sym (take-append_left src (contents (advanced cb n)) n m len)
        ∙ ap (take (n + m)) (
            sym (
              window-slice cb.buffer cb.capacity cb.count n cb.head cb.head v.head_in (λ p. refl) h
                hn)))

pub read_loop-Takes :
    (fuel to_read done : ℕ) (out : List ℕ) {cb : CircularBuffer}
    → IsValid cb
    → done ≤ to_read
    → to_read - done ≤ cb.count
    → to_read ≤ length out
    → to_read < 2 ^ 64
    → to_read - done < fuel
    → Takes (to_read - done) done out cb (read_loop fuel to_read done out cb)
read_loop-Takes zero to_read done out v h hc ho hs hf = absurd (omega arith)
read_loop-Takes (suc fuel) to_read done out {cb} v h hc ho hs hf =
    elim (Bool-cases (ltb done to_read)) [
      | inr stop ↦
          let none_left : to_read - done ≡ 0 = ground arith in
          rw none_left (record {
            after = cb;
            returns =
                read_loop-done fuel to_read done out cb (omega arith)
                ∙ ap (λ k. some (k, out, cb)) (omega arith);
            valid = v;
            holds = refl;
          })
      | inl more ↦
          let n : ℕ = contiguous to_read done cb.capacity cb.head in
          let lt : done < to_read = ltb→lt done to_read more in
          let c : IsChunk to_read done cb.capacity cb.head n =
            contiguous-IsChunk to_read done cb.capacity cb.head v.head_in v.small hs lt in
          let src : List ℕ = slice cb.buffer 0 cb.head n in
          let hn : n ≤ cb.count = omega (arith, c) in
          let m : ℕ = to_read - (done + n) in
          let rest : Takes m (done + n) (splice out done src) (advanced cb n)
              (read_loop fuel to_read (done + n) (splice out done src) (advanced cb n)) =
            read_loop-Takes fuel to_read (done + n) (splice out done src) (advanced-IsValid v n hn)
              c.within (omega (arith, c)) (rw length-splice ho) hs (omega (arith, c)) in
          record {
            after = rest.after;
            returns =
                read_loop-next fuel to_read done n out v lt refl c.to_end hn (omega (arith, c))
                  (omega (arith, c))
                ∙ rest.returns
                ∙ ap₂ (λ k xs. some (k, xs, rest.after))
                    (let e : done + n + m ≡ done + (to_read - done) = omega (arith, c) in e)
                    (two_reads n m done out v c.to_end hn
                      ∙ ap (λ k. splice out done (take k (contents cb))) (omega (arith, c)));
            valid = rest.valid;
            holds =
                rest.holds
                ∙ ap (drop m) (contents-advanced v n hn)
                ∙ drop-drop m n (contents cb)
                ∙ ap (λ k. drop k (contents cb)) (omega (arith, c));
          }
    ]

abbrev whole : ℕ × List ℕ × CircularBuffer → Option (ℕ × Option (List ℕ) × Option CircularBuffer)
whole r = some (r.0, some r.1, some r.2)

read-nothing :
    (out : List ℕ) (size : ℕ) (cb : CircularBuffer)
    → min size cb.count ≡ 0
    → read (some cb) (some out) size ≡ some (0, some out, some cb)
unfolding read
read-nothing out size cb h = ground arith

read-some :
    (out : List ℕ) (size : ℕ) (cb : CircularBuffer)
    → min size cb.count ≢ 0
    → read (some cb) (some out) size
      ≡ (read_loop (suc (min size cb.count)) (min size cb.count) 0 out cb >>= whole)
unfolding read
read-some out size cb h = ground arith

-- `circular_buffer_read` of `size` bytes into an array that has room ends and stays in bounds,
-- keeps the buffer valid, returns the smaller of `size` and the number of bytes held, copies that
-- many of the oldest bytes to the array in order, and leaves the others.
pub read_takes :
    (out : List ℕ) (size : ℕ) {cb : CircularBuffer}
    → IsValid cb
    → min size cb.count ≤ length out
    → let n = min size cb.count in
      (cb' : CircularBuffer) × (read (some cb) (some out) size
        ≡ some (n, some (splice out 0 (take n (contents cb))), some cb'))
      × IsValid cb'
      × (contents cb' ≡ drop n (contents cb))
read_takes out size {cb} v ho = elim (Bool-cases (min size cb.count == 0)) [
  | inl nothing ↦
      let e : min size cb.count ≡ 0 = ground arith in rw e (cb, read-nothing out size cb e, v, refl)
  | inr more ↦
      let n : ℕ = min size cb.count in
      let t : Takes n 0 out cb (read_loop (suc n) n 0 out cb) =
        subst (λ k. Takes k 0 out cb (read_loop (suc n) n 0 out cb)) (omega arith)
          (read_loop-Takes (suc n) n 0 out v (omega arith) (omega arith) ho (omega (arith, v))
            (omega arith)) in
      (
        t.after,
        read-some out size cb (ground arith)
            ∙ ap (λ r. r >>= whole) t.returns
            ∙ ap (λ k. some (k, some (splice out 0 (take n (contents cb))), some t.after))
                (omega arith),
        t.valid,
        t.holds,
      )
]

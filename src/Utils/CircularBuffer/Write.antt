-- ===== src/Utils/CircularBuffer/Write.antt =====
-- `circular_buffer_write` where overwriting is not allowed.
use embed_rtos.Base.{
  ◌⊎◌, leb, leb→le, ℕ, zero, suc, ◌+◌, ◌-◌, ◌≤◌, ◌<◌, ◌^◌, ◌≡◌, refl, sym, ap, ◌∙◌, ◌⊎◌, inl, inr,
  false, Option, none, some, List, ◌++◌, append-nil, append_assoc, arith, length, slice, ltb,
  Bool-cases, length-slice, slice-add, ltb→lt, ◌==◌,
}
use embed_rtos.Utils.CircularBuffer.{CircularBuffer, contiguous, make_room, write_loop, write}
use embed_rtos.Utils.CircularBuffer.Bounds.{IsValid, tail_in, contents}
use embed_rtos.Utils.CircularBuffer.Chunk.{
  stored, stored-IsValid, contents-stored, make_room-fits, make_room-break,
}
use embed_rtos.Utils.CircularBuffer.Round.{
  IsChunk, contiguous-IsChunk, write_loop-done, write_loop-break, write_loop-next,
}

-- From `cb`, with `written` bytes copied, the loop stops at `last` bytes with the buffer `after`:
-- the bytes between went in at the end, and all of them if they fit.
pub record Appends (bytes : List ℕ) (size written : ℕ) (cb : CircularBuffer)
    (result : Option (ℕ × CircularBuffer)) : Type 0 where
  pub last : ℕ
  pub after : CircularBuffer
  pub returns : result ≡ some (last, after)
  pub valid : IsValid after
  pub from_here : written ≤ last
  pub no_more : last ≤ size
  pub holds : contents after ≡ contents cb ++ slice bytes 0 written (last - written)
  pub fits : cb.count + (size - written) ≤ cb.capacity → last ≡ size
  pub same_capacity : after.capacity ≡ cb.capacity
  pub same_mode : after.overwrite ≡ cb.overwrite

stays :
    (bytes : List ℕ) (size written : ℕ) (cb : CircularBuffer) {result : Option (ℕ × CircularBuffer)}
    → result ≡ some (written, cb)
    → IsValid cb
    → written ≤ size
    → (cb.count + (size - written) ≤ cb.capacity → written ≡ size)
    → Appends bytes size written cb result
stays bytes size written cb e v h f = record {
  returns = e;
  last = written;
  after = cb;
  valid = v;
  from_here = omega arith;
  no_more = h;
  holds = sym (
      ap (λ k. contents cb ++ slice bytes 0 written k) {y = 0} (omega arith)
      ∙ append-nil (contents cb));
  fits = f;
  same_capacity = refl;
  same_mode = refl;
}

-- A round that copies `n` bytes, and then the rest.
goes_on :
    (bytes : List ℕ) (size written n : ℕ) {cb : CircularBuffer}
    {result result' : Option (ℕ × CircularBuffer)}
    → result ≡ result'
    → IsValid cb
    → cb.tail + n ≤ cb.capacity
    → cb.count + n ≤ cb.capacity
    → Appends bytes size (written + n) (stored cb (slice bytes 0 written n)) result'
    → Appends bytes size written cb result
goes_on bytes size written n {cb} e v ht hc rest =
    let src : List ℕ = slice bytes 0 written n in
    let len : length src ≡ n = length-slice bytes 0 written n in
    record {
      last = rest.last;
      after = rest.after;
      returns = e ∙ rest.returns;
      valid = rest.valid;
      from_here = omega (arith, rest);
      no_more = rest.no_more;
      holds =
          rest.holds
          ∙ ap (λ xs. xs ++ slice bytes 0 (written + n) (rest.last - (written + n)))
              (contents-stored v src (rw len ht) (rw len hc))
          ∙ append_assoc (contents cb) src (slice bytes 0 (written + n) (rest.last - (written + n)))
          ∙ ap (λ xs. contents cb ++ xs)
              (sym (slice-add bytes 0 written n (rest.last - (written + n)))
                ∙ ap (slice bytes 0 written) (omega (arith, rest)));
      fits = λ f. rest.fits (rw len (omega arith));
      same_capacity = rest.same_capacity;
      same_mode = rest.same_mode;
    }

pub write_loop-Appends :
    (fuel : ℕ) (bytes : List ℕ) (size written : ℕ) {cb : CircularBuffer}
    → IsValid cb
    → cb.overwrite ≡ false
    → written ≤ size
    → size ≤ length bytes
    → size < 2 ^ 64
    → size - written < fuel
    → Appends bytes size written cb (write_loop fuel bytes size written cb)
write_loop-Appends zero bytes size written v o h hb hs hf = absurd (omega arith)
write_loop-Appends (suc fuel) bytes size written {cb} v o h hb hs hf =
    elim (Bool-cases (ltb written size)) [
      | inr done ↦
          stays bytes size written cb (write_loop-done fuel bytes size written cb (ground arith)) v
            h (λ f. ground arith)
      | inl more ↦
          let n : ℕ = contiguous size written cb.capacity cb.tail in
          let lt : written < size = ltb→lt written size more in
          let c : IsChunk size written cb.capacity cb.tail n =
            contiguous-IsChunk size written cb.capacity cb.tail (tail_in v) v.small hs lt in
          elim (Bool-cases (ltb cb.capacity (cb.count + n))) [
            | inl over ↦
                let over' : cb.capacity < cb.count + n = ltb→lt cb.capacity (cb.count + n) over in
                let e : make_room cb n ≡ none = make_room-break v n over' (omega (arith, c)) o in
                stays bytes size written cb (write_loop-break fuel bytes size written cb lt e) v h
                  (λ f. omega (arith, c))
            | inr room ↦
                let hc : cb.count + n ≤ cb.capacity = ground arith in
                let len : length (slice bytes 0 written n) ≡ n = length-slice bytes 0 written n in
                goes_on bytes size written n
                  (write_loop-next fuel bytes size written n cb lt refl (make_room-fits v n hc) v
                    c.to_end hc (omega (arith, c)) (omega (arith, c)))
                  v c.to_end hc
                  (write_loop-Appends fuel bytes size (written + n)
                    (stored-IsValid v (slice bytes 0 written n) (rw len c.to_end) (rw len hc)) o
                    c.within hb hs (omega (arith, c)))
          ]
    ]

or_past : {a b : ℕ} {P : Type 0} → (a ≤ b → P) → P ⊎ (b < a)
or_past {a} {b} f = elim (Bool-cases (leb a b)) [
  | inl e ↦ inl (f (leb→le a b e))
  | inr e ↦ inr (ground arith)
]

-- Where overwriting is not allowed, `circular_buffer_write` of `size` bytes ends and stays in
-- bounds, keeps the buffer valid, and returns a number up to `size` of bytes of the data, from the
-- first on, that it has put behind the old contents; it is `size` if there is room for all.
pub write_appends :
    (bytes : List ℕ) (size : ℕ) {cb : CircularBuffer}
    → IsValid cb
    → cb.overwrite ≡ false
    → size ≤ length bytes
    → size < 2 ^ 64
    → (w : ℕ) × (cb' : CircularBuffer) × (write (some cb) (some bytes) size ≡ some (w, some cb'))
      × IsValid cb'
      × (contents cb' ≡ contents cb ++ slice bytes 0 0 w)
      × (w ≤ size)
      × ((w ≡ size) ⊎ (cb.capacity < cb.count + size))
unfolding write
write_appends bytes size {cb} v o hb hs =
    let a = write_loop-Appends (suc size) bytes size 0 v o (omega arith) hb hs (omega arith) in
    elim (Bool-cases (size == 0)) [
      | inl nothing ↦ (
        0,
        cb,
        ground arith,
        v,
        sym (append-nil (contents cb)),
        omega arith,
        or_past (λ f. ground arith),
      )
      | inr some_bytes ↦ elim (Bool-cases (cb.count == cb.capacity)) [
        | inl full ↦ (
          0,
          cb,
          ground arith,
          v,
          sym (append-nil (contents cb)),
          omega arith,
          or_past (λ f. ground arith),
        )
        | inr room ↦ (
          a.last,
          a.after,
          rw (some_bytes, room, a.returns),
          a.valid,
          a.holds ∙ ap (λ k. contents cb ++ slice bytes 0 0 k) (omega arith),
          a.no_more,
          or_past (λ f. a.fits (omega arith)),
        )
      ]
    ]

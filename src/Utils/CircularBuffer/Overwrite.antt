-- ===== src/Utils/CircularBuffer/Overwrite.antt =====
-- `circular_buffer_write` where overwriting is allowed.
use embed_rtos.Base.{
  ℕ, zero, suc, ◌+◌, ◌-◌, ◌≤◌, ◌<◌, ◌^◌, ◌≡◌, refl, sym, ap, ap₂, ◌∙◌, inl, inr, true, Option, some,
  List, ◌++◌, append-nil, append_assoc, arith, length, slice, drop, ltb, Bool-cases, length-slice,
  slice-add, ltb→lt, ◌==◌, if◌then◌else◌, length-append, length-drop, drop-append_left, drop-drop,
}
use embed_rtos.Utils.CircularBuffer.{CircularBuffer, contiguous, make_room, write_loop, write}
use embed_rtos.Utils.CircularBuffer.Bounds.{IsValid, tail_in, contents, length-contents}
use embed_rtos.Utils.CircularBuffer.Chunk.{
  stored, advanced, stored-IsValid, contents-stored, advanced-IsValid, contents-advanced,
  make_room-fits, make_room-advanced,
}
use embed_rtos.Utils.CircularBuffer.Round.{
  IsChunk, contiguous-IsChunk, write_loop-done, write_loop-next,
}

-- The last `n` elements of a list.
abbrev pub keep_last {ℓ} : {A : Type ℓ} → ℕ → List A → List A
keep_last n xs = drop (length xs - n) xs

module _ {ℓ} {A : Type ℓ} where
  -- Keeping the last `n` in two steps is keeping them in one.
  pub keep_last-append :
      (n : ℕ) (xs ys zs : List A)
      → keep_last n (keep_last n (xs ++ ys) ++ zs) ≡ keep_last n (xs ++ (ys ++ zs))
  keep_last-append n xs ys zs =
      let ws = xs ++ ys in
      let a : ℕ = length ws - n in
      ap (keep_last n) (sym (drop-append_left a ws zs (omega arith)))
      ∙ drop-drop (length (drop a (ws ++ zs)) - n) a (ws ++ zs)
      ∙ ap (λ k. drop k (ws ++ zs)) (omega (arith, length-drop a (ws ++ zs), length-append ws zs))
      ∙ ap (keep_last n) (append_assoc xs ys zs)

-- From `cb`, with `written` bytes copied, the loop copies the rest and keeps what fits.
pub record Overwrites (bytes : List ℕ) (size written : ℕ) (cb : CircularBuffer)
    (result : Option (ℕ × CircularBuffer)) : Type 0 where
  pub after : CircularBuffer
  pub returns : result ≡ some (size, after)
  pub valid : IsValid after
  pub holds :
      contents after ≡ keep_last cb.capacity (contents cb ++ slice bytes 0 written (size - written))
  pub same_capacity : after.capacity ≡ cb.capacity
  pub same_mode : after.overwrite ≡ cb.overwrite

-- Room for `n` bytes is made by giving up the oldest.
record Roomy (cb roomy : CircularBuffer) (n : ℕ) : Type 0 where
  made : make_room cb n ≡ some roomy
  valid : IsValid roomy
  to_end : roomy.tail + n ≤ roomy.capacity
  room : roomy.count + n ≤ roomy.capacity
  holds :
      (src : List ℕ)
      → length src ≡ n
      → contents roomy ++ src ≡ keep_last cb.capacity (contents cb ++ src)
  same_capacity : roomy.capacity ≡ cb.capacity
  same_mode : roomy.overwrite ≡ cb.overwrite

abbrev roomy_for : CircularBuffer → ℕ → CircularBuffer
roomy_for cb n =
    if ltb cb.capacity (cb.count + n) then advanced cb (cb.count + n - cb.capacity) else cb

roomy_for-Roomy :
    {cb : CircularBuffer} (n : ℕ)
    → IsValid cb
    → cb.overwrite ≡ true
    → cb.tail + n ≤ cb.capacity
    → Roomy cb (roomy_for cb n) n
roomy_for-Roomy {cb} n v o t = elim (Bool-cases (ltb cb.capacity (cb.count + n))) [
  | inl over ↦
      let over' : cb.capacity < cb.count + n = ltb→lt cb.capacity (cb.count + n) over in
      let k : ℕ = cb.count + n - cb.capacity in
      rw over (record {
        made = make_room-advanced v n over' (omega arith) o;
        valid = advanced-IsValid v k (omega (arith, v));
        to_end = t;
        room = omega (arith, v);
        holds = λ src e.
            ap (λ xs. xs ++ src) (contents-advanced v k (omega (arith, v)))
            ∙ sym (drop-append_left k (contents cb) src (omega (arith, v, length-contents cb)))
            ∙ ap (λ j. drop j (contents cb ++ src))
                (omega (arith, length-append (contents cb) src, length-contents cb));
        same_capacity = refl;
        same_mode = refl;
      })
  | inr fits ↦
      let room : cb.count + n ≤ cb.capacity = ground arith in
      rw fits (record {
        made = make_room-fits v n room;
        valid = v;
        to_end = t;
        room = room;
        holds = λ src e. sym (
            ap (λ j. drop j (contents cb ++ src)) {y = 0}
              (omega (arith, length-append (contents cb) src, length-contents cb)));
        same_capacity = refl;
        same_mode = refl;
      })
]

Overwrites-next :
    (bytes : List ℕ) (size written n : ℕ) {cb roomy : CircularBuffer}
    {result result' : Option (ℕ × CircularBuffer)}
    → result ≡ result'
    → Roomy cb roomy n
    → written + n ≤ size
    → Overwrites bytes size (written + n) (stored roomy (slice bytes 0 written n)) result'
    → Overwrites bytes size written cb result
Overwrites-next bytes size written n {cb} {roomy} e r h rest =
    let src : List ℕ = slice bytes 0 written n in
    let len : length src ≡ n = length-slice bytes 0 written n in
    let later : List ℕ = slice bytes 0 (written + n) (size - (written + n)) in
    record {
      after = rest.after;
      returns = e ∙ rest.returns;
      valid = rest.valid;
      holds =
          rest.holds
          ∙ ap₂ (λ k xs. keep_last k (xs ++ later)) r.same_capacity
              (contents-stored r.valid src (rw len r.to_end) (rw len r.room) ∙ r.holds src len)
          ∙ keep_last-append cb.capacity (contents cb) src later
          ∙ ap (λ xs. keep_last cb.capacity (contents cb ++ xs))
              (sym (slice-add bytes 0 written n (size - (written + n)))
                ∙ ap (slice bytes 0 written) (omega arith));
      same_capacity = rest.same_capacity ∙ r.same_capacity;
      same_mode = rest.same_mode ∙ r.same_mode;
    }

pub write_loop-Overwrites :
    (fuel : ℕ) (bytes : List ℕ) (size written : ℕ) {cb : CircularBuffer}
    → IsValid cb
    → cb.overwrite ≡ true
    → written ≤ size
    → size ≤ length bytes
    → size < 2 ^ 64
    → size - written < fuel
    → Overwrites bytes size written cb (write_loop fuel bytes size written cb)
write_loop-Overwrites zero bytes size written v o h hb hs hf = absurd (omega arith)
write_loop-Overwrites (suc fuel) bytes size written {cb} v o h hb hs hf =
    elim (Bool-cases (ltb written size)) [
      | inr done ↦
          let e : written ≡ size = ground arith in
          record {
            after = cb;
            returns =
                write_loop-done fuel bytes size written cb (omega arith) ∙ ap (λ k. some (k, cb)) e;
            valid = v;
            holds = sym (
                ap (λ k. keep_last cb.capacity (contents cb ++ slice bytes 0 written k)) {y = 0}
                  (omega arith)
                ∙ ap (keep_last cb.capacity) (append-nil (contents cb))
                ∙ ap (λ k. drop k (contents cb)) {y = 0} (omega (arith, v, length-contents cb)));
            same_capacity = refl;
            same_mode = refl;
          }
      | inl more ↦
          let n : ℕ = contiguous size written cb.capacity cb.tail in
          let lt : written < size = ltb→lt written size more in
          let c : IsChunk size written cb.capacity cb.tail n =
            contiguous-IsChunk size written cb.capacity cb.tail (tail_in v) v.small hs lt in
          let r : Roomy cb (roomy_for cb n) n = roomy_for-Roomy n v o c.to_end in
          let len : length (slice bytes 0 written n) ≡ n = length-slice bytes 0 written n in
          Overwrites-next bytes size written n
            (write_loop-next fuel bytes size written n cb lt refl r.made r.valid r.to_end r.room
              (omega (arith, c)) (omega (arith, c)))
            r c.within
            (write_loop-Overwrites fuel bytes size (written + n)
              (stored-IsValid r.valid (slice bytes 0 written n) (rw len r.to_end) (rw len r.room))
              (r.same_mode ∙ o) c.within hb hs (omega (arith, c)))
    ]

-- Where overwriting is allowed, `circular_buffer_write` of `size` bytes ends and stays in bounds,
-- keeps the buffer valid and takes all the bytes, whatever their number; the buffer then holds the
-- last `capacity` bytes of the old contents followed by the new.
pub write_keeps_last :
    (bytes : List ℕ) (size : ℕ) {cb : CircularBuffer}
    → IsValid cb
    → cb.overwrite ≡ true
    → size ≤ length bytes
    → size < 2 ^ 64
    → (cb' : CircularBuffer) × (write (some cb) (some bytes) size ≡ some (size, some cb'))
      × IsValid cb'
      × (contents cb' ≡ keep_last cb.capacity (contents cb ++ slice bytes 0 0 size))
unfolding write
write_keeps_last bytes size {cb} v o hb hs =
    let a = write_loop-Overwrites (suc size) bytes size 0 v o (omega arith) hb hs (omega arith) in
    elim (Bool-cases (size == 0)) [
      | inl nothing ↦
          let e : size ≡ 0 = ground arith in
          (
            cb,
            ground arith,
            v,
            sym (
                ap (λ k. keep_last cb.capacity (contents cb ++ slice bytes 0 0 k)) e
                ∙ ap (keep_last cb.capacity) (append-nil (contents cb))
                ∙ ap (λ k. drop k (contents cb)) {y = 0} (omega (arith, v, length-contents cb))),
          )
      | inr some_bytes ↦ (
        a.after,
        ground (arith, a.returns),
        a.valid,
        a.holds ∙ ap (λ k. keep_last cb.capacity (contents cb ++ slice bytes 0 0 k)) (omega arith),
      )
    ]

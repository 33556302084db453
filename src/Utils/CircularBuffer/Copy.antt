-- ===== src/Utils/CircularBuffer/Copy.antt =====
-- `circular_buffer_copy` between two buffers that are different objects.
use embed_rtos.Base.{
  ℕ, zero, suc, ◌+◌, ◌-◌, ◌%◌, ◌≤◌, ◌<◌, ◌^◌, ◌≡◌, refl, sym, ap, ap₂, ◌∙◌, inl, inr, Option, none,
  some, List, [], ◌∷◌, ◌++◌, true, false, not, ◌&&◌, arith, ltb, if◌then◌else◌, ◌==◌, Bool-cases,
  slice, take, drop, min, add_size, sub_size, ◌>>=◌, length-slice, length-drop, append-nil, lt→ltb,
  ltb-false, take-append_left, ltb→lt, slice-shift,
}
use embed_rtos.Utils.CircularBuffer.{CircularBuffer, contiguous, write}
use embed_rtos.Utils.CircularBuffer.Bounds.{IsValid, contents, length-contents}
use embed_rtos.Utils.CircularBuffer.Chunk.{advanced, advanced-IsValid, window-slice}
use embed_rtos.Utils.CircularBuffer.Round.{IsChunk, contiguous-IsChunk}
use embed_rtos.Utils.CircularBuffer.Overwrite.{keep_last, keep_last-append}
use embed_rtos.Utils.CircularBuffer.Puts.{
  Puts, HasRoom, write-Puts, keep_last-all, fewer-HasRoom, after-HasRoom,
}

-- The loop; a pointer to the byte at `src_pos` is the rest of the array from there on.
pub copy_loop : ℕ → ℕ → ℕ → ℕ → CircularBuffer → CircularBuffer → Option (ℕ × Option CircularBuffer)
copy_loop zero to_copy copied src_pos src dest = none
copy_loop (suc fuel) to_copy copied src_pos src dest =
    let n = contiguous to_copy copied src.capacity src_pos in
    elim (ltb copied to_copy) [
      | false ↦ some (copied, some dest)
      | true ↦ write (some dest) (some (drop src_pos src.buffer)) n >>= λ r. elim (r.0 == 0) [
        | true ↦ some (copied, r.1)
        | false ↦ r.1 >>= λ dest'.
            copy_loop fuel to_copy (add_size copied r.0) (add_size src_pos r.0 % src.capacity) src
              dest'
      ]
    ]

pub copy : Option CircularBuffer → Option CircularBuffer → ℕ → Option (ℕ × Option CircularBuffer)
copy none src size = some (0, none)
copy (some dest) none size = some (0, some dest)
copy (some dest) (some src) size =
    let wanted = if ltb size src.count then size else src.count in
    let free_space = sub_size dest.capacity dest.count in
    let to_copy = if ltb free_space wanted && not dest.overwrite then free_space else wanted in
    if size == 0 then some (0, some dest) else copy_loop (suc to_copy) to_copy 0 src.head src dest

slice-nil : (i j n : ℕ) → slice {A = ℕ} [] 0 i n ≡ slice [] 0 j n
slice-nil i j zero = refl
slice-nil i j (suc n) = ap (λ xs. 0 ∷ xs) (slice-nil (suc i) (suc j) n)

slice-drop : (xs : List ℕ) (k i n : ℕ) → slice (drop k xs) 0 i n ≡ slice xs 0 (k + i) n
slice-drop xs zero i n = ap (λ j. slice xs 0 j n) (omega arith)
slice-drop [] (suc k) i n = slice-nil i (suc k + i) n
slice-drop (x ∷ xs) (suc k) i n =
    slice-drop xs k i n
    ∙ sym (slice-shift x xs 0 (k + i) n)
    ∙ ap (λ j. slice (x ∷ xs) 0 j n) (omega arith)

-- From `dest`, the loop copies the next `m` bytes of `xs`, the last of `to_copy`.
record Copies (to_copy m : ℕ) (xs : List ℕ) (dest : CircularBuffer)
    (result : Option (ℕ × Option CircularBuffer)) : Type 0 where
  after : CircularBuffer
  returns : result ≡ some (to_copy, some after)
  valid : IsValid after
  holds : contents after ≡ keep_last dest.capacity (contents dest ++ take m xs)

copy_loop-next :
    (fuel to_copy copied at n : ℕ) (src dest : CircularBuffer) {dest' : CircularBuffer}
    → copied < to_copy
    → contiguous to_copy copied src.capacity at ≡ n
    → 0 < n
    → write (some dest) (some (drop at src.buffer)) n ≡ some (n, some dest')
    → copied + n < 2 ^ 64
    → at + n < 2 ^ 64
    → copy_loop (suc fuel) to_copy copied at src dest
      ≡ copy_loop fuel to_copy (copied + n) ((at + n) % src.capacity) src dest'
unfolding copy_loop
copy_loop-next fuel to_copy copied at n src dest {dest'} lt en hn e hc ha =
    let sum : add_size copied n ≡ copied + n = omega arith in
    let step : add_size at n ≡ at + n = omega arith in
    let more : (n == 0) ≡ false = ground arith in
    rw (lt→ltb copied to_copy lt, copy_loop, en, e, ◌>>=◌, more, sum, step) refl

-- The bytes of a chunk and those behind it are the bytes held.
take-chunk :
    (n m : ℕ) {s : CircularBuffer}
    → IsValid s
    → s.head + n ≤ s.capacity
    → n ≤ s.count
    → slice (drop s.head s.buffer) 0 0 n ++ take m (contents (advanced s n))
      ≡ take (n + m) (contents s)
take-chunk n m {s} v h hn =
    ap (λ xs. xs ++ take m (contents (advanced s n)))
      (slice-drop s.buffer s.head 0 n ∙ ap (λ i. slice s.buffer 0 i n) (omega arith))
    ∙ sym (
        take-append_left (slice s.buffer 0 s.head n) (contents (advanced s n)) n m
          (length-slice s.buffer 0 s.head n))
    ∙ ap (take (n + m))
        (sym (window-slice s.buffer s.capacity s.count n s.head s.head v.head_in (λ p. refl) h hn))

copy_loop-done :
    (fuel to_copy copied at : ℕ) (src dest : CircularBuffer)
    → copied ≡ to_copy
    → copy_loop (suc fuel) to_copy copied at src dest ≡ some (to_copy, some dest)
unfolding copy_loop
copy_loop-done fuel to_copy copied at src dest h =
    rw (ltb-false copied to_copy (omega arith), copy_loop) (ap (λ k. some (k, some dest)) h)

copy_loop-Copies :
    (fuel to_copy copied at count : ℕ) (src : CircularBuffer) {dest : CircularBuffer}
    → IsValid (record src { head = at; count = count })
    → IsValid dest
    → copied ≤ to_copy
    → to_copy - copied ≤ count
    → to_copy < 2 ^ 63
    → HasRoom dest (to_copy - copied)
    → to_copy - copied < fuel
    → Copies to_copy
        (to_copy - copied)
        (contents (record src { head = at; count = count }))
        dest
        (copy_loop fuel to_copy copied at src dest)
copy_loop-Copies zero to_copy copied at count src v d h hc hs r hf = absurd (omega arith)
copy_loop-Copies (suc fuel) to_copy copied at count src {dest} v d h hc hs r hf =
    elim (Bool-cases (ltb copied to_copy)) [
      | inr stop ↦ record {
        after = dest;
        returns = copy_loop-done fuel to_copy copied at src dest (ground arith);
        valid = d;
        holds = sym (
            ap
              (λ k.
                keep_last dest.capacity
                  (contents dest ++ take k (contents (record src { head = at; count = count }))))
              {y = 0} (ground arith)
            ∙ ap (keep_last dest.capacity) (append-nil (contents dest))
            ∙ keep_last-all dest.capacity (contents dest) (omega (arith, d, length-contents dest)));
      }
      | inl more ↦
          let s : CircularBuffer = record src { head = at; count = count } in
          let lt : copied < to_copy = ltb→lt copied to_copy more in
          let n : ℕ = contiguous to_copy copied src.capacity at in
          let c : IsChunk to_copy copied src.capacity at n =
            contiguous-IsChunk to_copy copied src.capacity at v.head_in v.small (omega arith) lt in
          let m : ℕ = to_copy - (copied + n) in
          let both : n + m ≡ to_copy - copied = omega (arith, c) in
          let room : HasRoom dest (n + m) = rw both r in
          let p : Puts (drop at src.buffer) n dest
              (write (some dest) (some (drop at src.buffer)) n) =
            write-Puts (drop at src.buffer) n d c.pos
              (omega (arith, c, v, length-drop at src.buffer)) (omega (arith, c))
              (fewer-HasRoom n m dest room) in
          let rest : Copies to_copy m (contents (advanced s n)) p.after
              (copy_loop fuel to_copy (copied + n) ((at + n) % src.capacity) src p.after) =
            copy_loop-Copies fuel to_copy (copied + n) ((at + n) % src.capacity) (count - n) src
              (advanced-IsValid v n (omega (arith, c))) p.valid c.within (omega (arith, c)) hs
              (after-HasRoom n m room p) (omega (arith, c)) in
          record {
            after = rest.after;
            returns =
                copy_loop-next fuel to_copy copied at n src dest lt refl c.pos p.returns
                  (omega (arith, c)) (omega (arith, c, v))
                ∙ rest.returns;
            valid = rest.valid;
            holds =
                rest.holds
                ∙ ap₂ (λ k xs. keep_last k (xs ++ take m (contents (advanced s n)))) p.same_capacity
                    p.holds
                ∙ keep_last-append dest.capacity (contents dest) (slice (drop at src.buffer) 0 0 n)
                    (take m (contents (advanced s n)))
                ∙ ap (λ xs. keep_last dest.capacity (contents dest ++ xs))
                    (take-chunk n m v c.to_end (omega (arith, c))
                      ∙ ap (λ k. take k (contents s)) both);
          }
    ]

-- How many bytes a copy of `size` bytes moves.
abbrev pub copy_size : ℕ → CircularBuffer → CircularBuffer → ℕ
copy_size size src dest =
    if dest.overwrite
    then min size src.count
    else min (min size src.count) (dest.capacity - dest.count)

copy_size-HasRoom :
    (size : ℕ) (src : CircularBuffer) {dest : CircularBuffer}
    → IsValid dest
    → HasRoom dest (copy_size size src dest - 0)
copy_size-HasRoom size src {dest} d = elim (Bool-cases dest.overwrite) [
  | inl o ↦ inl o
  | inr o ↦ rw o (inr (omega (arith, d)))
]

copy-copy_loop :
    (size : ℕ) (src : CircularBuffer) {dest : CircularBuffer}
    → IsValid dest
    → 0 < size
    → copy (some dest) (some src) size
      ≡ copy_loop (suc (copy_size size src dest)) (copy_size size src dest) 0 src.head src dest
unfolding copy
copy-copy_loop size src {dest} d h = ground (arith, d)

-- `circular_buffer_copy` from one buffer into another ends and stays in bounds, keeps the
-- destination valid, and returns the number of bytes moved: the smaller of `size` and what the
-- source holds, and where the destination may not overwrite no more than it has room for. The
-- destination then holds the last `capacity` bytes of its old contents followed by that many of the
-- oldest bytes of the source.
pub copy_moves :
    (size : ℕ) {src dest : CircularBuffer}
    → IsValid src
    → IsValid dest
    → let n = copy_size size src dest in
      (after : CircularBuffer) × (copy (some dest) (some src) size ≡ some (n, some after))
      × IsValid after
      × (contents after ≡ keep_last dest.capacity (contents dest ++ take n (contents src)))
unfolding copy
copy_moves size {src} {dest} v d = elim (Bool-cases (size == 0)) [
  | inl nothing ↦
      let e : copy_size size src dest ≡ 0 = ground arith in
      rw (nothing, e)
        (
          dest,
          refl,
          d,
          sym (
              ap (keep_last dest.capacity) (append-nil (contents dest))
              ∙ keep_last-all dest.capacity (contents dest)
                  (omega (arith, d, length-contents dest))),
        )
  | inr some_bytes ↦
      let n : ℕ = copy_size size src dest in
      let c : Copies n (n - 0) (contents src) dest (copy_loop (suc n) n 0 src.head src dest) =
        copy_loop-Copies (suc n) n 0 src.head src.count src v d (omega arith) (ground arith)
          (ground (arith, v)) (copy_size-HasRoom size src d) (omega arith) in
      (
        c.after,
        copy-copy_loop size src d (ground arith) ∙ c.returns,
        c.valid,
        c.holds
            ∙ ap (λ k. keep_last dest.capacity (contents dest ++ take k (contents src)))
                (omega arith),
      )
]

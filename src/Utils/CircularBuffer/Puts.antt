-- ===== src/Utils/CircularBuffer/Puts.antt =====
-- `circular_buffer_write` of bytes that all go in, in either mode.
use embed_rtos.Base.{
  ℕ, suc, ◌+◌, ◌-◌, ◌≤◌, ◌<◌, ◌^◌, ◌≡◌, sym, ap, ◌∙◌, ◌⊎◌, inl, inr, Option, some, List, ◌++◌, true,
  arith, Bool-cases, length, slice, drop, min, ◌>>=◌, length-slice, length-drop, length-append,
}
use embed_rtos.Utils.CircularBuffer.{CircularBuffer, write, write_loop}
use embed_rtos.Utils.CircularBuffer.Bounds.{IsValid, contents, length-contents}
use embed_rtos.Utils.CircularBuffer.Overwrite.{keep_last, Overwrites, write_loop-Overwrites}
use embed_rtos.Utils.CircularBuffer.Write.{Appends, write_loop-Appends}

-- All `n` bytes go in.
pub record Puts (bytes : List ℕ) (n : ℕ) (dest : CircularBuffer)
    (result : Option (ℕ × Option CircularBuffer)) : Type 0 where
  pub after : CircularBuffer
  pub returns : result ≡ some (n, some after)
  pub valid : IsValid after
  pub holds : contents after ≡ keep_last dest.capacity (contents dest ++ slice bytes 0 0 n)
  pub same_capacity : after.capacity ≡ dest.capacity
  pub same_mode : after.overwrite ≡ dest.overwrite

abbrev pub HasRoom : CircularBuffer → ℕ → Type 0
HasRoom dest n = (dest.overwrite ≡ true) ⊎ (dest.count + n ≤ dest.capacity)

write-write_loop :
    (bytes : List ℕ) (n : ℕ) (dest : CircularBuffer)
    → 0 < n
    → HasRoom dest n
    → write (some dest) (some bytes) n
      ≡ (write_loop (suc n) bytes n 0 dest >>= λ r. some (r.0, some r.1))
unfolding write
write-write_loop bytes n dest h r = ground arith

-- Nothing is lost where all of it fits.
pub keep_last-all : (n : ℕ) (xs : List ℕ) → length xs ≤ n → keep_last n xs ≡ xs
keep_last-all n xs h = ap (λ k. drop k xs) {y = 0} (omega arith)

length-keep_last : (n : ℕ) (xs : List ℕ) → length (keep_last n xs) ≡ min n (length xs)
length-keep_last n xs = omega (arith, length-drop (length xs - n) xs)

pub write-Puts :
    (bytes : List ℕ) (n : ℕ) {dest : CircularBuffer}
    → IsValid dest
    → 0 < n
    → n ≤ length bytes
    → n < 2 ^ 64
    → HasRoom dest n
    → Puts bytes n dest (write (some dest) (some bytes) n)
write-Puts bytes n {dest} v hz hb hs r =
    let step = write-write_loop bytes n dest hz r in
    elim (Bool-cases dest.overwrite) [
      | inl o ↦
          let a : Overwrites bytes n 0 dest (write_loop (suc n) bytes n 0 dest) =
            write_loop-Overwrites (suc n) bytes n 0 v o (omega arith) hb hs (omega arith) in
          record {
            after = a.after;
            returns = step ∙ ap (λ q. q >>= λ r. some (r.0, some r.1)) a.returns;
            valid = a.valid;
            holds =
                a.holds
                ∙ ap (λ k. keep_last dest.capacity (contents dest ++ slice bytes 0 0 k))
                    (omega arith);
            same_capacity = a.same_capacity;
            same_mode = a.same_mode;
          }
      | inr o ↦
          let fits : dest.count + n ≤ dest.capacity = ground arith in
          let a : Appends bytes n 0 dest (write_loop (suc n) bytes n 0 dest) =
            write_loop-Appends (suc n) bytes n 0 v o (omega arith) hb hs (omega arith) in
          let all : a.last ≡ n = a.fits (omega arith) in
          record {
            after = a.after;
            returns =
                step
                ∙ ap (λ q. q >>= λ r. some (r.0, some r.1)) a.returns
                ∙ ap (λ k. some (k, some a.after)) all;
            valid = a.valid;
            holds =
                a.holds
                ∙ ap (λ k. contents dest ++ slice bytes 0 0 k) (omega (arith, all))
                ∙ sym (
                    keep_last-all dest.capacity (contents dest ++ slice bytes 0 0 n) (
                      omega (
                        arith,
                        length-append (contents dest) (slice bytes 0 0 n),
                        length-slice bytes 0 0 n,
                        length-contents dest,
                      )));
            same_capacity = a.same_capacity;
            same_mode = a.same_mode;
          }
    ]

pub fewer-HasRoom : (n m : ℕ) (dest : CircularBuffer) → HasRoom dest (n + m) → HasRoom dest n
fewer-HasRoom n m dest (inl o) = inl o
fewer-HasRoom n m dest (inr h) = inr (omega arith)

pub after-HasRoom :
    (n m : ℕ) {bytes : List ℕ} {dest : CircularBuffer} {result : Option (ℕ × Option CircularBuffer)}
    → HasRoom dest (n + m)
    → (p : Puts bytes n dest result) → HasRoom p.after m
after-HasRoom n m {bytes} {dest} (inl o) p = inl (p.same_mode ∙ o)
after-HasRoom n m {bytes} {dest} (inr h) p = inr (
    omega (
      arith,
      p.same_capacity,
      length-contents p.after,
      ap length p.holds,
      length-keep_last dest.capacity (contents dest ++ slice bytes 0 0 n),
      length-append (contents dest) (slice bytes 0 0 n),
      length-contents dest,
      length-slice bytes 0 0 n,
    ))

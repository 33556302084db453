-- ===== src/Hal/Bus/Echo.antt =====
-- What comes back over the simulated SPI of src/hal/virt_periph.c.
use embed_rtos.Base.{
  ℕ, zero, suc, ◌+◌, ◌-◌, ◌*◌, ◌/◌, ◌%◌, ◌≤◌, ◌≡◌, refl, sym, ap, ap₂, ◌∙◌, true, inr, some, List,
  [], ◌∷◌, ◌>>=◌, ◌==◌, ltb, if◌then◌else◌, arith, length, set, get_or, bit_xor, slice, splice,
  length-set, length-slice, length-splice, slice-splice_self, slice-splice_apart,
  get_elem?-in_range, write_bytes-in_range, Bool-cases, inl,
}
use embed_rtos.Base.Xor.{bit_xor-step, bit_xor_comm, bit_xor-zero}
use embed_rtos.Hal.Bus.{Spi, echo, transfer_loop, spi_transfer}

-- The low bit turned over.
flip-sum : (b : ℕ) → bit_xor b 1 ≡ b / 2 * 2 + (b + 1) % 2
flip-sum b =
    bit_xor-step b 1 ∙ ap (λ h. h * 2 + (b + 1) % 2) (bit_xor_comm (b / 2) 0 ∙ bit_xor-zero (b / 2))

flip-flip : (b : ℕ) → bit_xor (bit_xor b 1) 1 ≡ b
flip-flip b = flip-sum (bit_xor b 1) ∙ omega (arith, flip-sum b)

-- Some bytes as they come back, the first being byte `i` of the transfer.
pub noisy : ℕ → List ℕ → List ℕ
noisy i [] = []
noisy i (b ∷ bytes) = (if i % 5 == 0 then bit_xor b 0x01 else b) ∷ noisy (suc i) bytes

length-noisy : (i : ℕ) (bytes : List ℕ) → length (noisy i bytes) ≡ length bytes
unfolding noisy
length-noisy i [] = refl
length-noisy i (b ∷ bytes) = ap suc (length-noisy (suc i) bytes)

noisy-noisy : (i : ℕ) (bytes : List ℕ) → noisy i (noisy i bytes) ≡ bytes
unfolding noisy
noisy-noisy i [] = refl
noisy-noisy i (b ∷ bytes) = elim (Bool-cases (i % 5 == 0)) [
  | inl e ↦ rw e (ap₂ ◌∷◌ (flip-flip b) (noisy-noisy (suc i) bytes))
  | inr e ↦ rw e (ap (λ xs. b ∷ xs) (noisy-noisy (suc i) bytes))
]

transfer_loop-noisy :
    (n i : ℕ) (tx rx : List ℕ)
    → i + n ≤ length tx
    → i + n ≤ length rx
    → transfer_loop n i (some tx) (some rx) ≡ some (some (splice rx i (noisy i (slice tx 0 i n))))
unfolding transfer_loop noisy echo
transfer_loop-noisy zero i tx rx ht hr = refl
transfer_loop-noisy (suc n) i tx rx ht hr =
    let byte : ℕ = if i % 5 == 0 then bit_xor (get_or tx i 0) 0x01 else get_or tx i 0 in
    rw
      (
        transfer_loop,
        get_elem?-in_range tx i (omega arith),
        ◌>>=◌,
        write_bytes-in_range rx i (byte ∷ []) (omega arith),
        ◌>>=◌,
      )
      (transfer_loop-noisy n (suc i) tx (set rx i byte) (omega arith)
        (omega (arith, length-set rx i byte)))

-- The number of bytes that a transfer of `size` moves.
abbrev pub burst : ℕ → ℕ
burst size = if ltb size 16 then size else 16

-- On an initialized SPI, with buffers that have room for the transfer or for its first sixteen
-- bytes, virt_spi_transfer moves the first sixteen bytes at most and leaves the rest of the buffer
-- alone, and what comes back, sent once more, comes back as it was first sent.
pub transfer-transfer :
    (spi : Spi) (tx rx rx' : List ℕ) (size : ℕ)
    → spi.initialized ≡ true
    → burst size ≤ length tx
    → burst size ≤ length rx
    → burst size ≤ length rx'
    → (back : List ℕ) × (spi_transfer (some spi) (some tx) (some rx) size ≡ some (some back))
      × (spi_transfer (some spi) (some back) (some rx') size
          ≡ some (some (splice rx' 0 (slice tx 0 0 (burst size)))))
      × (slice back 0 (burst size) (length rx - burst size)
          ≡ slice rx 0 (burst size) (length rx - burst size))
unfolding spi_transfer
transfer-transfer spi tx rx rx' size on ht hr hr' =
    let n : ℕ = burst size in
    let sent : List ℕ = noisy 0 (slice tx 0 0 n) in
    let count : length sent ≡ n = length-noisy 0 (slice tx 0 0 n) ∙ length-slice tx 0 0 n in
    let back : List ℕ = splice rx 0 sent in
    let front : slice back 0 0 n ≡ sent =
      ap (slice back 0 0) (sym count) ∙ slice-splice_self rx 0 0 sent (omega (arith, count)) in
    (
      back,
      rw on (transfer_loop-noisy n 0 tx rx (omega arith) (omega arith)),
      rw on (
          transfer_loop-noisy n 0 back rx' (omega (arith, length-splice rx 0 sent)) (omega arith)
          ∙ ap (λ bytes. some (some (splice rx' 0 bytes)))
              (ap (noisy 0) front ∙ noisy-noisy 0 (slice tx 0 0 n))),
      slice-splice_apart rx 0 0 sent n (length rx - n) (inr (omega (arith, count))),
    )

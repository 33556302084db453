-- ===== src/Ota/Flash/Padding.antt =====
-- The last word of a chunk that is not of whole words, in flash.
use embed_rtos.Base.{
  ℕ, zero, suc, ◌+◌, ◌-◌, ◌*◌, ◌/◌, ◌%◌, ◌<◌, ◌≤◌, ◌≡◌, refl, sym, ap, ap₂, ◌∙◌, false, Bool-cases,
  Option, some, List, [], ◌∷◌, arith, inl, inr, ◌>>=◌, bind-some, length, splice, slice,
  slice-splice_self, length-splice, add32, get_or, leb, read_bytes-in_range, bit_or, ◌<<<◌,
  some-injective,
}
use embed_rtos.Ota.Flash.{
  Layout, BootError, boot_ok, flash_write, erased, word_bytes, write_word, chunk_word, chunk_rest,
  write_words,
}
use embed_rtos.Ota.Flash.Words.{or_above, word_bytes-digits, write_word-erased}
use embed_rtos.Ota.Flash.Chunks.{AllBytes}

-- The bytes are `n` words and a part of a word, of `k` bytes.
pub record IsPartial (n k : ℕ) (bytes : List ℕ) : Type 0 where
  pub count : length bytes ≡ 4 * n + k
  pub part : 0 < k
  pub below : k < 4
  pub are_bytes : AllBytes bytes

-- Four bytes with a zero among them are not erased.
not_erased :
    (memory : List ℕ) (address d : ℕ)
    → d < 4
    → get_or memory (address + d) 0 ≡ 0
    → erased (slice memory 0 address 4) ≡ false
not_erased memory address zero h zeros =
    let first : get_or memory address 0 ≡ 0 =
      ap (λ i. get_or memory i 0) (let e : address ≡ address + 0 = omega arith in e) ∙ zeros in
    ground (arith, first)
not_erased memory address (suc zero) h zeros =
    let second : get_or memory (suc address) 0 ≡ 0 =
      ap (λ i. get_or memory i 0) (let e : suc address ≡ address + 1 = omega arith in e) ∙ zeros in
    ground (arith, second)
not_erased memory address (suc (suc zero)) h zeros =
    let third : get_or memory (suc (suc address)) 0 ≡ 0 =
      ap (λ i. get_or memory i 0) (let e : suc (suc address) ≡ address + 2 = omega arith in e)
      ∙ zeros in
    ground (arith, third)
not_erased memory address (suc (suc (suc zero))) h zeros =
    let fourth : get_or memory (suc (suc (suc address))) 0 ≡ 0 =
      ap (λ i. get_or memory i 0) (let e : suc (suc (suc address)) ≡ address + 3 = omega arith in e)
      ∙ zeros in
    ground (arith, fourth)
not_erased memory address (suc (suc (suc (suc d)))) h zeros = absurd (omega (arith, h))

module _ (layout : Layout) where
  -- The top byte of the word that less than four bytes make is zero.
  part-top :
      (k : ℕ) (bytes : List ℕ)
      → IsPartial 0 k bytes
      → get_or (word_bytes (chunk_word layout bytes)) 3 0 ≡ 0
  unfolding chunk_word
  part-top k [] h = absurd (omega (arith, h))
  part-top k (a ∷ []) h =
      let ha = h.are_bytes.0 in ap (λ l. get_or l 3 0) (word_bytes-digits a) ∙ omega (arith, ha)
  part-top k (a ∷ b ∷ []) h =
      let ha = h.are_bytes.0 in
      let hb = h.are_bytes.1.0 in
      ap (λ l. get_or l 3 0) (word_bytes-digits _)
      ∙ ap (λ w. w / 16777216 % 256) (or_above 8 b a ha)
      ∙ omega (arith, ha, hb)
  part-top k (a ∷ b ∷ c ∷ []) h =
      let ha = h.are_bytes.0 in
      let hb = h.are_bytes.1.0 in
      let hc = h.are_bytes.1.1.0 in
      ap (λ l. get_or l 3 0) (word_bytes-digits _)
      ∙ ap (λ w. w / 16777216 % 256)
          (ap (λ x. bit_or x (c <<< 16)) (or_above 8 b a ha)
            ∙ or_above 16 c (b * 256 + a) (omega (arith, ha, hb)))
      ∙ omega (arith, ha, hb, hc)
  part-top k (a ∷ b ∷ c ∷ d ∷ rest) h = absurd (omega (arith, h))

  -- Where the bytes are not erased, a write fails and changes nothing.
  write_word-refuses :
      (address w : ℕ) (memory : List ℕ)
      → length memory ≡ layout.total_size
      → erased (slice memory 0 address 4) ≡ false
      → write_word layout address w memory ≡ some (flash_write, memory)
  unfolding write_word
  write_word-refuses address w memory len e =
      elim (Bool-cases (leb (layout.total_size - 3) address)) [
        | inl above ↦ rw above refl
        | inr below ↦
            let room : address + 4 ≤ layout.total_size = ground (arith, below) in
            rw (below, read_bytes-in_range memory address 4 (omega (arith, room, len)), ◌>>=◌, e)
              refl
      ]

  -- A write that succeeds lies within the flash and sets the bytes of the word.
  write_word-wrote :
      (address w : ℕ) (memory memory' : List ℕ)
      → length memory ≡ layout.total_size
      → write_word layout address w memory ≡ some (boot_ok, memory')
      → (address + 4 ≤ layout.total_size) × (memory' ≡ splice memory address (word_bytes w))
  unfolding write_word
  write_word-wrote address w memory memory' len h =
      elim (Bool-cases (leb (layout.total_size - 3) address)) [
        | inl e ↦ absurd (grind (arith, e, h))
        | inr e ↦ elim (Bool-cases (erased (slice memory 0 address 4))) [
          | inl e' ↦
              let room : address + 4 ≤ layout.total_size = ground (arith, e) in
              let wrote = write_word-erased layout address w memory len room e' in
              (room, ap (λ r. r.1) (some-injective (sym h ∙ wrote)))
          | inr e' ↦
              let refused = write_word-refuses address w memory len e' in
              absurd (grind (arith, h, refused))
        ]
      ]

  -- A loop whose write was accepted goes on.
  ok_step :
      (e : BootError) (m m' : List ℕ) (next : List ℕ → Option (BootError × List ℕ))
      → (elim e as (λ _. Option (BootError × List ℕ)) [
        | boot_ok ↦ next m
        | failure ↦ some (failure, m)
      ])
        ≡ some (boot_ok, m')
      → (e ≡ boot_ok) × (next m ≡ some (boot_ok, m'))
  ok_step e m m' next h = grind arith

  chunk_rest-short : (bytes : List ℕ) → length bytes < 4 → chunk_rest layout bytes ≡ []
  unfolding chunk_rest
  chunk_rest-short [] h = refl
  chunk_rest-short (a ∷ []) h = refl
  chunk_rest-short (a ∷ b ∷ []) h = refl
  chunk_rest-short (a ∷ b ∷ c ∷ []) h = refl
  chunk_rest-short (a ∷ b ∷ c ∷ d ∷ rest) h = absurd (omega (arith, h))

  chunk_rest-IsPartial :
      (n k : ℕ) (bytes : List ℕ)
      → IsPartial (suc n) k bytes
      → IsPartial n k (chunk_rest layout bytes)
  unfolding chunk_rest
  chunk_rest-IsPartial n k [] h = absurd (omega (arith, h))
  chunk_rest-IsPartial n k (a ∷ []) h = absurd (omega (arith, h))
  chunk_rest-IsPartial n k (a ∷ b ∷ []) h = absurd (omega (arith, h))
  chunk_rest-IsPartial n k (a ∷ b ∷ c ∷ []) h = absurd (omega (arith, h))
  chunk_rest-IsPartial n k (a ∷ b ∷ c ∷ d ∷ rest) h = record {
    count = omega (arith, h);
    part = h.part;
    below = h.below;
    are_bytes = h.are_bytes.1.1.1.1;
  }

  -- A write of a part of a word, once it succeeds, has set a zero byte at the end of the word.
  write_word-padding :
      (k address : ℕ) (bytes memory memory' : List ℕ)
      → IsPartial 0 k bytes
      → length memory ≡ layout.total_size
      → write_word layout address (chunk_word layout bytes) memory ≡ some (boot_ok, memory')
      → (length memory' ≡ layout.total_size)
        × (address + 4 ≤ layout.total_size)
        × (get_or memory' (address + 3) 0 ≡ 0)
  write_word-padding k address bytes memory memory' part len h =
      let word : List ℕ = word_bytes (chunk_word layout bytes) in
      let (room, wrote) = write_word-wrote address (chunk_word layout bytes) memory memory' len h in
      let self = slice-splice_self memory 0 address word (omega (arith, len, room)) in
      let at : suc (suc (suc address)) ≡ address + 3 = omega arith in
      (
        ap length wrote ∙ length-splice memory address word ∙ len,
        room,
        ap₂ (λ m i. get_or m i 0) wrote (sym at)
            ∙ ap (λ l. get_or l 3 0) self
            ∙ part-top k bytes part,
      )

  -- A chunk that ends in a part of a word, once it is written, has left a zero byte at the end of
  -- its last word.
  pub write_words-padding :
      (n k fuel address : ℕ) (bytes memory memory' : List ℕ)
      → layout.total_size < 4294967296
      → IsPartial n k bytes
      → length memory ≡ layout.total_size
      → write_words layout fuel address bytes memory ≡ some (boot_ok, memory')
      → (length memory' ≡ layout.total_size)
        × (address + 4 * n + 4 ≤ layout.total_size)
        × (get_or memory' (address + 4 * n + 3) 0 ≡ 0)
  unfolding write_words
  write_words-padding n k fuel address [] memory memory' small part len h =
      absurd (omega (arith, part))
  write_words-padding n k zero address (a ∷ rest) memory memory' small part len h =
      absurd (grind (arith, h))
  write_words-padding zero k (suc fuel) address (a ∷ rest) memory memory' small part len h =
      let (r, taken, later) =
        bind-some (write_word layout address (chunk_word layout (a ∷ rest)) memory) h in
      let (ok, goes_on) =
        ok_step r.0 r.1 memory'
          (write_words layout fuel (add32 address 4) (chunk_rest layout (a ∷ rest))) later in
      let last =
        ap (λ l. write_words layout fuel (add32 address 4) l r.1)
          (chunk_rest-short (a ∷ rest) (omega (arith, part))) in
      let same : r.1 ≡ memory' = ap (λ x. x.1) (some-injective (sym last ∙ goes_on)) in
      let (len', room, zeros) =
        write_word-padding k address (a ∷ rest) memory memory' part len
          (taken ∙ ap₂ (λ e m. some (e, m)) ok same) in
      let at : address + 3 ≡ address + 4 * 0 + 3 = omega arith in
      (len', omega (arith, room), ap (λ i. get_or memory' i 0) (sym at) ∙ zeros)
  write_words-padding (suc n) k (suc fuel) address (a ∷ rest) memory memory' small part len h =
      let (r, taken, later) =
        bind-some (write_word layout address (chunk_word layout (a ∷ rest)) memory) h in
      let (ok, goes_on) =
        ok_step r.0 r.1 memory'
          (write_words layout fuel (add32 address 4) (chunk_rest layout (a ∷ rest))) later in
      let (room, wrote) =
        write_word-wrote address (chunk_word layout (a ∷ rest)) memory r.1 len
          (taken ∙ ap (λ e. some (e, r.1)) ok) in
      let next : add32 address 4 ≡ address + 4 = omega (arith, room, small) in
      let same : address + 4 + 4 * n ≡ address + 4 * suc n = omega arith in
      let (len', room', zeros) =
        write_words-padding n k fuel (address + 4) (chunk_rest layout (a ∷ rest)) r.1 memory' small
          (chunk_rest-IsPartial n k (a ∷ rest) part)
          (ap length wrote
            ∙ length-splice memory address (word_bytes (chunk_word layout (a ∷ rest)))
            ∙ len)
          (ap (λ i. write_words layout fuel i (chunk_rest layout (a ∷ rest)) r.1) (sym next)
            ∙ goes_on) in
      (len', omega (arith, room'), ap (λ i. get_or memory' (i + 3) 0) (sym same) ∙ zeros)

  -- A chunk that begins among the bytes of a word with a zero byte is refused at its first write,
  -- which changes nothing.
  pub write_words-refuses :
      (fuel address d : ℕ) (bytes memory : List ℕ)
      → 0 < length bytes
      → length memory ≡ layout.total_size
      → d < 4
      → get_or memory (address + d) 0 ≡ 0
      → write_words layout (suc fuel) address bytes memory ≡ some (flash_write, memory)
  unfolding write_words
  write_words-refuses fuel address d [] memory some_bytes len h zeros = absurd (omega arith)
  write_words-refuses fuel address d (a ∷ rest) memory some_bytes len h zeros =
      rw
        (
          write_word-refuses address (chunk_word layout (a ∷ rest)) memory len
              (not_erased memory address d h zeros),
          ◌>>=◌,
        )
        refl

-- ===== src/Ota/Flash/Chunks.antt =====
-- The bytes of a chunk in flash, word by word.
use embed_rtos.Base.{
  ℕ, zero, suc, ◌+◌, ◌*◌, ◌<◌, ◌≤◌, ◌≡◌, refl, sym, ap, ◌∙◌, true, some, List, [], ◌∷◌, ◌++◌, arith,
  inr, length, splice, slice, slice-add, slice-splice_apart, splice-append, length-splice, add32,
}
use embed_rtos.Ota.Flash.{
  Layout, boot_ok, erased, bytes_word, write_word, chunk_word, chunk_rest, write_words,
}
use embed_rtos.Ota.Flash.Words.{write_word-erased, word_bytes-bytes_word}

abbrev pub AllBytes : List ℕ → Type 0
AllBytes [] = Unit
AllBytes (b ∷ bytes) = (b < 256) × AllBytes bytes

pub erased-append :
    (xs ys : List ℕ) → erased (xs ++ ys) ≡ true → (erased xs ≡ true) × (erased ys ≡ true)
erased-append [] ys h = (refl, h)
erased-append (x ∷ xs) ys h = ground (arith, erased-append xs ys)

module _ (layout : Layout) (small : layout.total_size < 4294967296) where
  -- One round of the loop.
  write_words-next :
      (fuel address a b c d : ℕ) (rest memory : List ℕ)
      → AllBytes (a ∷ b ∷ c ∷ d ∷ [])
      → length memory ≡ layout.total_size
      → address + 4 ≤ layout.total_size
      → erased (slice memory 0 address 4) ≡ true
      → write_words layout (suc fuel) address (a ∷ b ∷ c ∷ d ∷ rest) memory
        ≡ write_words layout fuel (address + 4) rest (splice memory address (a ∷ b ∷ c ∷ d ∷ []))
  unfolding write_words chunk_word chunk_rest
  write_words-next fuel address a b c d rest memory bs len room e =
      let written : write_word layout address (bytes_word a b c d) memory
          ≡ some (boot_ok, splice memory address (a ∷ b ∷ c ∷ d ∷ [])) =
        write_word-erased layout address (bytes_word a b c d) memory len room e
        ∙ ap (λ bytes. some (boot_ok, splice memory address bytes))
            (word_bytes-bytes_word a b c d bs.0 bs.1.0 bs.1.1.0 bs.1.1.1.0) in
      let step : add32 address 4 ≡ address + 4 = omega arith in
      rw (write_words, written)
        (ap (λ k. write_words layout fuel k rest (splice memory address (a ∷ b ∷ c ∷ d ∷ []))) step)

  -- A chunk of `n` words, written by the loop of `ota_manager_receive_chunk` where the flash is
  -- erased: every write succeeds, and the flash holds the chunk at the address and is otherwise as
  -- before. As many rounds as there are words are enough.
  pub write_words-erased :
      (n fuel address : ℕ) (bytes memory : List ℕ)
      → AllBytes bytes
      → length bytes ≡ 4 * n
      → n ≤ fuel
      → length memory ≡ layout.total_size
      → address + 4 * n ≤ layout.total_size
      → erased (slice memory 0 address (4 * n)) ≡ true
      → write_words layout fuel address bytes memory ≡ some (boot_ok, splice memory address bytes)
  unfolding write_words
  write_words-erased zero fuel address [] memory bs size enough len room e = refl
  write_words-erased zero fuel address (a ∷ bytes) memory bs size enough len room e =
      absurd (omega arith)
  write_words-erased (suc n) fuel address [] memory bs size enough len room e = absurd (omega arith)
  write_words-erased (suc n) fuel address (a ∷ []) memory bs size enough len room e =
      absurd (omega arith)
  write_words-erased (suc n) fuel address (a ∷ b ∷ []) memory bs size enough len room e =
      absurd (omega arith)
  write_words-erased (suc n) fuel address (a ∷ b ∷ c ∷ []) memory bs size enough len room e =
      absurd (omega arith)
  write_words-erased (suc n) zero address (a ∷ b ∷ c ∷ d ∷ rest) memory bs size enough len room e =
      absurd (omega arith)
  write_words-erased (suc n) (suc fuel) address (a ∷ b ∷ c ∷ d ∷ rest) memory bs size enough len
        room e =
      let word : List ℕ = a ∷ b ∷ c ∷ d ∷ [] in
      let memory' : List ℕ = splice memory address word in
      let count : 4 * suc n ≡ 4 + 4 * n = omega arith in
      let parts : erased (slice memory 0 address 4 ++ slice memory 0 (address + 4) (4 * n)) ≡ true =
        sym (ap erased (ap (slice memory 0 address) count ∙ slice-add memory 0 address 4 (4 * n)))
        ∙ e in
      let clear =
        erased-append (slice memory 0 address 4) (slice memory 0 (address + 4) (4 * n)) parts in
      write_words-next fuel address a b c d rest memory
        (bs.0, (bs.1.0, (bs.1.1.0, (bs.1.1.1.0, _)))) len (omega arith) clear.0
      ∙ write_words-erased n fuel (address + 4) rest memory' bs.1.1.1.1 (omega arith) (omega arith)
          (length-splice memory address word ∙ len) (omega arith)
          (ap erased
              (slice-splice_apart memory 0 address word (address + 4) (4 * n) (inr (omega arith)))
            ∙ clear.1)
      ∙ ap (λ m. some (boot_ok, m)) (splice-append memory address (address + 4) word rest refl)

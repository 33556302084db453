-- ===== src/Ota/Manager/Partial.antt =====
-- A chunk that is not of whole words, and the one after it.
use embed_rtos.Base.{
  ℕ, suc, ◌+◌, ◌-◌, ◌*◌, ◌<◌, ◌≤◌, ◌≡◌, refl, sym, ap, ◌∙◌, true, false, Bool-cases, inl, inr, some,
  List, arith, ◌>>=◌, if◌then◌else◌, ltb-false, ◌==◌, ==_iff, length, slice-all, add32, get_or,
  read_bytes, read_bytes-in_range,
}
use embed_rtos.Ota.Flash.{Layout, boot_ok, flash_write, write_words}
use embed_rtos.Ota.Flash.Padding.{IsPartial, write_words-padding, write_words-refuses}
use embed_rtos.Ota.Manager.{
  Manager, ChunkInfo, receiving_data, error, no_error, flash_error, invalid_state, is_waiting,
  is_receiving, update_state, update_progress, with_flash, count_chunk, store_chunk, receive_chunk,
  start_update,
}
use embed_rtos.Ota.Manager.Update.{opened}
use embed_rtos.Ota.Manager.Install.{receive_chunk-keeps}

-- A chunk that is not empty and fits in what is left of the update.
pub record Fits (bytes : List ℕ) (o : Manager) : Type 0 where
  pub some_bytes : 0 < length bytes
  pub short : length bytes ≤ o.chunk_info.chunk_size
  pub fits : add32 o.chunk_info.received_bytes (length bytes) ≤ o.chunk_info.total_size

-- The answer to a chunk whose first write fails, and the state that it leaves.
pub record IsStuck (layout : Layout) (o o' : Manager) : Type 0 where
  pub is_error : o'.state ≡ error
  pub cause : o'.last_error ≡ flash_error
  pub same_flash : o'.bootloader ≡ o.bootloader
  pub refuses_start :
      (now total_size chunk_size : ℕ)
      → start_update layout now total_size chunk_size o' ≡ some (invalid_state, o')

module _ (layout : Layout) where
  -- A chunk that was accepted has been stored.
  accepted-stored :
      (now number : ℕ) (bytes : List ℕ) (o o' : Manager)
      → receive_chunk layout now number (some bytes) (length bytes) o ≡ some (no_error, o')
      → store_chunk layout now bytes (opened o) ≡ some (no_error, o')
  unfolding receive_chunk
  accepted-stored now number bytes o o' h =
      let whole : read_bytes bytes 0 (length bytes) ≡ some bytes =
        read_bytes-in_range bytes 0 (length bytes) (omega arith) ∙ ap some (slice-all bytes 0) in
      grind (arith, h, whole)

  stored-written :
      (now : ℕ) (bytes : List ℕ) (o o' : Manager)
      → store_chunk layout now bytes o ≡ some (no_error, o')
      → (write_words layout
            (suc (length bytes))
            (add32 layout.slot_b o.chunk_info.received_bytes)
            bytes
            o.bootloader.flash
          ≡ some (boot_ok, o'.bootloader.flash))
        × (o'.chunk_info.received_bytes ≡ add32 o.chunk_info.received_bytes (length bytes))
  unfolding store_chunk count_chunk update_progress
  stored-written now bytes o o' h = grind (arith, h)

  receiving-not_waiting : (o : Manager) → is_receiving o.state ≡ true → is_waiting o.state ≡ false
  receiving-not_waiting o h = grind (arith, h)

  -- Where the first write of a chunk fails, the update is in error.
  refused-IsStuck :
      (now number : ℕ) (bytes : List ℕ) (o : Manager)
      → is_receiving o.state ≡ true
      → number ≡ o.chunk_info.next_expected_chunk
      → Fits bytes o
      → write_words layout
          (suc (length bytes))
          (add32 layout.slot_b o.chunk_info.received_bytes)
          bytes
          o.bootloader.flash
        ≡ some (flash_write, o.bootloader.flash)
      → (o' : Manager) × (receive_chunk layout now number (some bytes) (length bytes) o
          ≡ some (flash_error, o'))
        × IsStuck layout o o'
  unfolding receive_chunk store_chunk update_state start_update
  refused-IsStuck now number bytes o r e f refused =
      let info : ChunkInfo = o.chunk_info in
      let nonempty : (length bytes == 0) ≡ false = ground (arith, f) in
      (
        update_state error flash_error o,
        rw
            (
              r,
              receiving-not_waiting o r,
              (==_iff number info.next_expected_chunk).1 e,
              nonempty,
              ltb-false info.chunk_size (length bytes) f.short,
              ltb-false info.total_size (add32 info.received_bytes (length bytes)) f.fits,
              read_bytes-in_range bytes 0 (length bytes) (omega arith),
              ◌>>=◌,
              slice-all bytes 0,
              refused,
              ◌>>=◌,
            )
            (ap
              (λ b. some (
                flash_error,
                update_state error flash_error (
                    with_flash o.bootloader.flash
                      (if b then update_state receiving_data no_error o else o)),
              ))
              (receiving-not_waiting o r)),
        record {
          is_error = refl;
          cause = refl;
          same_flash = refl;
          refuses_start = λ now total_size chunk_size. refl;
        },
      )

  pub opened-bootloader : (o : Manager) → (opened o).bootloader ≡ o.bootloader
  unfolding update_state
  opened-bootloader o = elim (Bool-cases (is_waiting o.state)) [
    | inl e ↦ rw e refl
    | inr e ↦ rw e refl
  ]

  -- In a flash of the layout's size, below 2 ^ 32: a chunk that is not of whole words, once it is
  -- accepted, blocks the update: the next chunk, not empty, sent in order and of a size that fits, is
  -- answered with the flash error, since its first write falls into the word that the end of the
  -- chunk before was padded to; the flash is unchanged, and no update can be started from the error
  -- state.
  pub partial_chunk-blocks :
      (now now' number n k : ℕ) (first next : List ℕ) (o o' : Manager)
      → layout.total_size < 4294967296
      → length o.bootloader.flash ≡ layout.total_size
      → IsPartial n k first
      → receive_chunk layout now number (some first) (length first) o ≡ some (no_error, o')
      → Fits next o'
      → (o'' : Manager) × (receive_chunk layout now' o'.chunk_info.next_expected_chunk
            (some next)
            (length next)
            o'
          ≡ some (flash_error, o''))
        × IsStuck layout o' o''
  partial_chunk-blocks now now' number n k first next o o' small len part h f =
      let (written, received) =
        stored-written now first (opened o) o' (accepted-stored now number first o o' h) in
      let at : ℕ = add32 layout.slot_b (opened o).chunk_info.received_bytes in
      let (len', room, zeros) =
        write_words-padding layout n k (suc (length first)) at first (opened o).bootloader.flash
          o'.bootloader.flash small part (ap (λ b. length b.flash) (opened-bootloader o) ∙ len)
          written in
      let next_at : at + length first ≡ add32 layout.slot_b o'.chunk_info.received_bytes =
        omega (arith, room, received, part, small) in
      let zero_at : at + 4 * n + 3 ≡ at + length first + (3 - k) = omega (arith, part) in
      refused-IsStuck now' o'.chunk_info.next_expected_chunk next o'
        (receive_chunk-keeps layout now number (length first) (some first) o o' h).0 refl f
        (ap (λ i. write_words layout (suc (length next)) i next o'.bootloader.flash) (sym next_at)
          ∙ write_words-refuses layout (length next) (at + length first) (3 - k) next
              o'.bootloader.flash f.some_bytes len' (omega (arith, part))
              (ap (λ i. get_or o'.bootloader.flash i 0) (sym zero_at) ∙ zeros))

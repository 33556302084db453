-- ===== src/Ota/Manager/Outcome.antt =====
-- What comes of an update that is sent whole, in src/ota/ota_manager.c.
mod Examples
use embed_rtos.Base.{
  ℕ, suc, ◌+◌, ◌-◌, ◌<◌, ◌≤◌, ◌≡◌, refl, sym, ap, ap₂, ◌∙◌, ◌⊎◌, inl, inr, true, none, some, List,
  [], ◌∷◌, arith, ◌>>=◌, ◌||◌, ltb-false, leb, ◌==◌, ==_iff, length, length-append, slice,
  slice-all, add32, read_bytes-in_range, false, Bool-cases,
}
use embed_rtos.Ota.Flash.{Layout, flash_write, write_word, write_words, erased}
use embed_rtos.Ota.Manager.{
  Manager, ChunkInfo, error, no_error, flash_error, complete, is_waiting, is_receiving,
  update_state, with_flash, store_chunk, receive_chunk, start_update, finalize_update,
}
use embed_rtos.Ota.Manager.Update.{
  Receives, AreChunks, joined, receive_all, opened, opened-chunk_info, neither,
}
use embed_rtos.Ota.Manager.Install.{IsImage, install}
use embed_rtos.Ota.Manager.Partial.{IsStuck, opened-bootloader}

-- The manager waits for the first chunk; the flash has the size of the layout.
pub record IsOpen (layout : Layout) (o : Manager) : Type 0 where
  pub open_for : (is_waiting o.state || is_receiving o.state) ≡ true
  pub received : o.chunk_info.received_bytes ≡ 0
  pub storage : length o.bootloader.flash ≡ layout.total_size

-- The second slot has room for the update and is erased so far.
pub record HasRoom (layout : Layout) (o : Manager) : Type 0 where
  pub room : layout.slot_b + o.chunk_info.total_size ≤ layout.total_size
  pub clear : erased (slice o.bootloader.flash 0 layout.slot_b o.chunk_info.total_size) ≡ true

-- How it ends: installed, or refused at the first chunk.
pub data Ends (layout : Layout) (now : ℕ) (first : List ℕ) (more : List (List ℕ)) (o : Manager)
    : Type 0 where
  installed :
      (o1 o2 : Manager)
      → HasRoom layout o
      → receive_all layout now o.chunk_info.next_expected_chunk (first ∷ more) o ≡ some o1
      → finalize_update layout o1 ≡ some (no_error, o2)
      → o2.state ≡ complete
      → o2.restart_required ≡ true
      → Ends layout now first more o
  refused :
      (o' : Manager)
      → layout.total_size ≤ layout.slot_b + 3
      → receive_chunk layout now o.chunk_info.next_expected_chunk (some first) (length first) o
        ≡ some (flash_error, o')
      → IsStuck layout o o'
      → receive_all layout now o.chunk_info.next_expected_chunk (first ∷ more) o ≡ none
      → Ends layout now first more o

module _ (layout : Layout) where
  -- Behind the flash there is no write.
  write_words-behind :
      (fuel address : ℕ) (bytes memory : List ℕ)
      → 0 < length bytes
      → layout.total_size ≤ address + 3
      → write_words layout (suc fuel) address bytes memory ≡ some (flash_write, memory)
  unfolding write_words write_word
  write_words-behind fuel address [] memory h behind = absurd (omega arith)
  write_words-behind fuel address (a ∷ rest) memory h behind =
      let test : leb (layout.total_size - 3) address ≡ true = ground (arith, behind) in
      rw (test, ◌>>=◌) refl

  receive_chunk-opened :
      (now : ℕ) (bytes : List ℕ) (o : Manager)
      → IsOpen layout o
      → 0 < length bytes
      → length bytes ≤ o.chunk_info.chunk_size
      → length bytes ≤ o.chunk_info.total_size
      → receive_chunk layout now o.chunk_info.next_expected_chunk (some bytes) (length bytes) o
        ≡ store_chunk layout now bytes (opened o)
  unfolding receive_chunk
  receive_chunk-opened now bytes o v some_bytes short fits =
      let info : ChunkInfo = o.chunk_info in
      let nonempty : (length bytes == 0) ≡ false = ground (arith, some_bytes) in
      rw
        (
          neither (is_waiting o.state) (is_receiving o.state) v.open_for,
          (==_iff info.next_expected_chunk info.next_expected_chunk).1 refl,
          nonempty,
          ltb-false info.chunk_size (length bytes) short,
          ltb-false info.total_size (add32 info.received_bytes (length bytes))
              (omega (arith, v, fits)),
          read_bytes-in_range bytes 0 (length bytes) (omega arith),
        )
        (ap (λ taken. store_chunk layout now taken (opened o)) (slice-all bytes 0))

  store_chunk-behind :
      (now : ℕ) (bytes : List ℕ) (o : Manager)
      → 0 < length bytes
      → layout.total_size ≤ add32 layout.slot_b o.chunk_info.received_bytes + 3
      → store_chunk layout now bytes o ≡ some (flash_error, update_state error flash_error o)
  unfolding store_chunk
  store_chunk-behind now bytes o some_bytes behind =
      rw
        (
          write_words-behind (length bytes) (add32 layout.slot_b o.chunk_info.received_bytes) bytes
              o.bootloader.flash some_bytes behind,
          ◌>>=◌,
        )
        refl

  error-IsStuck : (o : Manager) → IsStuck layout o (update_state error flash_error (opened o))
  unfolding update_state start_update
  error-IsStuck o = record {
    is_error = refl;
    cause = refl;
    same_flash = opened-bootloader layout o;
    refuses_start = λ now total_size chunk_size. refl;
  }

  pub receive_all-Ends :
      (now : ℕ) (first : List ℕ) (more : List (List ℕ)) (o : Manager)
      → layout.total_size < 4294967296
      → layout.slot_b < 4294967296
      → IsOpen layout o
      → HasRoom layout o ⊎ (layout.total_size ≤ layout.slot_b + 3)
      → AreChunks o.chunk_info.chunk_size (first ∷ more)
      → length (joined (first ∷ more)) ≡ o.chunk_info.total_size
      → IsImage layout (joined (first ∷ more)) o
      → Ends layout now first more o
  unfolding receive_all
  receive_all-Ends now first more o small word v (inl r) cs whole c =
      let begin : layout.slot_b + 0 ≡ layout.slot_b = omega arith in
      let left : o.chunk_info.total_size - 0 ≡ o.chunk_info.total_size = omega arith in
      let received : Receives layout [] o = record {
        open_for = v.open_for;
        received = v.received;
        within = omega arith;
        room = r.room;
        storage = v.storage;
        holds = refl;
        clear = ap₂ (λ i n. erased (slice o.bootloader.flash 0 i n)) begin left ∙ r.clear;
      } in
      let (o1, o2, sent, done, state, restart) =
        install layout now first more o small received cs whole c in
      installed o1 o2 r sent done state restart
  receive_all-Ends now first more o small word v (inr behind) cs whole c =
      let len : length (joined (first ∷ more)) ≡ length first + length (joined more) =
        length-append first (joined more) in
      let info = opened-chunk_info o in
      let at : add32 layout.slot_b (opened o).chunk_info.received_bytes ≡ layout.slot_b =
        ap (λ (i : ChunkInfo). add32 layout.slot_b i.received_bytes) info
        ∙ omega (arith, v, word) in
      let answer =
        receive_chunk-opened now first o v cs.0.some_bytes cs.0.short (omega (arith, len, whole))
        ∙ store_chunk-behind now first (opened o) cs.0.some_bytes (omega (arith, at, behind)) in
      refused (update_state error flash_error (opened o)) behind answer (error-IsStuck o)
        (rw (receive_all, answer, ◌>>=◌) refl)

-- ===== src/Ota/Manager/Update.antt =====
-- The chunks of an update, put together in the second slot.
use embed_rtos.Base.{
  ℕ, suc, ◌+◌, ◌-◌, ◌*◌, ◌<◌, ◌≤◌, ◌≡◌, refl, sym, ap, ap₂, ◌∙◌, inl, inr, Bool, true, false,
  Bool-cases, not, ◌&&◌, ◌||◌, Option, none, some, List, [], ◌∷◌, ◌++◌, append_assoc, append-nil,
  subst, arith, ◌>>=◌, if◌then◌else◌, ltb-false, ◌==◌, ==_iff, length, length-append, slice, splice,
  slice-add, slice-all, slice-splice_apart, slice-splice_self, length-splice, add32,
  read_bytes-in_range,
}
use embed_rtos.Ota.Flash.{Layout, erased}
use embed_rtos.Ota.Flash.Chunks.{AllBytes, erased-append, write_words-erased}
use embed_rtos.Ota.Manager.{
  Manager, ChunkInfo, receiving_data, no_error, is_waiting, is_receiving, update_state,
  update_progress, with_flash, count_chunk, store_chunk, receive_chunk,
}

pub neither : (a b : Bool) → (a || b) ≡ true → (not a && not b) ≡ false
neither true b h = refl
neither false true h = refl
neither false false h = sym h

-- The manager takes chunks; the bytes so far, `image`, stand in the second slot, and the rest of it
-- is erased.
pub record Receives (layout : Layout) (image : List ℕ) (o : Manager) : Type 0 where
  pub open_for : (is_waiting o.state || is_receiving o.state) ≡ true
  pub received : o.chunk_info.received_bytes ≡ length image
  pub within : length image ≤ o.chunk_info.total_size
  pub room : layout.slot_b + o.chunk_info.total_size ≤ layout.total_size
  pub storage : length o.bootloader.flash ≡ layout.total_size
  pub holds : slice o.bootloader.flash 0 layout.slot_b (length image) ≡ image
  pub clear :
      erased (
        slice o.bootloader.flash 0
          (layout.slot_b + length image)
          (o.chunk_info.total_size - length image))
      ≡ true

-- The chunk fits in what is left of the update, and is of whole words.
pub record IsNext (image bytes : List ℕ) (o : Manager) : Type 0 where
  pub words : ℕ
  pub whole : length bytes ≡ 4 * words
  pub some_bytes : 0 < length bytes
  pub are_bytes : AllBytes bytes
  pub short : length bytes ≤ o.chunk_info.chunk_size
  pub fits : length image + length bytes ≤ o.chunk_info.total_size

-- The bytes of the chunks.
abbrev pub joined : List (List ℕ) → List ℕ
joined [] = []
joined (bytes ∷ chunks) = bytes ++ joined chunks

-- Chunks of whole words, none empty or above `size` bytes.
pub record IsChunk (size : ℕ) (bytes : List ℕ) : Type 0 where
  pub words : ℕ
  pub whole : length bytes ≡ 4 * words
  pub some_bytes : 0 < length bytes
  pub are_bytes : AllBytes bytes
  pub short : length bytes ≤ size

abbrev pub AreChunks : ℕ → List (List ℕ) → Type 0
AreChunks size [] = Unit
AreChunks size (bytes ∷ chunks) = IsChunk size bytes × AreChunks size chunks

-- The state in which the first write of a chunk begins.
abbrev pub opened : Manager → Manager
opened o = if is_waiting o.state then update_state receiving_data no_error o else o

pub opened-chunk_info : (o : Manager) → (opened o).chunk_info ≡ o.chunk_info
unfolding update_state
opened-chunk_info o = elim (Bool-cases (is_waiting o.state)) [
  | inl e ↦ rw e refl
  | inr e ↦ rw e refl
]

module _ (layout : Layout) where
  -- Chunks sent one after another, from number `number` on; `none` once one is refused.
  unfoldable pub receive_all : ℕ → ℕ → List (List ℕ) → Manager → Option Manager
  receive_all now number [] o = some o
  receive_all now number (bytes ∷ chunks) o =
      receive_chunk layout now number (some bytes) (length bytes) o >>= λ r. elim r.0 [
        | no_error ↦ receive_all now (add32 number 1) chunks r.1
        | refusal ↦ none
      ]

module _ (layout : Layout) (small : layout.total_size < 4294967296) where
  -- The state after a chunk.
  abbrev chunk_stored : ℕ → List ℕ → List ℕ → Manager → Manager
  chunk_stored now image bytes o =
      count_chunk layout now (length bytes)
        (with_flash (splice o.bootloader.flash (layout.slot_b + length image) bytes) o)

  clear_parts :
      (image bytes : List ℕ) (o : Manager)
      → Receives layout image o
      → IsNext image bytes o
      → (erased (slice o.bootloader.flash 0 (layout.slot_b + length image) (length bytes)) ≡ true)
        × (erased (
              slice o.bootloader.flash 0
                (layout.slot_b + length image + length bytes)
                (o.chunk_info.total_size - length image - length bytes))
            ≡ true)
  clear_parts image bytes o v c =
      let left : ℕ = o.chunk_info.total_size - length image in
      let at : ℕ = layout.slot_b + length image in
      let count : left ≡ length bytes + (left - length bytes) = omega (arith, c) in
      erased-append (slice o.bootloader.flash 0 at (length bytes))
        (slice o.bootloader.flash 0 (at + length bytes) (left - length bytes))
        (sym (
            ap erased (
              ap (slice o.bootloader.flash 0 at) count
              ∙ slice-add o.bootloader.flash 0 at (length bytes) (left - length bytes)))
          ∙ v.clear)

  store_chunk-erased :
      (now : ℕ) (image bytes : List ℕ) (o : Manager)
      → Receives layout image o
      → IsNext image bytes o
      → store_chunk layout now bytes o ≡ some (no_error, chunk_stored now image bytes o)
  unfolding store_chunk
  store_chunk-erased now image bytes o v c =
      let at : add32 layout.slot_b o.chunk_info.received_bytes ≡ layout.slot_b + length image =
        omega (arith, v) in
      let parts = clear_parts image bytes o v c in
      let written =
        write_words-erased layout small c.words (suc (length bytes)) (layout.slot_b + length image)
          bytes o.bootloader.flash c.are_bytes c.whole (omega (arith, c)) v.storage
          (omega (arith, v, c))
          (ap (λ k. erased (slice o.bootloader.flash 0 (layout.slot_b + length image) k))
              (sym c.whole)
            ∙ parts.0) in
      rw (at, written) refl

  chunk_stored-Receives :
      (now : ℕ) (image bytes : List ℕ) (o : Manager)
      → Receives layout image o
      → IsNext image bytes o
      → Receives layout (image ++ bytes) (chunk_stored now image bytes o)
  unfolding count_chunk update_progress
  chunk_stored-Receives now image bytes o v c =
      let k : ℕ = length image in
      let at : ℕ = layout.slot_b + k in
      let flash : List ℕ = o.bootloader.flash in
      let flash' : List ℕ = splice flash at bytes in
      let left : ℕ = o.chunk_info.total_size - k in
      let len : length (image ++ bytes) ≡ k + length bytes = length-append image bytes in
      record {
        open_for = v.open_for;
        received = omega (arith, v, c, len);
        within = omega (arith, v, c, len);
        room = v.room;
        storage = length-splice flash at bytes ∙ v.storage;
        holds =
            ap (slice flash' 0 layout.slot_b) len
            ∙ slice-add flash' 0 layout.slot_b k (length bytes)
            ∙ ap₂ ◌++◌
                (slice-splice_apart flash 0 at bytes layout.slot_b k (inl (omega arith)) ∙ v.holds)
                (slice-splice_self flash 0 at bytes (omega (arith, v, c)));
        clear =
            ap₂ (λ i n. erased (slice flash' 0 i n)) (omega (arith, len)) (omega (arith, len))
            ∙ ap erased (
                slice-splice_apart flash 0 at bytes (at + length bytes) (left - length bytes)
                  (inr (omega arith)))
            ∙ (clear_parts image bytes o v c).1;
      }

  opened-Receives :
      (image : List ℕ) (o : Manager) → Receives layout image o → Receives layout image (opened o)
  unfolding update_state
  opened-Receives image o v = elim (Bool-cases (is_waiting o.state)) [
    | inl e ↦ rw e (record {
      open_for = refl;
      received = v.received;
      within = v.within;
      room = v.room;
      storage = v.storage;
      holds = v.holds;
      clear = v.clear;
    })
    | inr e ↦ rw e v
  ]

  receive_chunk-store :
      (now number : ℕ) (image bytes : List ℕ) (o : Manager)
      → Receives layout image o
      → IsNext image bytes o
      → number ≡ o.chunk_info.next_expected_chunk
      → receive_chunk layout now number (some bytes) (length bytes) o
        ≡ store_chunk layout now bytes (opened o)
  unfolding receive_chunk
  receive_chunk-store now number image bytes o v c e =
      let info : ChunkInfo = o.chunk_info in
      let nonempty : (length bytes == 0) ≡ false = ground (arith, c) in
      rw
        (
          neither (is_waiting o.state) (is_receiving o.state) v.open_for,
          (==_iff number info.next_expected_chunk).1 e,
          nonempty,
          ltb-false info.chunk_size (length bytes) c.short,
          ltb-false info.total_size (add32 info.received_bytes (length bytes))
              (omega (arith, v, c)),
          read_bytes-in_range bytes 0 (length bytes) (omega arith),
        )
        (ap (λ taken. store_chunk layout now taken (opened o)) (slice-all bytes 0))

  opened-IsNext :
      (image bytes : List ℕ) (o : Manager) → IsNext image bytes o → IsNext image bytes (opened o)
  opened-IsNext image bytes o c =
      let same = opened-chunk_info o in
      record {
        words = c.words;
        whole = c.whole;
        some_bytes = c.some_bytes;
        are_bytes = c.are_bytes;
        short = rw same c.short;
        fits = rw same c.fits;
      }

  -- The next chunk of an update, of whole words and within the update's size, put into an erased
  -- slot: `ota_manager_receive_chunk` accepts it and makes no access out of bounds, the second slot
  -- then holds the bytes so far followed by the chunk, and the next chunk is expected.
  pub receive_chunk-appends :
      (now number : ℕ) (image bytes : List ℕ) (o : Manager)
      → Receives layout image o
      → IsNext image bytes o
      → number ≡ o.chunk_info.next_expected_chunk
      → (o' : Manager) × (receive_chunk layout now number (some bytes) (length bytes) o
          ≡ some (no_error, o'))
        × Receives layout (image ++ bytes) o'
        × (o'.chunk_info.next_expected_chunk ≡ add32 number 1)
        × (o'.chunk_info.total_size ≡ o.chunk_info.total_size)
        × (o'.chunk_info.chunk_size ≡ o.chunk_info.chunk_size)
  unfolding count_chunk update_progress
  receive_chunk-appends now number image bytes o v c e =
      let v' = opened-Receives image o v in
      let c' = opened-IsNext image bytes o c in
      let same = opened-chunk_info o in
      (
        chunk_stored now image bytes (opened o),
        receive_chunk-store now number image bytes o v c e
            ∙ store_chunk-erased now image bytes (opened o) v' c',
        chunk_stored-Receives now image bytes (opened o) v' c',
        ap (λ (info : ChunkInfo). add32 info.next_expected_chunk 1) same
            ∙ ap (λ k. add32 k 1) (sym e),
        ap (λ (info : ChunkInfo). info.total_size) same,
        ap (λ (info : ChunkInfo). info.chunk_size) same,
      )

  -- Chunks of whole words, sent in order to a manager that takes chunks and together within the
  -- update's size, are all accepted, and the second slot then holds the bytes so far followed by
  -- those of the chunks in order.
  pub receive_all-assembles :
      (now : ℕ) (image : List ℕ) (chunks : List (List ℕ)) (o : Manager)
      → Receives layout image o
      → AreChunks o.chunk_info.chunk_size chunks
      → length image + length (joined chunks) ≤ o.chunk_info.total_size
      → (o' : Manager) × (receive_all layout now o.chunk_info.next_expected_chunk chunks o
          ≡ some o')
        × Receives layout (image ++ joined chunks) o'
  unfolding receive_all
  receive_all-assembles now image [] o v cs fits =
      (o, refl, subst (λ (xs : List ℕ). Receives layout xs o) (sym (append-nil image)) v)
  receive_all-assembles now image (bytes ∷ chunks) o v cs fits =
      let len : length (bytes ++ joined chunks) ≡ length bytes + length (joined chunks) =
        length-append bytes (joined chunks) in
      let next : IsNext image bytes o = record {
        words = cs.0.words;
        whole = cs.0.whole;
        some_bytes = cs.0.some_bytes;
        are_bytes = cs.0.are_bytes;
        short = cs.0.short;
        fits = omega arith;
      } in
      let (o1, eq, v1, number, total, size) =
        receive_chunk-appends now o.chunk_info.next_expected_chunk image bytes o v next refl in
      let (o2, eq2, v2) =
        receive_all-assembles now (image ++ bytes) chunks o1 v1 (rw size cs.1)
          (omega (arith, length-append image bytes)) in
      (
        o2,
        rw eq (ap (λ k. receive_all layout now k chunks o1) (sym number) ∙ eq2),
        subst (λ (xs : List ℕ). Receives layout xs o2) (append_assoc image bytes (joined chunks))
            v2,
      )

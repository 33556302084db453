-- ===== src/Ota/Manager/Install.antt =====
-- An update from its chunks to its validation.

use embed_rtos.Base.{
  ℕ, zero, suc, ◌+◌, ◌≤◌, ◌<◌, ◌≡◌, ◌⊎◌, inl, inr, refl, sym, ap, ap₂, ◌∙◌, true, Option, none,
  some, List, [], ◌∷◌, arith, ◌>>=◌, bind-some, ==_iff, length, get_or, slice, slice-shift, add32,
  sub32, read_bytes, read_bytes-in_range,
}
use embed_rtos.Ota.Flash.{Layout}
use embed_rtos.Ota.Firmware.{Header, read_header, image_checksum, validate_firmware_header}
use embed_rtos.Ota.Manager.{
  Manager, OtaError, no_error, complete, validating, is_receiving, receive_chunk, store_chunk,
  count_chunk, update_state, update_progress, finalize_update, validate_update, accepts,
}
use embed_rtos.Ota.Manager.Limits.{IsChecked}
use embed_rtos.Ota.Manager.Update.{Receives, AreChunks, joined, receive_all, receive_all-assembles}

-- A part of a part.
slice-slice :
    (xs : List ℕ) (a i n l : ℕ) → i + n ≤ l → slice (slice xs 0 a l) 0 i n ≡ slice xs 0 (a + i) n
slice-slice xs a i zero l h = refl
slice-slice xs a i (suc n) zero h = absurd (omega arith)
slice-slice xs a zero (suc n) (suc l) h = ap₂ ◌∷◌ (ap (λ k. get_or xs k 0) (omega arith)) (
    slice-shift (get_or xs a 0) (slice xs 0 (suc a) l) 0 0 n
    ∙ slice-slice xs (suc a) 0 n l (omega arith)
    ∙ ap (λ k. slice xs 0 k n) (omega arith))
slice-slice xs a (suc i) (suc n) (suc l) h =
    slice-shift (get_or xs a 0) (slice xs 0 (suc a) l) 0 i (suc n)
    ∙ slice-slice xs (suc a) i (suc n) l (omega arith)
    ∙ ap (λ k. slice xs 0 k (suc n)) (omega arith)

read_bytes-fits :
    (buffer : List ℕ) (i n : ℕ) {bytes : List ℕ}
    → read_bytes buffer i n ≡ some bytes
    → i + n ≤ length buffer
unfolding read_bytes
read_bytes-fits buffer i n h = ground arith

module _ (layout : Layout) where
  pub receive_chunk-keeps :
      (now number size : ℕ) (chunk : Option (List ℕ)) (o o' : Manager)
      → receive_chunk layout now number chunk size o ≡ some (no_error, o')
      → (is_receiving o'.state ≡ true)
        × (o'.chunk_info.total_size ≡ o.chunk_info.total_size)
        × (o'.validate_callback ≡ o.validate_callback)
  unfolding receive_chunk store_chunk count_chunk update_progress update_state
  receive_chunk-keeps now number size chunk o o' h = grind arith

  -- A run goes on after a chunk only if it was accepted.
  accepted_step :
      (now number : ℕ) (chunks : List (List ℕ)) (e : OtaError) (o1 o' : Manager)
      → (elim e as (λ _. Option Manager) [
        | no_error ↦ receive_all layout now (add32 number 1) chunks o1
        | refusal ↦ none
      ])
        ≡ some o'
      → (e ≡ no_error) × (receive_all layout now (add32 number 1) chunks o1 ≡ some o')
  accepted_step now number chunks e o1 o' h = grind arith

  receive_all-keeps :
      (now number : ℕ) (chunks : List (List ℕ)) (o o' : Manager)
      → (is_receiving o.state ≡ true) ⊎ (0 < length chunks)
      → receive_all layout now number chunks o ≡ some o'
      → (is_receiving o'.state ≡ true)
        × (o'.chunk_info.total_size ≡ o.chunk_info.total_size)
        × (o'.validate_callback ≡ o.validate_callback)
  unfolding receive_all
  receive_all-keeps now number [] o o' (inl r) h = grind arith
  receive_all-keeps now number [] o o' (inr r) h = absurd (omega arith)
  receive_all-keeps now number (bytes ∷ chunks) o o' r h =
      let (x, taken, rest) =
        bind-some (receive_chunk layout now number (some bytes) (length bytes) o) h in
      let (ok, later) = accepted_step now number chunks x.0 x.1 o' rest in
      let taken' : receive_chunk layout now number (some bytes) (length bytes) o
          ≡ some (no_error, x.1) =
        taken ∙ ap (λ e. some (e, x.1)) ok in
      let (r1, total1, callback1) =
        receive_chunk-keeps now number (length bytes) (some bytes) o x.1 taken' in
      let (r2, total2, callback2) =
        receive_all-keeps now (add32 number 1) chunks x.1 o' (inl r1) later in
      (r2, total2 ∙ total1, callback2 ∙ callback1)

  finalize_update-accepts :
      (o : Manager)
      → is_receiving o.state ≡ true
      → o.chunk_info.received_bytes ≡ o.chunk_info.total_size
      → IsChecked layout o
      → (o' : Manager) × (finalize_update layout o ≡ some (no_error, o'))
        × (o'.state ≡ complete)
        × (o'.restart_required ≡ true)
  unfolding finalize_update validate_update update_state update_progress
  finalize_update-accepts o r all c =
      let total = (==_iff o.chunk_info.received_bytes o.chunk_info.total_size).1 all in
      let size = (==_iff c.header.size o.chunk_info.total_size).1 c.same_size in
      let crc = (==_iff c.header.crc32 c.header.crc32).1 refl in
      let checked : Manager = record (update_progress 95 (update_state validating no_error o)) {
        firmware_header = c.header;
      } in
      (
        record (update_progress 100 (update_state complete no_error checked)) {
          successful_updates = add32 o.successful_updates 1;
          restart_required = true;
        },
        rw
            (
              r, total, c.is_read, ◌>>=◌, c.is_firmware, size, c.same_checksum, ◌>>=◌, crc,
              c.accepted,
            )
            refl,
        refl,
        refl,
      )

  -- The bytes of an update are an image that the manager accepts.
  pub record IsImage (image : List ℕ) (o : Manager) : Type 0 where
    pub header : Header
    pub is_read : read_header image 0 ≡ some header
    pub is_firmware : validate_firmware_header header ≡ true
    pub same_size : header.size ≡ length image
    pub same_checksum : image_checksum image 0 header ≡ some header.crc32
    pub accepted : accepts layout o.validate_callback header ≡ true

  -- A read of the slot is a read of the image that it holds.
  slot-read :
      (image : List ℕ) (o : Manager) (i n : ℕ)
      → Receives layout image o
      → i + n ≤ length image
      → read_bytes o.bootloader.flash (layout.slot_b + i) n ≡ read_bytes image i n
  slot-read image o i n v h =
      read_bytes-in_range o.bootloader.flash (layout.slot_b + i) n (omega (arith, v))
      ∙ ap some (
          sym (slice-slice o.bootloader.flash layout.slot_b i n (length image) h)
          ∙ ap (λ xs. slice xs 0 i n) v.holds)
      ∙ sym (read_bytes-in_range image i n h)

  image-IsChecked :
      (image : List ℕ) (o o1 : Manager)
      → layout.total_size < 4294967296
      → Receives layout image o1
      → IsImage image o
      → o1.chunk_info.total_size ≡ length image
      → o1.validate_callback ≡ o.validate_callback
      → IsChecked layout o1
  unfolding read_header image_checksum
  image-IsChecked image o o1 small v c total callback =
      let header : Header = c.header in
      let n : ℕ = sub32 header.size 80 in
      let top = bind-some (read_bytes image 0 80) c.is_read in
      let body = bind-some (read_bytes image 80 n) c.same_checksum in
      let top_fits : 0 + 80 ≤ length image = read_bytes-fits image 0 80 top.1 in
      let body_fits : 80 + n ≤ length image = read_bytes-fits image 80 n body.1 in
      let same_top : read_bytes o1.bootloader.flash layout.slot_b 80 ≡ read_bytes image 0 80 =
        ap (λ k. read_bytes o1.bootloader.flash k 80) (omega arith)
        ∙ slot-read image o1 0 80 v top_fits in
      let same_body : read_bytes o1.bootloader.flash (layout.slot_b + 80) n
          ≡ read_bytes image 80 n =
        slot-read image o1 80 n v body_fits in
      record {
        header = header;
        is_read = rw same_top c.is_read;
        is_firmware = c.is_firmware;
        same_size = c.same_size ∙ sym total;
        same_checksum = rw same_body c.same_checksum;
        accepted = ap (λ k. accepts layout k header) callback ∙ c.accepted;
      }

  -- Firmware that is sent whole, in chunks of whole words and in order, to a manager that waits for
  -- its first chunk and whose slot is erased, is accepted: if its header, its size, its checksum and
  -- the check of the application are right, every chunk is taken, and `ota_manager_finalize_update`
  -- then ends the update as complete, with a restart required. No access is out of bounds.
  pub install :
      (now : ℕ) (first : List ℕ) (more : List (List ℕ)) (o : Manager)
      → layout.total_size < 4294967296
      → Receives layout [] o
      → AreChunks o.chunk_info.chunk_size (first ∷ more)
      → length (joined (first ∷ more)) ≡ o.chunk_info.total_size
      → IsImage (joined (first ∷ more)) o
      → (o1 : Manager) × (o2 : Manager) × (receive_all layout now o.chunk_info.next_expected_chunk
            (first ∷ more)
            o
          ≡ some o1)
        × (finalize_update layout o1 ≡ some (no_error, o2))
        × (o2.state ≡ complete)
        × (o2.restart_required ≡ true)
  install now first more o small v cs whole c =
      let image : List ℕ = joined (first ∷ more) in
      let (o1, sent, v1) =
        receive_all-assembles layout small now [] (first ∷ more) o v cs (omega arith) in
      let (receiving, total, callback) =
        receive_all-keeps now o.chunk_info.next_expected_chunk (first ∷ more) o o1
          (inr (omega arith)) sent in
      let same : o1.chunk_info.total_size ≡ length image = total ∙ sym whole in
      let checked : IsChecked layout o1 = image-IsChecked image o o1 small v1 c same callback in
      let (o2, done, state, restart) =
        finalize_update-accepts o1 receiving (v1.received ∙ sym same) checked in
      (o1, o2, sent, done, state, restart)

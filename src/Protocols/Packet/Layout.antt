-- ===== src/Protocols/Packet/Layout.antt =====
-- Where the fields of a packet lie in its bytes.
use embed_rtos.Base.{
  ℕ, ◌+◌, ◌-◌, ◌%◌, ◌≤◌, ◌<◌, ◌≡◌, refl, ap, ◌∙◌, some, List, [], ◌∷◌, ◌++◌, arith, length,
  get_elem?, u8, u16, ◌>>>◌, bit_and, read_bytes, append_assoc, length-append, slice-middle,
  get_elem?-append_right, read_bytes-in_range,
}
use embed_rtos.Base.Bits.{bit_or-field, bit_and-mask}
use embed_rtos.Protocols.Crc.{calculate_crc}
use embed_rtos.Protocols.Packet.{body, packet_bytes, big_endian, start_byte, end_byte}

-- A number of two bytes comes back from its high and low byte.
pub big_endian-split : (n : ℕ) → n < 65536 → big_endian (u8 (n >>> 8)) (bit_and n 0xff) ≡ n
big_endian-split n h =
    rw (bit_and-mask 8 n, bit_or-field 8 (u8 (n >>> 8)) (n % 256) (omega arith)) (omega arith)

-- The bytes of a packet, with what follows it in its array.
module _ (command sequence : ℕ) (payload rest : List ℕ) where
  abbrev pub checksum : ℕ
  checksum = calculate_crc (body command sequence (length payload) payload)

  abbrev pub trailer : List ℕ
  trailer = u8 (checksum >>> 8) ∷ bit_and checksum 0xff ∷ end_byte ∷ rest

  abbrev pub header : List ℕ
  header =
      start_byte
      ∷ command
      ∷ u8 (sequence >>> 8)
      ∷ bit_and sequence 0xff
      ∷ u8 (length payload >>> 8)
      ∷ bit_and (length payload) 0xff
      ∷ []

  abbrev pub image : List ℕ
  image = header ++ (payload ++ trailer)

  pub packet_bytes-image : packet_bytes command sequence (length payload) payload ++ rest ≡ image
  unfolding packet_bytes body
  packet_bytes-image =
      ap (λ xs. header ++ xs)
        (append_assoc payload (u8 (checksum >>> 8) ∷ bit_and checksum 0xff ∷ end_byte ∷ []) rest)

  pub length-packet_bytes :
      length (packet_bytes command sequence (length payload) payload) ≡ length payload + 9
  unfolding packet_bytes body
  length-packet_bytes =
      omega
        (arith, length-append payload (u8 (checksum >>> 8) ∷ bit_and checksum 0xff ∷ end_byte ∷ []))

  image-at : (i k : ℕ) → i ≡ 6 + length payload + k → get_elem? image i ≡ get_elem? trailer k
  image-at i k e = get_elem?-append_right (header ++ payload) trailer i k (omega arith)

  pub image_crc :
      (get_elem? image (6 + length payload) ≡ some (u8 (checksum >>> 8)))
      × (get_elem? image (7 + length payload) ≡ some (bit_and checksum 0xff))
      × (get_elem? image (length payload + 9 - 1) ≡ some end_byte)
  image_crc = (
    image-at (6 + length payload) 0 (omega arith),
    image-at (7 + length payload) 1 (omega arith),
    image-at (length payload + 9 - 1) 2 (omega arith),
  )

  pub length-image : length image ≡ length payload + 9 + length rest
  length-image = omega (arith, length-append payload trailer)

  pub image_payload : read_bytes image 6 (length payload) ≡ some payload
  image_payload =
      read_bytes-in_range image 6 (length payload) (omega (arith, length-image))
      ∙ ap some (slice-middle header payload trailer 0 6 (length payload) refl refl)

  pub image_checked :
      length payload ≤ 256
      → read_bytes image 1 (u16 (5 + length payload))
        ≡ some (body command sequence (length payload) payload)
  unfolding body
  image_checked h =
      ap (read_bytes image 1) {y = 5 + length payload} (omega arith)
      ∙ read_bytes-in_range image 1 (5 + length payload) (omega (arith, length-image))
      ∙ ap some (
          slice-middle (start_byte ∷ []) (body command sequence (length payload) payload) trailer 0
            1 (5 + length payload) refl (omega arith))

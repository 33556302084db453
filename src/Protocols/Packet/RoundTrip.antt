-- ===== src/Protocols/Packet/RoundTrip.antt =====
-- `protocol_parse_packet` of what `protocol_create_packet` makes.
use embed_rtos.Base.{
  ℕ, suc, ◌+◌, ◌≤◌, ◌<◌, ◌≡◌, refl, ap, ◌∙◌, true, false, Option, none, some, List, [], ◌∷◌, ◌++◌,
  arith, length, drop, splice, slice, u16, ltb-false, lt→ltb, le→leb, ==_iff, splice-start,
  slice-all, read_bytes-in_range, write_bytes-in_range, slice-splice_self,
}
use embed_rtos.Protocols.Crc.Range.{calculate_crc-lt}
use embed_rtos.Protocols.Packet.{
  Packet, Handler, next_sequence, count_sent, count_received, packet_bytes, create_packet,
  payload_of, copy_payload, parse_rest, parse_packet,
}
use embed_rtos.Protocols.Packet.Layout.{
  big_endian-split, checksum, image, packet_bytes-image, length-packet_bytes, image_crc,
  image_payload, image_checked,
}

payload_of-some : (bytes : List ℕ) → payload_of (some bytes) (length bytes) ≡ some bytes
unfolding payload_of
payload_of-some [] = refl
payload_of-some (b ∷ bytes) = rw (lt→ltb 0 (suc (length bytes)) (omega arith)) (
    read_bytes-in_range (b ∷ bytes) 0 (suc (length bytes)) (omega arith)
    ∙ ap some (slice-all (b ∷ bytes) 0))

-- The packet over the start of an array.
placed :
    (command sequence : ℕ) (bytes buffer : List ℕ)
    → length bytes + 9 ≤ length buffer
    → splice buffer 0 (packet_bytes command sequence (length bytes) bytes)
      ≡ image command sequence bytes (drop (length bytes + 9) buffer)
placed command sequence bytes buffer h =
    let packet : List ℕ = packet_bytes command sequence (length bytes) bytes in
    let len : length packet ≡ length bytes + 9 = length-packet_bytes command sequence bytes [] in
    splice-start buffer packet (rw len h)
    ∙ ap (λ k. packet ++ drop k buffer) len
    ∙ packet_bytes-image command sequence bytes (drop (length bytes + 9) buffer)

pub create_packet-image :
    (command : ℕ) (bytes buffer : List ℕ) (buffer_size : ℕ) (h : Option Handler)
    → length bytes ≤ 256
    → length bytes + 10 ≤ buffer_size
    → buffer_size ≤ length buffer
    → create_packet command (some bytes) (length bytes) (some buffer) buffer_size h
      ≡ some (
        length bytes + 9,
        some (image command (next_sequence h) bytes (drop (length bytes + 9) buffer)),
        count_sent (length bytes) h,
      )
unfolding create_packet
create_packet-image command bytes buffer buffer_size h small room fits =
    let packet : List ℕ = packet_bytes command (next_sequence h) (length bytes) bytes in
    let len : length packet ≡ length bytes + 9 =
      length-packet_bytes command (next_sequence h) bytes [] in
    rw
      (
        ltb-false buffer_size (6 + length bytes + 2 + 2) (omega arith),
        ltb-false 256 (length bytes) small,
        payload_of-some bytes,
        write_bytes-in_range buffer 0 packet (rw len (omega arith)),
        len,
        placed command (next_sequence h) bytes buffer (omega arith),
      )
      (ap
        (λ k. some (
          k,
          some (image command (next_sequence h) bytes (drop (length bytes + 9) buffer)),
          count_sent (length bytes) h,
        ))
        (omega arith))

module _ (command sequence : ℕ) (bytes rest : List ℕ) (p : Packet) (g : Option Handler) where
  abbrev pub header_read : Packet
  header_read = record p {
    start = 0xaa;
    command = command;
    sequence = sequence;
    len = length bytes;
  }

  abbrev pub packet_read : Packet
  packet_read = record header_read {
    payload = splice p.payload 0 bytes;
    crc = checksum command sequence bytes rest;
    end_mark = 0x55;
  }

  pub parse_header :
      sequence < 65536
      → 0 < length bytes
      → length bytes ≤ 256
      → parse_packet (some (image command sequence bytes rest)) (length bytes + 9) (some p) g
        ≡ parse_rest (image command sequence bytes rest) (length bytes + 9) header_read g
  unfolding parse_packet
  parse_header hs pos small = rw (
    ltb-false (length bytes + 9) 10 (omega arith),
    (image_crc command sequence bytes rest).2,
    big_endian-split sequence hs,
    big_endian-split (length bytes) (omega arith),
  )

  copy_payload-image :
      0 < length bytes
      → length bytes ≤ 256
      → length p.payload ≡ 256
      → copy_payload (image command sequence bytes rest) header_read
        ≡ some (record header_read { payload = splice p.payload 0 bytes })
  unfolding copy_payload
  copy_payload-image pos small array = rw (
    lt→ltb 0 (length bytes) pos,
    le→leb (length bytes) 256 small,
    image_payload command sequence bytes rest,
    write_bytes-in_range p.payload 0 bytes (omega arith),
  )

  pub parse_body :
      0 < length bytes
      → length bytes ≤ 256
      → length p.payload ≡ 256
      → parse_rest (image command sequence bytes rest) (length bytes + 9) header_read g
        ≡ some (true, some packet_read, count_received (length bytes + 9) g)
  unfolding parse_rest
  parse_body pos small array =
      let at = image_crc command sequence bytes rest in
      rw (
        (==_iff (length bytes + 9) (u16 (6 + length bytes + 2 + 1))).1 (omega arith),
        copy_payload-image pos small array,
        at.0,
        at.1,
        image_checked command sequence bytes rest small,
        at.2,
        big_endian-split (checksum command sequence bytes rest) (calculate_crc-lt _),
        (==_iff (checksum command sequence bytes rest) (checksum command sequence bytes rest)).1
            refl,
      )

-- A payload of 1 to 256 bytes, put into a packet by `protocol_create_packet` with a buffer of at
-- least ten bytes more, is read back by `protocol_parse_packet` from the buffer and the returned
-- length: the packet is accepted, with the same command, sequence number, length and payload, and
-- both handlers count it. No access is out of bounds.
pub parse-create :
    (command : ℕ) (bytes buffer : List ℕ) (buffer_size : ℕ) (p : Packet) (h g : Option Handler)
    → 0 < length bytes
    → length bytes ≤ 256
    → length bytes + 10 ≤ buffer_size
    → buffer_size ≤ length buffer
    → next_sequence h < 65536
    → length p.payload ≡ 256
    → (n : ℕ) × (buffer' : List ℕ) × (p' : Packet) × (create_packet command
          (some bytes)
          (length bytes)
          (some buffer)
          buffer_size
          h
        ≡ some (n, some buffer', count_sent (length bytes) h))
      × (n ≡ length bytes + 9)
      × (parse_packet (some buffer') n (some p) g ≡ some (true, some p', count_received n g))
      × (p'.command ≡ command)
      × (p'.sequence ≡ next_sequence h)
      × (p'.len ≡ length bytes)
      × (slice p'.payload 0 0 (length bytes) ≡ bytes)
parse-create command bytes buffer buffer_size p h g pos small room fits seq array =
    let rest : List ℕ = drop (length bytes + 9) buffer in
    (
      length bytes + 9,
      image command (next_sequence h) bytes rest,
      packet_read command (next_sequence h) bytes rest p g,
      create_packet-image command bytes buffer buffer_size h small room fits,
      refl,
      parse_header command (next_sequence h) bytes rest p g seq pos small
          ∙ parse_body command (next_sequence h) bytes rest p g pos small array,
      refl,
      refl,
      refl,
      slice-splice_self p.payload 0 0 bytes (omega arith),
    )

-- No payload and an empty payload make the same packet.
pub create_packet-none :
    (command : ℕ) (buffer : Option (List ℕ)) (buffer_size : ℕ) (h : Option Handler)
    → create_packet command none 0 buffer buffer_size h
      ≡ create_packet command (some []) 0 buffer buffer_size h
unfolding create_packet payload_of
create_packet-none command none buffer_size h = refl
create_packet-none command (some buffer) buffer_size h = refl

-- A packet with an empty payload is made, nine bytes long, and then refused by
-- `protocol_parse_packet`, which asks for ten bytes at least.
pub empty_refused :
    (command : ℕ) (buffer : List ℕ) (buffer_size : ℕ) (p : Packet) (h g : Option Handler)
    → 10 ≤ buffer_size
    → buffer_size ≤ length buffer
    → (buffer' : List ℕ) × (create_packet command (some []) 0 (some buffer) buffer_size h
        ≡ some (9, some buffer', count_sent 0 h))
      × (parse_packet (some buffer') 9 (some p) g ≡ some (false, some p, g))
unfolding parse_packet
empty_refused command buffer buffer_size p h g room fits = (
  image command (next_sequence h) [] (drop 9 buffer),
  create_packet-image command [] buffer buffer_size h (omega arith) (omega arith) fits,
  refl,
)

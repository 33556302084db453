-- ===== src/Protocols/Packet/Examples.antt =====
-- A packet of three bytes, in a buffer of twenty.
use embed_rtos.Base.{
  ℕ, ◌≡◌, ◌+◌, ◌⊎◌, refl, Bool, true, false, Option, none, some, List, [], ◌∷◌, arith, replicate,
  get_or, slice, set,
}
use embed_rtos.Protocols.Crc.{crc_table, calculate_crc}
use embed_rtos.Protocols.Crc.Polynomial.{shift_bits, crc_table-eq-shift_bits}
use embed_rtos.Protocols.Packet.{
  Packet, Handler, count_sent, next_sequence, count_received, create_packet, parse_packet,
  start_byte, end_byte,
}
use embed_rtos.Protocols.Packet.Corruption.{changed-refused}
use embed_rtos.Protocols.Packet.RoundTrip.{parse-create}
use embed_rtos.Protocols.Packet.Parse.{parse_sound, length_field, checksum_field, checksum_of}

abbrev blank : Packet
blank = record {
  start = 0;
  command = 0;
  sequence = 0;
  len = 0;
  payload = replicate 256 0;
  crc = 0;
  end_mark = 0;
}

abbrev payload : List ℕ
payload = 1 ∷ 2 ∷ 3 ∷ []

abbrev buffer : List ℕ
buffer = replicate 20 0

parse-create_example :
    (n : ℕ) × (buffer' : List ℕ) × (p' : Packet) × (create_packet 2
        (some payload)
        3
        (some buffer)
        20
        none
      ≡ some (n, some buffer', none))
    × (n ≡ 12)
    × (parse_packet (some buffer') n (some blank) none ≡ some (true, some p', none))
    × (p'.command ≡ 2)
    × (p'.sequence ≡ 0)
    × (p'.len ≡ 3)
    × (slice p'.payload 0 0 3 ≡ payload)
unfolding next_sequence count_sent
parse-create_example =
    parse-create 2 payload buffer 20 blank none none (omega arith) (omega arith) (omega arith)
      (omega arith) (omega arith) refl

-- A buffer with both marks and a wrong checksum.
abbrev noise : List ℕ
noise = 0xaa ∷ 1 ∷ 0 ∷ 0 ∷ 0 ∷ 1 ∷ 9 ∷ 9 ∷ 9 ∷ 0x55 ∷ []

parse_sound_example :
    (ok : Bool) × (p' : Packet) × (g' : Option Handler) × (parse_packet
        (some noise)
        10
        (some blank)
        none
      ≡ some (ok, some p', g'))
    × ((ok ≡ false)
        ⊎ ((get_or noise 0 0 ≡ start_byte)
            × (get_or noise 9 0 ≡ end_byte)
            × (10 ≡ length_field noise + 9)
            × (checksum_field noise 10 ≡ checksum_of noise 10)
            × (g' ≡ count_received 10 none)))
parse_sound_example = parse_sound noise 10 blank none (omega arith) (omega arith) refl

crc_table-eq-shift_bits_example : get_or crc_table 0x80 0 ≡ shift_bits 8 0x8000
crc_table-eq-shift_bits_example = crc_table-eq-shift_bits 0x80 (omega arith)

-- A packet with one byte, and a right checksum.
abbrev packet : List ℕ
packet = 0xaa ∷ 1 ∷ 0 ∷ 0 ∷ 0 ∷ 1 ∷ 9 ∷ 0xe9 ∷ 0xa8 ∷ 0x55 ∷ []

packet_checksum : checksum_field packet 10 ≡ checksum_of packet 10
unfolding calculate_crc
packet_checksum = refl

changed-refused_example :
    (p' : Packet) × (g' : Option Handler) × (parse_packet
        (some (set packet 6 8))
        10
        (some blank)
        none
      ≡ some (false, some p', g'))
changed-refused_example =
    changed-refused packet 10 6 8 blank none (omega arith) (omega arith) refl packet_checksum
      (omega arith) (omega arith) (omega arith) (omega arith) (omega arith)

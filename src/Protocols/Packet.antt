-- ===== src/Protocols/Packet.antt =====
-- src/protocols/comm_protocol.c and comm_protocol.h. Pointers are `Option`s (`none` is NULL), and
-- the outer `Option` of a result is `none` for an access out of bounds. The caller's packet and
-- handler come back changed beside the result.
pub mod Messages
pub mod Layout
pub mod Parse
pub mod RoundTrip
pub mod Corruption
mod Examples
use embed_rtos.Base.{
  ℕ, ◌+◌, ◌-◌, ◌%◌, Bool, true, false, not, ◌&&◌, ◌||◌, Option, none, some, List, [], ◌∷◌, ◌++◌,
  ◌>>=◌, ◌==◌, ltb, leb, if◌then◌else◌, length, get_elem?, u8, u16, u32, add32, ◌<<<◌, ◌>>>◌,
  bit_or, bit_and, read_bytes, write_bytes,
}
use embed_rtos.Protocols.Crc.{calculate_crc}

abbrev pub start_byte : ℕ
start_byte = 0xaa

abbrev pub end_byte : ℕ
end_byte = 0x55

abbrev pub max_packet_size : ℕ
max_packet_size = 256

abbrev pub header_size : ℕ
header_size = 6

abbrev pub crc_size : ℕ
crc_size = 2

pub record Packet : Type 0 where
  pub start : ℕ
  pub command : ℕ
  pub sequence : ℕ
  pub len : ℕ
  pub payload : List ℕ
  pub crc : ℕ
  pub end_mark : ℕ

pub record Handler : Type 0 where
  pub sequence_counter : ℕ
  pub bytes_sent : ℕ
  pub bytes_received : ℕ
  pub packets_sent : ℕ
  pub packets_received : ℕ
  pub crc_errors : ℕ
  pub timeout_errors : ℕ
  pub initialized : Bool

unfoldable pub init : Option Handler → Option Handler
init none = none
init (some h) = some (record {
  sequence_counter = 1;
  bytes_sent = 0;
  bytes_received = 0;
  packets_sent = 0;
  packets_received = 0;
  crc_errors = 0;
  timeout_errors = 0;
  initialized = true;
})

pub deinit : Option Handler → Option Handler
deinit none = none
deinit (some h) = some (record h { initialized = false })

-- The sequence number of the next packet, and the counters of a packet sent.
unfoldable pub next_sequence : Option Handler → ℕ
next_sequence none = 0
next_sequence (some h) = h.sequence_counter

unfoldable pub count_sent : ℕ → Option Handler → Option Handler
count_sent data_len none = none
count_sent data_len (some h) = some (record h {
  sequence_counter = u16 (h.sequence_counter + 1);
  packets_sent = add32 h.packets_sent 1;
  bytes_sent = add32 h.bytes_sent (header_size + data_len + crc_size + 2);
})

-- `memcpy` of the payload, if there is one.
pub payload_of : Option (List ℕ) → ℕ → Option (List ℕ)
payload_of none data_len = some []
payload_of (some bytes) data_len = if ltb 0 data_len then read_bytes bytes 0 data_len else some []

-- The bytes that the checksum is over: `buffer[1]` up to the end of the payload.
pub body : ℕ → ℕ → ℕ → List ℕ → List ℕ
body command sequence data_len payload =
    command
    ∷ u8 (sequence >>> 8)
    ∷ bit_and sequence 0xff
    ∷ u8 (data_len >>> 8)
    ∷ bit_and data_len 0xff
    ∷ payload

pub packet_bytes : ℕ → ℕ → ℕ → List ℕ → List ℕ
packet_bytes command sequence data_len payload =
    let checked = body command sequence data_len payload in
    let crc = calculate_crc checked in
    start_byte ∷ (checked ++ (u8 (crc >>> 8) ∷ bit_and crc 0xff ∷ end_byte ∷ []))

pub create_packet :
    ℕ
    → Option (List ℕ)
    → ℕ
    → Option (List ℕ)
    → ℕ
    → Option Handler
    → Option (ℕ × Option (List ℕ) × Option Handler)
create_packet command bytes data_len none buffer_size handler = some (0, none, handler)
create_packet command bytes data_len (some buffer) buffer_size handler =
    if ltb buffer_size (header_size + data_len + crc_size + 2)
    then some (0, some buffer, handler)
    else (if ltb max_packet_size data_len
        then some (0, some buffer, handler)
        else (payload_of bytes data_len >>= λ payload.
            let packet = packet_bytes command (next_sequence handler) data_len payload in
            write_bytes buffer 0 packet >>= λ buffer'.
            some (u16 (length packet), some buffer', count_sent data_len handler)))

abbrev pub count_error : Option Handler → Option Handler
count_error none = none
count_error (some h) = some (record h { crc_errors = add32 h.crc_errors 1 })

abbrev pub count_received : ℕ → Option Handler → Option Handler
count_received n none = none
count_received n (some h) = some (record h {
  packets_received = add32 h.packets_received 1;
  bytes_received = add32 h.bytes_received n;
})

-- Two bytes, high byte first.
abbrev pub big_endian : ℕ → ℕ → ℕ
big_endian hi lo = u16 (bit_or (hi <<< 8) lo)

-- `memcpy(packet->data, &buffer[6], packet->length)` where the length is within the array.
pub copy_payload : List ℕ → Packet → Option Packet
copy_payload buffer p =
    if ltb 0 p.len && leb p.len max_packet_size
    then (read_bytes buffer 6 p.len >>= λ src.
        write_bytes p.payload 0 src >>= λ payload'. some (record p { payload = payload' }))
    else some p

-- From the length check on; `p` holds the header.
pub parse_rest :
    List ℕ → ℕ → Packet → Option Handler → Option (Bool × Option Packet × Option Handler)
parse_rest buffer buffer_len p handler =
    if not (buffer_len == u16 (header_size + p.len + crc_size + 1))
    then some (false, some p, count_error handler)
    else (copy_payload buffer p >>= λ p'. get_elem? buffer (6 + p.len) >>= λ hi.
        get_elem? buffer (7 + p.len) >>= λ lo. read_bytes buffer 1 (u16 (5 + p.len)) >>= λ checked.
        get_elem? buffer (buffer_len - 1) >>= λ last.
        let q = record p' { crc = big_endian hi lo; end_mark = last } in
        if not (big_endian hi lo == calculate_crc checked)
        then some (false, some q, count_error handler)
        else some (true, some q, count_received buffer_len handler))

-- The subtraction `buffer_len - 1` is at a length of ten bytes at least.
pub parse_packet :
    Option (List ℕ)
    → ℕ
    → Option Packet
    → Option Handler
    → Option (Bool × Option Packet × Option Handler)
parse_packet none buffer_len packet handler = some (false, packet, handler)
parse_packet (some buffer) buffer_len none handler = some (false, none, handler)
parse_packet (some buffer) buffer_len (some p) handler =
    if ltb buffer_len (header_size + crc_size + 2)
    then some (false, some p, handler)
    else (get_elem? buffer 0 >>= λ first.
        if not (first == start_byte)
        then some (false, some p, handler)
        else (get_elem? buffer (buffer_len - 1) >>= λ last.
            if not (last == end_byte)
            then some (false, some p, handler)
            else (get_elem? buffer 1 >>= λ command. get_elem? buffer 2 >>= λ s1.
                get_elem? buffer 3 >>= λ s0. get_elem? buffer 4 >>= λ l1.
                get_elem? buffer 5 >>= λ l0.
                parse_rest buffer buffer_len
                  (record p {
                    start = first;
                    command = command;
                    sequence = big_endian s1 s0;
                    len = big_endian l1 l0;
                  })
                  handler)))

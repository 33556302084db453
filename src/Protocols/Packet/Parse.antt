-- ===== src/Protocols/Packet/Parse.antt =====
-- What `protocol_parse_packet` reads and accepts, on any input.
use embed_rtos.Base.{
  ℕ, ◌+◌, ◌-◌, ◌≤◌, ◌<◌, ◌≡◌, refl, ap, ◌∙◌, ◌⊎◌, inl, inr, Bool, true, false, Option, some, List,
  arith, length, get_elem?, get_or, slice, splice, length-slice, leb→le, u16, ltb, leb, ◌==◌,
  if◌then◌else◌, ltb-false, lt→ltb, ==_iff, Bool-cases, not, ◌&&◌, read_bytes-in_range,
  get_elem?-in_range, write_bytes-in_range,
}
use embed_rtos.Protocols.Crc.{calculate_crc}
use embed_rtos.Protocols.Packet.{
  Packet, Handler, count_received, count_error, copy_payload, parse_rest, parse_packet, big_endian,
  start_byte, end_byte,
}

refused : {A : Type 0} → false ≡ true → A
refused e = ground arith

and-right : (a b : Bool) → (a && b) ≡ true → b ≡ true
and-right true b e = e
and-right false b e = refused e

-- `copy_payload` stays in bounds and keeps the header.
copy_payload_lem :
    (buffer : List ℕ) (p : Packet)
    → length p.payload ≡ 256
    → p.len + 9 ≤ length buffer
    → (p' : Packet) × (copy_payload buffer p ≡ some p')
unfolding copy_payload
copy_payload_lem buffer p array fits = elim (Bool-cases (ltb 0 p.len && leb p.len 256)) [
  | inl e ↦
      let small : p.len ≤ 256 = leb→le p.len 256 (and-right (ltb 0 p.len) (leb p.len 256) e) in
      let src : List ℕ = slice buffer 0 6 p.len in
      (
        record p { payload = splice p.payload 0 src },
        rw
            (
              e,
              read_bytes-in_range buffer 6 p.len (omega arith),
              write_bytes-in_range p.payload 0 src
                  (rw (length-slice buffer 0 6 p.len) (omega arith)),
            )
            refl,
      )
  | inr e ↦ (p, rw e refl)
]

-- The length in the header of a packet in `buffer`.
abbrev pub length_field : List ℕ → ℕ
length_field buffer = big_endian (get_or buffer 4 0) (get_or buffer 5 0)

-- The checksum at the end of the first `n` bytes of `buffer`, and the one of the bytes before it.
abbrev pub checksum_field : List ℕ → ℕ → ℕ
checksum_field buffer n = big_endian (get_or buffer (n - 3) 0) (get_or buffer (n - 2) 0)

abbrev pub checksum_of : List ℕ → ℕ → ℕ
checksum_of buffer n = calculate_crc (slice buffer 0 1 (n - 4))

-- The packet with the checksum and the end byte read.
abbrev stored : List ℕ → ℕ → Packet → Packet
stored buffer n c = record c { crc = checksum_field buffer n; end_mark = get_or buffer (n - 1) 0 }

-- What `parse_rest` checks of a packet of the right size.
parse_checksum :
    (buffer : List ℕ) (n : ℕ) (p c : Packet) (g : Option Handler)
    → n ≤ length buffer
    → 10 ≤ n
    → n < 65536
    → n ≡ p.len + 9
    → copy_payload buffer p ≡ some c
    → parse_rest buffer n p g ≡ (
        if not (checksum_field buffer n == checksum_of buffer n)
        then some (false, some (stored buffer n c), count_error g)
        else some (true, some (stored buffer n c), count_received n g))
unfolding parse_rest
parse_checksum buffer n p c g fits low w size ce =
    let e : (n == u16 (6 + p.len + 2 + 1)) ≡ true =
      (==_iff n (u16 (6 + p.len + 2 + 1))).1 (omega arith) in
    let at : 6 + p.len ≡ n - 3 = omega arith in
    let at' : 7 + p.len ≡ n - 2 = omega arith in
    let mid : u16 (5 + p.len) ≡ n - 4 = omega arith in
    rw
      (
        e,
        ce,
        at,
        at',
        mid,
        get_elem?-in_range buffer (n - 3) (omega arith),
        get_elem?-in_range buffer (n - 2) (omega arith),
        read_bytes-in_range buffer 1 (n - 4) (omega arith),
        get_elem?-in_range buffer (n - 1) (omega arith),
      )
      refl

parse_size :
    (buffer : List ℕ) (n : ℕ) (p : Packet) (g : Option Handler)
    → (n == u16 (6 + p.len + 2 + 1)) ≡ false
    → parse_rest buffer n p g ≡ some (false, some p, count_error g)
unfolding parse_rest
parse_size buffer n p g e = rw e refl

abbrev Judged :
    List ℕ → ℕ → ℕ → Option Handler → Option (Bool × Option Packet × Option Handler) → Type 0
Judged buffer n len g result =
    (ok : Bool) × (q : Packet) × (g' : Option Handler) × (result ≡ some (ok, some q, g'))
    × ((ok ≡ false)
        ⊎ ((n ≡ len + 9)
            × (checksum_field buffer n ≡ checksum_of buffer n)
            × (g' ≡ count_received n g)))

parse_rest_lem :
    (buffer : List ℕ) (n : ℕ) (p : Packet) (g : Option Handler)
    → n ≤ length buffer
    → 10 ≤ n
    → n < 65536
    → p.len < 65536
    → length p.payload ≡ 256
    → Judged buffer n p.len g (parse_rest buffer n p g)
parse_rest_lem buffer n p g fits low w wl array = elim (Bool-cases (n == u16 (6 + p.len + 2 + 1))) [
  | inr e ↦ (false, p, count_error g, parse_size buffer n p g e, inl refl)
  | inl e ↦
      let agree : n ≡ u16 (6 + p.len + 2 + 1) = (==_iff n (u16 (6 + p.len + 2 + 1))).0 e in
      let size : n ≡ p.len + 9 = omega arith in
      let c = copy_payload_lem buffer p array (omega arith) in
      let q : Packet = stored buffer n c.0 in
      let run = parse_checksum buffer n p c.0 g fits low w size c.1 in
      elim (Bool-cases (checksum_field buffer n == checksum_of buffer n)) [
        | inl f ↦ (
          true,
          q,
          count_received n g,
          run
              ∙ ap
                  (λ b.
                    if not b
                    then some (false, some q, count_error g)
                    else some (true, some q, count_received n g))
                  f,
          inr (size, (==_iff (checksum_field buffer n) (checksum_of buffer n)).0 f, refl),
        )
        | inr f ↦ (
          false,
          q,
          count_error g,
          run
              ∙ ap
                  (λ b.
                    if not b
                    then some (false, some q, count_error g)
                    else some (true, some q, count_received n g))
                  f,
          inl refl,
        )
      ]
]

-- The header that `protocol_parse_packet` reads into `p`.
abbrev header_of : List ℕ → Packet → Packet
header_of buffer p = record p {
  start = get_or buffer 0 0;
  command = get_or buffer 1 0;
  sequence = big_endian (get_or buffer 2 0) (get_or buffer 3 0);
  len = length_field buffer;
}

parse_packet-rest :
    (buffer : List ℕ) (n : ℕ) (p : Packet) (g : Option Handler)
    → n ≤ length buffer
    → 10 ≤ n
    → (get_or buffer 0 0 == start_byte) ≡ true
    → (get_or buffer (n - 1) 0 == end_byte) ≡ true
    → parse_packet (some buffer) n (some p) g ≡ parse_rest buffer n (header_of buffer p) g
unfolding parse_packet
parse_packet-rest buffer n p g fits low f l =
    rw
      (
        ltb-false n 10 low,
        get_elem?-in_range buffer 0 (omega arith),
        f,
        get_elem?-in_range buffer (n - 1) (omega arith),
        l,
        get_elem?-in_range buffer 1 (omega arith),
        get_elem?-in_range buffer 2 (omega arith),
        get_elem?-in_range buffer 3 (omega arith),
        get_elem?-in_range buffer 4 (omega arith),
        get_elem?-in_range buffer 5 (omega arith),
      )
      refl

pub parse_packet-short :
    (buffer : List ℕ) (n : ℕ) (p : Packet) (g : Option Handler)
    → n < 10
    → parse_packet (some buffer) n (some p) g ≡ some (false, some p, g)
unfolding parse_packet
parse_packet-short buffer n p g h = rw (lt→ltb n 10 h) refl

-- Without the start byte nothing is read or counted.
pub parse_packet-no_start :
    (buffer : List ℕ) (n : ℕ) (p : Packet) (g : Option Handler)
    → 0 < length buffer
    → 10 ≤ n
    → (get_or buffer 0 0 == start_byte) ≡ false
    → parse_packet (some buffer) n (some p) g ≡ some (false, some p, g)
unfolding parse_packet
parse_packet-no_start buffer n p g fits low f =
    rw (ltb-false n 10 low, get_elem?-in_range buffer 0 fits, f) refl

-- `protocol_parse_packet` of a buffer that holds the bytes that the caller says makes no access out
-- of bounds, whatever the bytes are, and accepts only a packet that has the start byte, the end
-- byte, a length field nine less than its own length, and the checksum of the bytes between; it
-- then counts the packet.
pub parse_sound :
    (buffer : List ℕ) (buffer_len : ℕ) (p : Packet) (g : Option Handler)
    → buffer_len ≤ length buffer
    → buffer_len < 65536
    → length p.payload ≡ 256
    → (ok : Bool) × (p' : Packet) × (g' : Option Handler) × (parse_packet
          (some buffer)
          buffer_len
          (some p)
          g
        ≡ some (ok, some p', g'))
      × ((ok ≡ false)
          ⊎ ((get_or buffer 0 0 ≡ start_byte)
              × (get_or buffer (buffer_len - 1) 0 ≡ end_byte)
              × (buffer_len ≡ length_field buffer + 9)
              × (checksum_field buffer buffer_len ≡ checksum_of buffer buffer_len)
              × (g' ≡ count_received buffer_len g)))
unfolding parse_packet
parse_sound buffer n p g fits w array = elim (Bool-cases (ltb n 10)) [
  | inl e ↦ (false, p, g, rw e refl, inl refl)
  | inr e ↦
      let low : 10 ≤ n = ground arith in
      let at : (i : ℕ) → i < 10 → get_elem? buffer i ≡ some (get_or buffer i 0) =
        λ i h. get_elem?-in_range buffer i (omega arith) in
      elim (Bool-cases (get_or buffer 0 0 == start_byte)) [
        | inr f ↦ (false, p, g, rw (e, at 0 (omega arith), f) refl, inl refl)
        | inl f ↦ elim (Bool-cases (get_or buffer (n - 1) 0 == end_byte)) [
          | inr l ↦ (
            false,
            p,
            g,
            rw (e, at 0 (omega arith), f, get_elem?-in_range buffer (n - 1) (omega arith), l) refl,
            inl refl,
          )
          | inl l ↦
              let r =
                parse_rest_lem buffer n (header_of buffer p) g fits low w (omega arith) array in
              (
                r.0,
                r.1,
                r.2,
                parse_packet-rest buffer n p g fits low f l ∙ r.3,
                elim r.4 [
                  | inl n_ok ↦ inl n_ok
                  | inr accepts ↦ inr (
                    (==_iff (get_or buffer 0 0) start_byte).0 f,
                    (==_iff (get_or buffer (n - 1) 0) end_byte).0 l,
                    accepts.0,
                    accepts.1,
                    accepts.2,
                  )
                ],
              )
        ]
      ]
]

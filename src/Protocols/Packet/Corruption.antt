-- ===== src/Protocols/Packet/Corruption.antt =====
-- A packet with one byte changed on the line.
use embed_rtos.Base.{
  ℕ, suc, ◌+◌, ◌-◌, ◌≤◌, ◌<◌, ◌≡◌, ◌≢◌, sym, ap, ap₂, ◌∙◌, inl, inr, false, Option, some, List, [],
  ◌∷◌, ◌++◌, arith, length, get_or, set, slice, slice-add, slice-splice_apart, length-set,
  get_or-set_self, get_or-set_ne,
}
use embed_rtos.Protocols.Crc.{calculate_crc}
use embed_rtos.Protocols.Crc.Detection.{calculate_crc-changed}
use embed_rtos.Protocols.Packet.{Packet, Handler, parse_packet, big_endian}
use embed_rtos.Protocols.Packet.Parse.{parse_sound, checksum_field, checksum_of}

-- The checked bytes of a packet of `n`, cut at the byte `i`.
cut :
    (buffer : List ℕ) (n i : ℕ)
    → 1 ≤ i
    → i + 3 < n
    → slice buffer 0 1 (n - 4)
      ≡ slice buffer 0 1 (i - 1) ++ (get_or buffer i 0 ∷ slice buffer 0 (suc i) (n - 4 - i))
cut buffer n i h l =
    ap (slice buffer 0 1) (let e : n - 4 ≡ (i - 1) + suc (n - 4 - i) = omega arith in e)
    ∙ slice-add buffer 0 1 (i - 1) (suc (n - 4 - i))
    ∙ ap (λ k. slice buffer 0 1 (i - 1) ++ slice buffer 0 k (suc (n - 4 - i)))
        (let e : 1 + (i - 1) ≡ i = omega arith in e)

cut-changed :
    (buffer : List ℕ) (n i v : ℕ)
    → 1 ≤ i
    → i + 3 < n
    → n ≤ length buffer
    → slice (set buffer i v) 0 1 (n - 4)
      ≡ slice buffer 0 1 (i - 1) ++ (v ∷ slice buffer 0 (suc i) (n - 4 - i))
cut-changed buffer n i v h l fits =
    cut (set buffer i v) n i h l
    ∙ ap₂ ◌++◌ (slice-splice_apart buffer 0 i (v ∷ []) 1 (i - 1) (inl (omega arith))) (
        ap₂ ◌∷◌ (get_or-set_self buffer i v 0 (omega arith))
          (slice-splice_apart buffer 0 i (v ∷ []) (suc i) (n - 4 - i) (inr (omega arith))))

checksum_of-changed :
    (buffer : List ℕ) (n i v : ℕ)
    → 1 ≤ i
    → i + 3 < n
    → n ≤ length buffer
    → get_or buffer i 0 < 256
    → v < 256
    → v ≢ get_or buffer i 0
    → checksum_of (set buffer i v) n ≢ checksum_of buffer n
checksum_of-changed buffer n i v h l fits byte byte' ne e =
    calculate_crc-changed (slice buffer 0 1 (i - 1)) v (get_or buffer i 0)
      (slice buffer 0 (suc i) (n - 4 - i)) byte' byte ne
      (ap calculate_crc (sym (cut-changed buffer n i v h l fits))
        ∙ e
        ∙ ap calculate_crc (cut buffer n i h l))

checksum_field-kept :
    (buffer : List ℕ) (n i v : ℕ)
    → i + 3 < n
    → checksum_field (set buffer i v) n ≡ checksum_field buffer n
checksum_field-kept buffer n i v l =
    ap₂ big_endian (get_or-set_ne buffer i (n - 3) v 0 (omega arith))
      (get_or-set_ne buffer i (n - 2) v 0 (omega arith))

-- A packet whose checksum is right, and in which one byte between the start byte and the checksum is
-- changed to another, is refused by `protocol_parse_packet`, and no access is out of bounds.
pub changed-refused :
    (buffer : List ℕ) (buffer_len i v : ℕ) (p : Packet) (g : Option Handler)
    → buffer_len ≤ length buffer
    → buffer_len < 65536
    → length p.payload ≡ 256
    → checksum_field buffer buffer_len ≡ checksum_of buffer buffer_len
    → 1 ≤ i
    → i + 3 < buffer_len
    → get_or buffer i 0 < 256
    → v < 256
    → v ≢ get_or buffer i 0
    → (p' : Packet) × (g' : Option Handler) × (parse_packet
          (some (set buffer i v))
          buffer_len
          (some p)
          g
        ≡ some (false, some p', g'))
changed-refused buffer n i v p g fits w array valid h l byte byte' ne =
    let s = parse_sound (set buffer i v) n p g (omega (arith, length-set buffer i v)) w array in
    elim s.4 [
      | inl refused ↦ (s.1, s.2, s.3 ∙ ap (λ ok. some (ok, some s.1, s.2)) refused)
      | inr accepted ↦ absurd (
          checksum_of-changed buffer n i v h l fits byte byte' ne
            (sym accepted.3 ∙ checksum_field-kept buffer n i v l ∙ valid))
    ]

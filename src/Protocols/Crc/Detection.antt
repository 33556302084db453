-- ===== src/Protocols/Crc/Detection.antt =====
-- Which changes of a message change its checksum.
use embed_rtos.Base.{
  ℕ, zero, suc, ◌+◌, ◌*◌, ◌/◌, ◌%◌, ◌^◌, ◌<◌, ◌≡◌, ◌≢◌, refl, sym, ap, ◌∙◌, Bool, true, ◌&&◌, List,
  [], ◌∷◌, ◌++◌, arith, get_or, length, ◌==◌, u8, u16, ◌<<<◌, ◌>>>◌, bit_xor,
}
use embed_rtos.Base.Xor.{bit_xor-mod, bit_xor-cancel, bit_xor_comm, bit_xor-zero}
use embed_rtos.Protocols.Crc.{crc_table, crc_step, crc_from, calculate_crc}
use embed_rtos.Protocols.Crc.Range.{crc_step-lt}

-- The index of the table entry with a given low byte.
abbrev index_of_low : List ℕ
index_of_low =
    0 ∷ 35 ∷ 70 ∷ 101 ∷ 140 ∷ 175 ∷ 202 ∷ 233 ∷ 8 ∷ 43 ∷ 78 ∷ 109 ∷ 132 ∷ 167 ∷ 194 ∷ 225 ∷ 17 ∷ 50
    ∷ 87 ∷ 116 ∷ 157 ∷ 190 ∷ 219 ∷ 248 ∷ 25 ∷ 58 ∷ 95 ∷ 124 ∷ 149 ∷ 182 ∷ 211 ∷ 240 ∷ 34 ∷ 1 ∷ 100
    ∷ 71 ∷ 174 ∷ 141 ∷ 232 ∷ 203 ∷ 42 ∷ 9 ∷ 108 ∷ 79 ∷ 166 ∷ 133 ∷ 224 ∷ 195 ∷ 51 ∷ 16 ∷ 117 ∷ 86
    ∷ 191 ∷ 156 ∷ 249 ∷ 218 ∷ 59 ∷ 24 ∷ 125 ∷ 94 ∷ 183 ∷ 148 ∷ 241 ∷ 210 ∷ 68 ∷ 103 ∷ 2 ∷ 33 ∷ 200
    ∷ 235 ∷ 142 ∷ 173 ∷ 76 ∷ 111 ∷ 10 ∷ 41 ∷ 192 ∷ 227 ∷ 134 ∷ 165 ∷ 85 ∷ 118 ∷ 19 ∷ 48 ∷ 217 ∷ 250
    ∷ 159 ∷ 188 ∷ 93 ∷ 126 ∷ 27 ∷ 56 ∷ 209 ∷ 242 ∷ 151 ∷ 180 ∷ 102 ∷ 69 ∷ 32 ∷ 3 ∷ 234 ∷ 201 ∷ 172
    ∷ 143 ∷ 110 ∷ 77 ∷ 40 ∷ 11 ∷ 226 ∷ 193 ∷ 164 ∷ 135 ∷ 119 ∷ 84 ∷ 49 ∷ 18 ∷ 251 ∷ 216 ∷ 189 ∷ 158
    ∷ 127 ∷ 92 ∷ 57 ∷ 26 ∷ 243 ∷ 208 ∷ 181 ∷ 150 ∷ 136 ∷ 171 ∷ 206 ∷ 237 ∷ 4 ∷ 39 ∷ 66 ∷ 97 ∷ 128
    ∷ 163 ∷ 198 ∷ 229 ∷ 12 ∷ 47 ∷ 74 ∷ 105 ∷ 153 ∷ 186 ∷ 223 ∷ 252 ∷ 21 ∷ 54 ∷ 83 ∷ 112 ∷ 145 ∷ 178
    ∷ 215 ∷ 244 ∷ 29 ∷ 62 ∷ 91 ∷ 120 ∷ 170 ∷ 137 ∷ 236 ∷ 207 ∷ 38 ∷ 5 ∷ 96 ∷ 67 ∷ 162 ∷ 129 ∷ 228
    ∷ 199 ∷ 46 ∷ 13 ∷ 104 ∷ 75 ∷ 187 ∷ 152 ∷ 253 ∷ 222 ∷ 55 ∷ 20 ∷ 113 ∷ 82 ∷ 179 ∷ 144 ∷ 245 ∷ 214
    ∷ 63 ∷ 28 ∷ 121 ∷ 90 ∷ 204 ∷ 239 ∷ 138 ∷ 169 ∷ 64 ∷ 99 ∷ 6 ∷ 37 ∷ 196 ∷ 231 ∷ 130 ∷ 161 ∷ 72
    ∷ 107 ∷ 14 ∷ 45 ∷ 221 ∷ 254 ∷ 155 ∷ 184 ∷ 81 ∷ 114 ∷ 23 ∷ 52 ∷ 213 ∷ 246 ∷ 147 ∷ 176 ∷ 89 ∷ 122
    ∷ 31 ∷ 60 ∷ 238 ∷ 205 ∷ 168 ∷ 139 ∷ 98 ∷ 65 ∷ 36 ∷ 7 ∷ 230 ∷ 197 ∷ 160 ∷ 131 ∷ 106 ∷ 73 ∷ 44
    ∷ 15 ∷ 255 ∷ 220 ∷ 185 ∷ 154 ∷ 115 ∷ 80 ∷ 53 ∷ 22 ∷ 247 ∷ 212 ∷ 177 ∷ 146 ∷ 123 ∷ 88 ∷ 61 ∷ 30
    ∷ []

-- The low byte of each entry leads back to its index.
leads_back : ℕ → List ℕ → Bool
leads_back i [] = true
leads_back i (x ∷ xs) = (get_or index_of_low (x % 256) 0 == i) && leads_back (i + 1) xs

leads_back-at :
    (i : ℕ) (xs : List ℕ) (k : ℕ)
    → leads_back i xs ≡ true
    → k < length xs
    → get_or index_of_low (get_or xs k 0 % 256) 0 ≡ i + k
unfolding leads_back
leads_back-at i [] k h l = absurd (omega arith)
leads_back-at i (x ∷ xs) zero h l =
    let e : get_or index_of_low (x % 256) 0 ≡ i = ground arith in e ∙ omega arith
leads_back-at i (x ∷ xs) (suc k) h l =
    leads_back-at (i + 1) xs k (ground arith) (omega arith) ∙ omega arith

table_leads_back : (leads_back 0 crc_table ≡ true) × (length crc_table ≡ 256)
unfolding leads_back crc_table
table_leads_back = (refl, refl)

-- Two entries with the same low byte are the same entry.
table-same_low :
    (i j : ℕ) → i < 256 → j < 256 → get_or crc_table i 0 % 256 ≡ get_or crc_table j 0 % 256 → i ≡ j
table-same_low i j hi hj e =
    let at : (k : ℕ) → k < 256 → get_or index_of_low (get_or crc_table k 0 % 256) 0 ≡ k = λ k h.
      leads_back-at 0 crc_table k table_leads_back.0 (rw (table_leads_back.1) h) ∙ omega arith in
    sym (at i hi) ∙ ap (λ l. get_or index_of_low l 0) e ∙ at j hj

-- The index into the table, and the step at an index.
abbrev index : ℕ → ℕ → ℕ
index crc byte = u8 (bit_xor (crc >>> 8) byte)

abbrev step_at : ℕ → ℕ → ℕ
step_at crc i = u16 (bit_xor (crc <<< 8) (get_or crc_table i 0))

step_at-low : (crc i : ℕ) → step_at crc i % 256 ≡ get_or crc_table i 0 % 256
step_at-low crc i =
    let t : ℕ = get_or crc_table i 0 in
    let low : bit_xor (crc * 256) t % 256 ≡ bit_xor (crc * 256 % 256) (t % 256) =
      bit_xor-mod 8 (crc * 256) t in
    let zero_low : bit_xor (crc * 256 % 256) (t % 256) ≡ bit_xor 0 (t % 256) =
      ap (λ k. bit_xor k (t % 256)) (omega arith) in
    let same : bit_xor 0 (t % 256) ≡ t % 256 = bit_xor-zero (t % 256) in
    omega (arith, low, zero_low, same)

crc_step-step_at : (crc byte : ℕ) → crc_step crc byte ≡ step_at crc (index crc byte)
unfolding crc_step
crc_step-step_at crc byte = refl

-- Steps that agree were at the same index.
same_index : (c c' b b' : ℕ) → crc_step c b ≡ crc_step c' b' → index c b ≡ index c' b'
same_index c c' b b' e =
    let agree : step_at c (index c b) ≡ step_at c' (index c' b') =
      sym (crc_step-step_at c b) ∙ e ∙ crc_step-step_at c' b' in
    table-same_low (index c b) (index c' b') (omega arith) (omega arith)
      (sym (step_at-low c (index c b)) ∙ ap (λ k. k % 256) agree ∙ step_at-low c' (index c' b'))

-- `^` with the same low digits on one side.
same_right : (k a a' b : ℕ) → bit_xor a b % 2 ^ k ≡ bit_xor a' b % 2 ^ k → a % 2 ^ k ≡ a' % 2 ^ k
same_right k a a' b e = bit_xor-cancel (b % 2 ^ k) (a % 2 ^ k) (a' % 2 ^ k) (
    bit_xor_comm (b % 2 ^ k) (a % 2 ^ k)
    ∙ sym (bit_xor-mod k a b)
    ∙ e
    ∙ bit_xor-mod k a' b
    ∙ bit_xor_comm (a' % 2 ^ k) (b % 2 ^ k))

-- A step loses nothing of the register, nor of the byte.
crc_step_injective : (c c' b : ℕ) → c < 65536 → c' < 65536 → crc_step c b ≡ crc_step c' b → c ≡ c'
crc_step_injective c c' b h h' e =
    let i : ℕ = index c b in
    let at : i ≡ index c' b = same_index c c' b b e in
    let high : (c / 256) % 256 ≡ (c' / 256) % 256 = same_right 8 (c / 256) (c' / 256) b at in
    let agree : step_at c i ≡ step_at c' i =
      sym (crc_step-step_at c b) ∙ e ∙ crc_step-step_at c' b ∙ ap (step_at c') (sym at) in
    let low : c * 256 % 65536 ≡ c' * 256 % 65536 =
      same_right 16 (c * 256) (c' * 256) (get_or crc_table i 0) agree in
    omega (arith, high, low)

same_byte : (c b b' : ℕ) → b < 256 → b' < 256 → crc_step c b ≡ crc_step c b' → b ≡ b'
same_byte c b b' h h' e =
    let at : index c b ≡ index c b' = same_index c c b b' e in
    let low : b % 256 ≡ b' % 256 =
      bit_xor-cancel (c / 256 % 256) (b % 256) (b' % 256)
        (sym (bit_xor-mod 8 (c / 256) b) ∙ at ∙ bit_xor-mod 8 (c / 256) b') in
    omega arith

crc_from_injective :
    (c c' : ℕ) (bytes : List ℕ)
    → c < 65536
    → c' < 65536
    → crc_from c bytes ≡ crc_from c' bytes
    → c ≡ c'
unfolding crc_from
crc_from_injective c c' [] h h' e = e
crc_from_injective c c' (b ∷ bytes) h h' e =
    crc_step_injective c c' b h h' (
      crc_from_injective (crc_step c b) (crc_step c' b) bytes (crc_step-lt c b) (crc_step-lt c' b)
        e)

crc_from-changed :
    (c : ℕ) (before : List ℕ) (b b' : ℕ) (after : List ℕ)
    → b < 256
    → b' < 256
    → crc_from c (before ++ (b ∷ after)) ≡ crc_from c (before ++ (b' ∷ after))
    → b ≡ b'
unfolding crc_from
crc_from-changed c [] b b' after h h' e =
    same_byte c b b' h h' (
      crc_from_injective (crc_step c b) (crc_step c b') after (crc_step-lt c b) (crc_step-lt c b')
        e)
crc_from-changed c (x ∷ before) b b' after h h' e =
    crc_from-changed (crc_step c x) before b b' after h h' e

-- Messages that differ in one byte have different checksums.
pub calculate_crc-changed :
    (before : List ℕ) (b b' : ℕ) (after : List ℕ)
    → b < 256
    → b' < 256
    → b ≢ b'
    → calculate_crc (before ++ (b ∷ after)) ≢ calculate_crc (before ++ (b' ∷ after))
unfolding calculate_crc
calculate_crc-changed before b b' after h h' ne e =
    ne (crc_from-changed 0xffff before b b' after h h' e)

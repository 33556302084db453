-- ===== src/Utils/Logger/Dump.antt =====
-- The dump of memory of logger_hex_dump of src/utils/logger.c.
use embed_rtos.Base.{
  ℕ, zero, suc, ◌+◌, ◌-◌, ◌*◌, ◌/◌, ◌≤◌, ◌<◌, min, ◌≡◌, refl, ap, ◌∙◌, true, false, some, List, [],
  ◌∷◌, ◌++◌, map, slice, ◌>>=◌, arith, Bool-cases, inl, inr, if◌then◌else◌, ltb, leb, ◌==◌,
  get_elem?, get_or, length, length-append, add_size, ltb→lt, get_elem?-in_range, codes,
}
use embed_rtos.Base.Print.{decimal, hexadecimal, pad, length-pad-hexadecimal}
use embed_rtos.Utils.Logger.Filter.{put-stream}
use embed_rtos.Utils.Logger.{
  Logger, log_level_debug, hex_cells, ascii_cells, printable, dump_row, dump_rows, hex_dump,
}

-- The byte at an offset, or a blank.
abbrev cell_text : List ℕ → ℕ → ℕ → List ℕ
cell_text bytes size k =
    if ltb k size then pad 2 48 (hexadecimal (get_or bytes k 0)) ++ (32 ∷ []) else 32 ∷ 32 ∷ 32 ∷ []

abbrev gap_text : ℕ → List ℕ
gap_text j = if j == 7 then 32 ∷ [] else []

length-cell_text :
    (bytes : List ℕ) (size k : ℕ)
    → ((i : ℕ) → get_or bytes i 0 < 256)
    → length (cell_text bytes size k) ≡ 3
length-cell_text bytes size k small = elim (Bool-cases (ltb k size)) [
  | inl e ↦
      rw (e, length-append (pad 2 48 (hexadecimal (get_or bytes k 0))))
        (omega (arith, length-pad-hexadecimal (get_or bytes k 0) (small k)))
  | inr e ↦ rw e refl
]

length-gap_text : (j : ℕ) → length (gap_text j) ≡ (if j == 7 then 1 else 0)
length-gap_text j = ground arith

-- The bytes of a row in hexadecimal, from column `j` on; a gap stands after the eighth.
pub hex_text : List ℕ → ℕ → ℕ → ℕ → ℕ → List ℕ
hex_text bytes size i j zero = []
hex_text bytes size i j (suc n) =
    cell_text bytes size (i + j) ++ gap_text j ++ hex_text bytes size i (j + 1) n

length-hex_text :
    (bytes : List ℕ) (size i j n : ℕ)
    → ((k : ℕ) → get_or bytes k 0 < 256)
    → j + n ≡ 16
    → length (hex_text bytes size i j n) ≡ 3 * n + (if leb j 7 then 1 else 0)
unfolding hex_text
length-hex_text bytes size i j zero small e = ground arith
length-hex_text bytes size i j (suc n) small e =
    let rest = length-hex_text bytes size i (j + 1) n small (omega arith) in
    let front : List ℕ = cell_text bytes size (i + j) ++ gap_text j in
    let whole = length-append front (hex_text bytes size i (j + 1) n) in
    let cell = length-cell_text bytes size (i + j) small in
    let gap = length-gap_text j in
    whole
    ∙ ground (arith, length-append (cell_text bytes size (i + j)) (gap_text j), cell, gap, rest)

-- The bytes of a row as characters.
ascii_text : List ℕ → ℕ → ℕ → List ℕ
ascii_text bytes i n = map printable (slice bytes 0 i n)

row_text : List ℕ → ℕ → ℕ → List ℕ
row_text bytes size i =
    codes "  "
    ++ pad 4 48 (hexadecimal i)
    ++ codes ": "
    ++ hex_text bytes size i 0 16
    ++ codes " "
    ++ ascii_text bytes i (min 16 (size - i))
    ++ (10 ∷ [])

-- `n` rows from byte `i` on.
rows_text : List ℕ → ℕ → ℕ → ℕ → List ℕ
rows_text bytes size i zero = []
rows_text bytes size i (suc n) = row_text bytes size i ++ rows_text bytes size (i + 16) n

pub dump_text : List ℕ → ℕ → List ℕ → List ℕ
unfolding rows_text row_text hex_text ascii_text
dump_text bytes size label =
    label
    ++ codes " ("
    ++ decimal size
    ++ codes " bytes):"
    ++ (10 ∷ rows_text bytes size 0 ((size + 15) / 16))

-- A dump of memory that is there, of a size that the offsets reach.
module _ (bytes : List ℕ) (size : ℕ) (there : size ≤ length bytes)
    (small : size + 16 ≤ 18446744073709551616) where
  -- The byte at an offset below the size can be read.
  read_byte : (i : ℕ) → ltb i size ≡ true → get_elem? bytes i ≡ some (get_or bytes i 0)
  read_byte i e = get_elem?-in_range bytes i (omega (arith, ltb→lt i size e))

  hex_cells-hex_text :
      (i j n : ℕ)
      → i ≤ size
      → j + n ≤ 16
      → hex_cells bytes size i j n ≡ some (hex_text bytes size i j n)
  unfolding hex_cells hex_text
  hex_cells-hex_text i j zero hi hj = refl
  hex_cells-hex_text i j (suc n) hi hj =
      let at : add_size i j ≡ i + j = omega arith in
      let rest = hex_cells-hex_text i (j + 1) n hi (omega arith) in
      rw at (elim (Bool-cases (ltb (i + j) size)) [
        | inl e ↦ rw (e, read_byte (i + j) e, ◌>>=◌, rest, ◌>>=◌) refl
        | inr e ↦ rw (e, ◌>>=◌, rest, ◌>>=◌) refl
      ])

  ascii_cells-ascii_text :
      (i j n : ℕ)
      → i ≤ size
      → j + n ≤ 16
      → ascii_cells bytes size i j n ≡ some (ascii_text bytes (i + j) (min n (size - (i + j))))
  unfolding ascii_cells ascii_text
  ascii_cells-ascii_text i j zero hi hj =
      rw (let e : min 0 (size - (i + j)) ≡ 0 = omega arith in e) refl
  ascii_cells-ascii_text i j (suc n) hi hj =
      let at : add_size i j ≡ i + j = omega arith in
      let rest = ascii_cells-ascii_text i (j + 1) n hi (omega arith) in
      rw at (elim (Bool-cases (ltb (i + j) size)) [
        | inl e ↦
            let next : i + (j + 1) ≡ suc (i + j) = omega arith in
            let more : min (suc n) (size - (i + j)) ≡ suc (min n (size - suc (i + j))) =
              omega (arith, ltb→lt (i + j) size e) in
            rw (e, read_byte (i + j) e, ◌>>=◌, rest, ◌>>=◌, next, more) refl
        | inr e ↦ let end : min (suc n) (size - (i + j)) ≡ 0 = ground arith in rw (e, end) refl
      ])

  dump_row-row_text : (i : ℕ) → i ≤ size → dump_row bytes size i ≡ some (row_text bytes size i)
  unfolding dump_row row_text
  dump_row-row_text i hi =
      let here : i + 0 ≡ i = omega arith in
      rw
        (
          hex_cells-hex_text i 0 16 hi (omega arith),
          ◌>>=◌,
          ascii_cells-ascii_text i 0 16 hi (omega arith),
          ◌>>=◌,
          here,
        )
        refl

  dump_rows-rows_text :
      (fuel i : ℕ)
      → i ≤ size + 15
      → size + 16 ≤ i + 16 * fuel
      → dump_rows fuel bytes size i ≡ some (rows_text bytes size i ((size + 15 - i) / 16))
  unfolding dump_rows rows_text
  dump_rows-rows_text zero i hi hf = absurd (omega arith)
  dump_rows-rows_text (suc fuel) i hi hf = elim (Bool-cases (ltb i size)) [
    | inl e ↦
        let below = ltb→lt i size e in
        let next : add_size i 16 ≡ i + 16 = omega arith in
        let more : (size + 15 - i) / 16 ≡ suc ((size + 15 - (i + 16)) / 16) = omega arith in
        rw
          (
            e,
            dump_row-row_text i (omega arith),
            ◌>>=◌,
            next,
            dump_rows-rows_text fuel (i + 16) (omega arith) (omega arith),
            ◌>>=◌,
            more,
          )
          refl
    | inr e ↦ let none_left : (size + 15 - i) / 16 ≡ 0 = ground arith in rw (e, none_left) refl
  ]

  -- For memory that is there, with the stream open and the level at DEBUG, logger_hex_dump ends and
  -- reads within bounds; it puts out the label and the size, and then a row for each 16 bytes or a
  -- rest of them, with its offset, its bytes in hexadecimal and the same bytes as characters. The
  -- hexadecimal part of every row is 49 characters wide, so that the rows are aligned.
  pub hex_dump-text :
      (label : List ℕ) (row : ℕ) (l : Logger) (stream : ℕ)
      → ((k : ℕ) → get_or bytes k 0 < 256)
      → l.config.output_stream ≡ some stream
      → l.config.min_level ≡ 0
      → (hex_dump label bytes size l
          ≡ some (record l { written = l.written ++ dump_text bytes size label }))
        × (length (hex_text bytes size (16 * row) 0 16) ≡ 49)
  unfolding hex_dump dump_text
  hex_dump-text label row l stream bytes_in h level =
      let on : ltb log_level_debug l.config.min_level ≡ false = rw level refl in
      let rows : dump_rows (suc size) bytes size 0
          ≡ some (rows_text bytes size 0 ((size + 15) / 16)) =
        dump_rows-rows_text (suc size) 0 (omega arith) (omega arith)
        ∙ ap (λ k. some (rows_text bytes size 0 (k / 16))) (omega arith) in
      (
        rw
            (
              on,
              rows,
              ◌>>=◌,
              put-stream l.config l.written (dump_text bytes size label) stream h,
              ◌>>=◌,
            )
            refl,
        length-hex_text bytes size (16 * row) 0 16 bytes_in (omega arith),
      )

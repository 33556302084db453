-- ===== src/Utils/Logger.antt =====
-- src/utils/logger.c and logger.h. What goes out on the stream is kept as its bytes; `none` is the
-- use of a null stream or an access out of bounds.
pub mod Filter
pub mod Dump
mod Examples
use embed_rtos.Base.{
  ℕ, zero, suc, ◌+◌, ◌-◌, Bool, true, false, ◌&&◌, Option, none, some, List, [], ◌∷◌, ◌++◌, ◌>>=◌,
  if◌then◌else◌, ltb, leb, ◌==◌, codes, get_elem?, add_size,
}
use embed_rtos.Base.Print.{decimal, hexadecimal, pad}

-- `output_stream` is a handle of the host.
pub record Config : Type 0 where
  pub enable_timestamp : Bool
  pub enable_level : Bool
  pub enable_file_line : Bool
  pub enable_color : Bool
  pub min_level : ℕ
  pub output_stream : Option ℕ

pub record Logger : Type 0 where
  pub config : Config
  pub written : List ℕ

abbrev pub log_level_debug : ℕ
log_level_debug = 0

abbrev pub log_level_info : ℕ
log_level_info = 1

abbrev pub log_level_warn : ℕ
log_level_warn = 2

abbrev pub log_level_error : ℕ
log_level_error = 3

abbrev pub log_level_fatal : ℕ
log_level_fatal = 4

abbrev pub default_config : Config
default_config = record {
  enable_timestamp = true;
  enable_level = true;
  enable_file_line = false;
  enable_color = true;
  min_level = log_level_info;
  output_stream = none;
}

-- `stdout` is the host's; the line on the standard output is left out.
pub init : ℕ → Option Config → Logger → Logger
init stdout config l =
    let chosen : Config = elim config [ none ↦ l.config | some c ↦ c ] in
    let stream : Option ℕ = elim chosen.output_stream [ none ↦ some stdout | some s ↦ some s ] in
    record l { config = record chosen { output_stream = stream } }

pub set_level : ℕ → Logger → Logger
set_level level l = record l { config = record l.config { min_level = level } }

pub level_to_string : ℕ → List ℕ
level_to_string level =
    if level == log_level_debug
    then codes "DEBUG"
    else if level == log_level_info
    then codes "INFO"
    else if level == log_level_warn
    then codes "WARN"
    else if level == log_level_error
    then codes "ERROR"
    else if level == log_level_fatal
    then codes "FATAL"
    else codes "UNKNOWN"

-- The escape sequence of a color number, `\033[...m`.
abbrev escape : List ℕ → List ℕ
escape number = 27 ∷ (codes "[" ++ number ++ codes "m")

level_color : ℕ → List ℕ
level_color level =
    if level == log_level_debug
    then escape (codes "36")
    else if level == log_level_info
    then escape (codes "32")
    else if level == log_level_warn
    then escape (codes "33")
    else if level == log_level_error
    then escape (codes "31")
    else if level == log_level_fatal
    then escape (codes "35")
    else escape (codes "0")

pub level_to_color : Config → ℕ → List ℕ
unfolding level_color
level_to_color config level = if config.enable_color then level_color level else []

-- The hour, the minute and the second that the host's clock shows.
pub record Clock : Type 0 where
  pub hour : ℕ
  pub minute : ℕ
  pub second : ℕ

-- A call of logger_log, with the text that its format and arguments print.
pub record Message : Type 0 where
  pub level : ℕ
  pub file : List ℕ
  pub line : ℕ
  pub text : List ℕ
  pub clock : Clock

-- What follows the last '/', from what has been seen since the last one.
base_name : List ℕ → List ℕ → List ℕ
base_name seen [] = seen
base_name seen (c ∷ cs) = if c == 47 then base_name [] cs else base_name (seen ++ (c ∷ [])) cs

timestamp : Clock → List ℕ
timestamp t =
    codes "["
    ++ pad 2 48 (decimal t.hour)
    ++ codes ":"
    ++ pad 2 48 (decimal t.minute)
    ++ codes ":"
    ++ pad 2 48 (decimal t.second)
    ++ codes "] "

level_tag : Config → ℕ → List ℕ
level_tag config level =
    level_to_color config level
    ++ codes "["
    ++ pad 5 32 (level_to_string level)
    ++ codes "]"
    ++ escape (codes "0")
    ++ codes " "

place : List ℕ → ℕ → List ℕ
unfolding base_name
place file line = codes "(" ++ base_name [] file ++ codes ":" ++ decimal line ++ codes ") "

-- The line that a message prints.
pub format_line : Config → Message → List ℕ
unfolding timestamp level_tag place
format_line config m =
    (if config.enable_timestamp then timestamp m.clock else [])
    ++ (if config.enable_level then level_tag config m.level else [])
    ++ (if config.enable_file_line then place m.file m.line else [])
    ++ m.text
    ++ (10 ∷ [])

-- A line on the stream.
pub put : Config → List ℕ → List ℕ → Option (List ℕ)
put config written text = elim config.output_stream [
  | none ↦ none
  | some stream ↦ some (written ++ text)
]

pub log : Message → Logger → Option Logger
unfolding put
log m l =
    if ltb m.level l.config.min_level
    then some l
    else put l.config l.written (format_line l.config m) >>= λ w. some (record l { written = w })

-- The cells of a row from column `j` on, for the row that starts at byte `i`.
hex_cells : List ℕ → ℕ → ℕ → ℕ → ℕ → Option (List ℕ)
hex_cells bytes size i j zero = some []
hex_cells bytes size i j (suc n) =
    (if ltb (add_size i j) size
      then (get_elem? bytes (add_size i j) >>= λ b. some (pad 2 48 (hexadecimal b) ++ (32 ∷ [])))
      else some (32 ∷ 32 ∷ 32 ∷ []))
    >>= λ cell. hex_cells bytes size i (j + 1) n >>= λ rest.
        some (cell ++ (if j == 7 then 32 ∷ [] else []) ++ rest)

printable : ℕ → ℕ
printable c = if leb 32 c && leb c 126 then c else 46

ascii_cells : List ℕ → ℕ → ℕ → ℕ → ℕ → Option (List ℕ)
unfolding printable
ascii_cells bytes size i j zero = some []
ascii_cells bytes size i j (suc n) =
    let rest = ascii_cells bytes size i (j + 1) n in
    if ltb (add_size i j) size
    then (get_elem? bytes (add_size i j) >>= λ b. rest >>= λ r. some (printable b ∷ r))
    else some []

pub dump_row : List ℕ → ℕ → ℕ → Option (List ℕ)
unfolding hex_cells ascii_cells
dump_row bytes size i = hex_cells bytes size i 0 16 >>= λ hex.
    ascii_cells bytes size i 0 16 >>= λ ascii.
    some (
      codes "  "
      ++ pad 4 48 (hexadecimal i)
      ++ codes ": "
      ++ hex
      ++ codes " "
      ++ ascii
      ++ (10 ∷ []))

-- The loop over the rows, from byte `i` on; the fuel is more than the number of rows left.
pub dump_rows : ℕ → List ℕ → ℕ → ℕ → Option (List ℕ)
dump_rows zero bytes size i = none
dump_rows (suc fuel) bytes size i =
    let rest = dump_rows fuel bytes size (add_size i 16) in
    if ltb i size
    then (dump_row bytes size i >>= λ row. rest >>= λ rows. some (row ++ rows))
    else some []

pub hex_dump : List ℕ → List ℕ → ℕ → Logger → Option Logger
unfolding dump_rows put
hex_dump label bytes size l =
    if ltb log_level_debug l.config.min_level
    then some l
    else dump_rows (suc size) bytes size 0 >>= λ rows.
        put l.config l.written
          (label ++ codes " (" ++ decimal size ++ codes " bytes):" ++ (10 ∷ rows))
        >>= λ w. some (record l { written = w })

-- ===== src/Utils/Logger/Filter.antt =====
-- Which messages logger_log of src/utils/logger.c puts out.
use embed_rtos.Base.{
  ℕ, ◌≡◌, refl, ap, ◌∙◌, Option, none, some, List, [], ◌∷◌, ◌++◌, ◌>>=◌, append-nil, append_assoc,
  Bool-cases, Option-cases, inl, inr, if◌then◌else◌, ltb,
}
use embed_rtos.Utils.Logger.{Logger, Config, Message, init, set_level, format_line, put, log}

-- Calls of logger_log.
pub log_all : List Message → Logger → Option Logger
log_all [] l = some l
log_all (m ∷ ms) l = log m l >>= log_all ms

-- The lines of the messages whose level is at least the least one, in their order.
pub selected : Config → List Message → List ℕ
selected config [] = []
selected config (m ∷ ms) =
    if ltb m.level config.min_level
    then selected config ms
    else format_line config m ++ selected config ms

pub put-stream :
    (config : Config) (written text : List ℕ) (stream : ℕ)
    → config.output_stream ≡ some stream
    → put config written text ≡ some (written ++ text)
unfolding put
put-stream config written text stream h = rw h refl

log_all-selected :
    (ms : List Message) (l : Logger) (stream : ℕ)
    → l.config.output_stream ≡ some stream
    → log_all ms l ≡ some (record l { written = l.written ++ selected l.config ms })
unfolding log_all selected log
log_all-selected [] l stream h = rw append-nil refl
log_all-selected (m ∷ ms) l stream h = elim (Bool-cases (ltb m.level l.config.min_level)) [
  | inl e ↦ rw (e, ◌>>=◌) (log_all-selected ms l stream h)
  | inr e ↦
      let l' : Logger = record l { written = l.written ++ format_line l.config m } in
      rw (e, put-stream l.config l.written (format_line l.config m) stream h, ◌>>=◌)
        (log_all-selected ms l' stream h
          ∙ ap (λ w. some (record l { written = w }))
              (append_assoc l.written (format_line l.config m) (selected l.config ms)))
]

init-stream :
    (stdout : ℕ) (config : Option Config) (l : Logger)
    → (stream : ℕ) × ((init stdout config l).config.output_stream ≡ some stream)
unfolding init
init-stream stdout none l = elim (Option-cases l.config.output_stream) [
  | inl e ↦ (stdout, rw e refl)
  | inr p ↦ (p.0, rw p.1 refl)
]
init-stream stdout (some c) l = elim (Option-cases c.output_stream) [
  | inl e ↦ (stdout, rw e refl)
  | inr p ↦ (p.0, rw p.1 refl)
]

-- After logger_init, with a configuration or without, and logger_set_level, calls of logger_log never
-- use a null stream, and put out the lines of exactly the messages whose level is at least the one
-- that was set, in their order.
pub log_all-set_level :
    (stdout : ℕ) (config : Option Config) (level : ℕ) (ms : List Message) (l : Logger)
    → let l' = set_level level (init stdout config l) in
      (log_all ms l' ≡ some (record l' { written = l'.written ++ selected l'.config ms }))
      × (l'.config.min_level ≡ level)
unfolding set_level
log_all-set_level stdout config level ms l =
    let stream = init-stream stdout config l in
    (log_all-selected ms (set_level level (init stdout config l)) stream.0 stream.1, refl)

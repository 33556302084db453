-- ===== src/Utils/Logger/Examples.antt =====
-- The logger of src/utils/logger.c at work.
use embed_rtos.Base.{ℕ, ◌≡◌, none, some, [], ◌∷◌, ◌++◌, codes}
use embed_rtos.Utils.Logger.{Logger, Message, default_config, init, set_level}
use embed_rtos.Utils.Logger.Filter.{log_all, selected, log_all-set_level}

abbrev unused : Logger
unused = record { config = default_config; written = [] }

abbrev message : ℕ → Message
message level = record {
  level = level;
  file = codes "src/main.c";
  line = 7;
  text = codes "hi";
  clock = record { hour = 9; minute = 5; second = 30 };
}

log_all-set_level_example :
    (log_all (message 1 ∷ message 3 ∷ []) (set_level 2 (init 1 none unused))
      ≡ some (record (set_level 2 (init 1 none unused)) {
        written =
            (set_level 2 (init 1 none unused)).written
            ++ selected (set_level 2 (init 1 none unused)).config (message 1 ∷ message 3 ∷ []);
      }))
    × ((set_level 2 (init 1 none unused)).config.min_level ≡ 2)
log_all-set_level_example = log_all-set_level 1 none 2 (message 1 ∷ message 3 ∷ []) unused

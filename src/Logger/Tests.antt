-- ===== src/Logger/Tests.antt =====
-- The loggers of include/log.h and src/log.cc on concrete appenders.
use learn_server_concise.Base.{ℕ, refl, List, [], ◌∷◌, Returns, some, none, ◌==◌, if◌then◌else◌}
use learn_server_concise.LogFormatter.{LogEvent, debug, info, error, content_item}
use learn_server_concise.Logger.{Appender, Logger, log}
use learn_server_concise.Logger.Output.{Writes, log-Writes}

abbrev dash : ℕ → List ℕ
dash t = 45 ∷ []

abbrev greeting : LogEvent
greeting = record {
  level = info;
  filename = 102 ∷ [];
  line = 7;
  thread_id = 1;
  fiber_id = 2;
  time = 0;
  content = 104 ∷ 105 ∷ [];
}

-- Appender 1 takes every event, 2 only errors; 3 has no formatter yet.
abbrev store : ℕ → Appender
store p =
    if p == 1
    then record { level = debug; formatter = some (content_item ∷ []); lines = [] }
    else if p == 2
    then record { level = error; formatter = some (content_item ∷ []); lines = [] }
    else record { level = debug; formatter = none; lines = [] }

abbrev logger : Logger
logger = record { level = debug; formatter = content_item ∷ []; appender_list = 1 ∷ 2 ∷ [] }

log-Writes_example :
    Returns (Writes dash greeting (1 ∷ 2 ∷ []) store) (log dash greeting logger store)
log-Writes_example = log-Writes dash greeting logger store (refl, (refl, tt))

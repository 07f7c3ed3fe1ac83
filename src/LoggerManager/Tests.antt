-- ===== src/LoggerManager/Tests.antt =====
-- The manager of the loggers in include/log.h and src/log.cc on a concrete configuration.
use learn_server_concise.Base.{ℕ, ◌≡◌, refl, List, [], ◌∷◌, some, none, stop, undefined, Returns}
use learn_server_concise.Config.{set_value}
use learn_server_concise.LogFormatter.{debug, error, LogEvent}
use learn_server_concise.Logger.{Logger, log}
use learn_server_concise.LoggerManager.{
  stdout_type, file_type, other_type, LogAppenderConfig, LogConfig, LoggerManager, same_configs,
  init_manager, get_logger, build_appender, Built, make_appender,
}
use learn_server_concise.LoggerManager.Loggers.{AllUsable, init_manager-Usable}
use learn_server_concise.LoggerManager.Settings.{set_value-same_names}

-- A logger "a" for errors, to a file in a format of its own and to the terminal.
abbrev to_file : LogAppenderConfig
to_file = record { type = file_type; level = error; formatter = 37 ∷ 109 ∷ []; file = 102 ∷ [] }

abbrev to_terminal : LogAppenderConfig
to_terminal = record { type = stdout_type; level = debug; formatter = []; file = [] }

abbrev a_logger : LogConfig
a_logger = record {
  name = 97 ∷ [];
  level = error;
  formatter = 37 ∷ 109 ∷ 37 ∷ 110 ∷ [];
  appender = to_file ∷ to_terminal ∷ [];
}

abbrev empty_manager : LoggerManager
empty_manager = record {
  loggers = [];
  store = λ p. record { level = debug; formatter = none; lines = [] };
  next = 1;
}

abbrev an_event : LogEvent
an_event = record {
  level = error;
  filename = [];
  line = 3;
  thread_id = 1;
  fiber_id = 0;
  time = 0;
  content = 104 ∷ [];
}

init_manager-Usable_example :
    Returns
      (λ m'.
        AllUsable m'
        × ((name : List ℕ)
            → Returns
                (λ o.
                  (l : Logger) × (o ≡ some l)
                  × Returns (λ s. Unit {0}) (log (λ t. []) an_event l m'.store))
                (get_logger name m')))
      (init_manager (a_logger ∷ []) empty_manager)
init_manager-Usable_example =
    init_manager-Usable (λ t. []) an_event (a_logger ∷ []) empty_manager ((refl, (refl, tt)), tt) tt

set_value-same_names_example :
    set_value same_configs
      (record a_logger { level = debug; appender = [] } ∷ [])
      (record { value = a_logger ∷ []; callbacks = (0, 5) ∷ [] })
    ≡ (record { value = a_logger ∷ []; callbacks = (0, 5) ∷ [] }, [])
set_value-same_names_example =
    set_value-same_names (record a_logger { level = debug; appender = [] } ∷ [])
      (record { value = a_logger ∷ []; callbacks = (0, 5) ∷ [] }) refl

-- An appender of an unknown type is a null pointer that is used.
unknown_type_test :
    (b : Built) → build_appender (record to_terminal { type = other_type 7 }) b ≡ stop undefined
unfolding build_appender make_appender
unknown_type_test b = refl

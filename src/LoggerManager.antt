-- ===== src/LoggerManager.antt =====
-- class __LoggerManager of include/log.h and src/log.cc, and the settings that it makes loggers from.
-- m_logger_map is a list of names with their loggers, of which one may be a null pointer; the
-- appenders are allocated one after the other, from the address `next` on.
pub mod Appenders
pub mod Loggers
pub mod Settings
mod Tests
use learn_server_concise.Base.{
  ℕ, zero, suc, ◌+◌, Bool, true, false, not, ◌&&◌, ◌||◌, List, [], ◌∷◌, ◌++◌, Option, none, some,
  ◌==◌, if◌then◌else◌, Outcome, ok, stop, undefined, ◌>>=◌,
}
use learn_server_concise.Config.{same_string}
use learn_server_concise.LogFormatter.{Level, unknown, debug, FormatItem, init}
use learn_server_concise.Logger.{
  Appender, Logger, number, set_formatter, write_appender, add_appender,
}

-- LogAppenderConfig::Type, whose value may be any number that was read from the settings.
pub data AppenderType : Type 0 where
  stdout_type file_type : AppenderType
  other_type : ℕ → AppenderType

pub record LogAppenderConfig : Type 0 where
  pub type : AppenderType
  pub level : Level
  pub formatter : List ℕ
  pub file : List ℕ

pub record LogConfig : Type 0 where
  pub name : List ℕ
  pub level : Level
  pub formatter : List ℕ
  pub appender : List LogAppenderConfig

-- LogConfig::operator==
unfoldable pub same_config : LogConfig → LogConfig → Bool
unfolding same_string
same_config a b = same_string a.name b.name

-- `==` on std::vector<LogConfig>
unfoldable pub same_configs : List LogConfig → List LogConfig → Bool
unfolding same_config
same_configs [] [] = true
same_configs [] (b ∷ bs) = false
same_configs (a ∷ xs) [] = false
same_configs (a ∷ xs) (b ∷ bs) = same_config a b && same_configs xs bs

pub record LoggerManager : Type 0 where
  pub loggers : List (List ℕ × Option Logger)
  pub store : ℕ → Appender
  pub next : ℕ

-- m_logger_map.find and erase
unfoldable pub find_logger : List ℕ → List (List ℕ × Option Logger) → Option (Option Logger)
unfolding same_string
find_logger name [] = none
find_logger name (e ∷ es) =
    let rest = find_logger name es in if same_string e.0 name then some e.1 else rest

unfoldable pub erase_logger : List ℕ → List (List ℕ × Option Logger) → List (List ℕ × Option Logger)
unfolding same_string
erase_logger name [] = []
erase_logger name (e ∷ es) =
    let rest = erase_logger name es in if same_string e.0 name then rest else e ∷ rest

-- "global"
abbrev pub global_name : List ℕ
global_name = 103 ∷ 108 ∷ 111 ∷ 98 ∷ 97 ∷ 108 ∷ []

-- "[%d] [%p] [T:%t F:%F]%T%m%n"
abbrev pub default_pattern : List ℕ
default_pattern =
    91 ∷ 37 ∷ 100 ∷ 93 ∷ 32 ∷ 91 ∷ 37 ∷ 112 ∷ 93 ∷ 32 ∷ 91 ∷ 84 ∷ 58 ∷ 37 ∷ 116 ∷ 32 ∷ 70 ∷ 58 ∷ 37
    ∷ 70 ∷ 93 ∷ 37 ∷ 84 ∷ 37 ∷ 109 ∷ 37 ∷ 110 ∷ []

-- Logger::Logger(const std::string&, LogLevel::Level, const std::string&)
pub make_logger : Level → List ℕ → Outcome Logger
make_logger level pattern = do
  items ← init pattern
  ok (record { level = level; formatter = items; appender_list = [] })

-- The appender that the switch of `init` makes; for an invalid type the pointer stays null.
pub make_appender : LogAppenderConfig → Option Appender
make_appender a = elim a.type [
  | other_type n ↦ none
  | _ ↦ some (record { level = a.level; formatter = none; lines = [] })
]

abbrev pub is_empty_string : List ℕ → Bool
is_empty_string [] = true
is_empty_string (c ∷ cs) = false

-- A logger with the appenders that are there.
pub record Built : Type 0 where
  pub logger : Logger
  pub store : ℕ → Appender
  pub next : ℕ

-- The body of the loop over a logger's appenders: setFormatter and addAppender use a null pointer.
-- The items of an empty pattern are not used.
pub build_appender : LogAppenderConfig → Built → Outcome Built
build_appender a b = elim (make_appender a) [
  | none ↦ stop undefined
  | some made ↦ (do
    items ← init a.formatter
    let placed = write_appender b.store b.next made
    let ready : ℕ → Appender =
        if is_empty_string a.formatter then placed else set_formatter b.next items placed
    let added = add_appender b.next b.logger ready
    ok (record { logger = added.0; store = added.1; next = b.next + 1 }))
]

pub build_appenders : List LogAppenderConfig → Built → Outcome Built
unfolding build_appender
build_appenders [] b = ok b
build_appenders (a ∷ rest) b = build_appender a b >>= λ b'. build_appenders rest b'

-- The body of the loop over the configured loggers.
pub build_logger : LogConfig → LoggerManager → Outcome LoggerManager
unfolding make_logger build_appenders
build_logger c m = do
  logger ← make_logger c.level c.formatter
  built ← build_appenders c.appender (record { logger = logger; store = m.store; next = m.next })
  ok (record {
    loggers = (c.name, some built.logger) ∷ erase_logger c.name m.loggers;
    store = built.store;
    next = built.next;
  })

pub build_loggers : List LogConfig → LoggerManager → Outcome LoggerManager
unfolding build_logger
build_loggers [] m = ok m
build_loggers (c ∷ cs) m = build_logger c m >>= λ m'. build_loggers cs m'

-- The global logger with its StdoutLogAppender
pub make_global : LoggerManager → Outcome LoggerManager
unfolding make_logger
make_global m = do
  logger ← make_logger debug default_pattern
  let appender : Appender = record { level = debug; formatter = none; lines = [] }
  let added = add_appender m.next logger (write_appender m.store m.next appender)
  ok (record {
    loggers = (global_name, some added.0) ∷ erase_logger global_name m.loggers;
    store = added.1;
    next = m.next + 1;
  })

-- __LoggerManager::ensureGlobalLoggerExists
pub ensure_global : LoggerManager → Outcome LoggerManager
unfolding make_global
ensure_global m =
    let made = make_global m in
    elim (find_logger global_name m.loggers) [
      | none ↦ made
      | some p ↦ elim p [ none ↦ made | some l ↦ ok m ]
    ]

-- __LoggerManager::init, where `configs` is the value of the setting "logs".
pub init_manager : List LogConfig → LoggerManager → Outcome LoggerManager
unfolding build_loggers ensure_global
init_manager configs m = build_loggers configs m >>= λ m'. ensure_global m'

-- __LoggerManager::getLogger: dereferencing `end()` is undefined.
pub get_logger : List ℕ → LoggerManager → Outcome (Option Logger)
get_logger name m = elim (find_logger name m.loggers) [
  | some p ↦ ok p
  | none ↦ elim (find_logger global_name m.loggers) [ none ↦ stop undefined | some p ↦ ok p ]
]

-- __LoggerManager::getGlobal
pub get_global : LoggerManager → Outcome (Option Logger)
unfolding get_logger
get_global m = get_logger global_name m

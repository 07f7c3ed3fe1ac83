-- ===== src/Logger.antt =====
-- class Logger and the appenders of include/log.h and src/log.cc. An appender is an address in
-- `appenders`; its output, standard output or a file, is the list of lines written to it.
pub mod Appenders
pub mod Output
mod Tests
use learn_server_concise.Base.{
  ℕ, ◌+◌, Bool, true, false, List, [], ◌∷◌, ◌++◌, Option, none, some, ltb, ◌==◌, if◌then◌else◌,
  Outcome, ok, stop, undefined, ◌>>=◌,
}
use learn_server_concise.LogFormatter.{
  Level, unknown, debug, info, warn, error, fatal, other_level, LogEvent, FormatItem, format,
}

-- The number of a level.
abbrev pub number : Level → ℕ
number unknown = 0
number debug = 1
number info = 2
number warn = 3
number error = 4
number fatal = 5
number (other_level n) = n

-- LogAppender, with the lines that were written; a formatter is the list of its items.
pub record Appender : Type 0 where
  pub level : Level
  pub formatter : Option (List FormatItem)
  pub lines : List (List ℕ)

pub record Logger : Type 0 where
  pub level : Level
  pub formatter : List FormatItem
  pub appender_list : List ℕ

abbrev pub write_appender : (ℕ → Appender) → ℕ → Appender → ℕ → Appender
write_appender store p a q = if p == q then a else store q

-- LogAppender::setFormatter
abbrev pub set_formatter : ℕ → List FormatItem → (ℕ → Appender) → ℕ → Appender
set_formatter p items store = write_appender store p (record (store p) { formatter = some items })

-- Logger::addAppender
pub add_appender : ℕ → Logger → (ℕ → Appender) → Logger × (ℕ → Appender)
add_appender p l store =
    let ready : ℕ → Appender = elim (store p).formatter [
      | none ↦ set_formatter p l.formatter store
      | some f ↦ store
    ] in
    (record l { appender_list = l.appender_list ++ p ∷ [] }, ready)

-- The list without the first `p`, as std::find and erase leave it.
erase_first : ℕ → List ℕ → List ℕ
erase_first p [] = []
erase_first p (q ∷ qs) = let rest = erase_first p qs in if q == p then qs else q ∷ rest

-- Logger::delAppender
pub del_appender : ℕ → Logger → Logger
unfolding erase_first
del_appender p l = record l { appender_list = erase_first p l.appender_list }

-- StdoutLogAppender::log and FileLogAppender::log, which differ in where they write.
pub log_to : (ℕ → List ℕ) → LogEvent → ℕ → (ℕ → Appender) → Outcome (ℕ → Appender)
log_to local_time ev p store =
    if ltb (number ev.level) (number (store p).level) then ok store else elim (store p).formatter [
      | none ↦ stop undefined
      | some items ↦ ok (
          write_appender store p
            (record (store p) { lines = (store p).lines ++ format local_time ev items ∷ [] }))
    ]

pub log_all : (ℕ → List ℕ) → LogEvent → List ℕ → (ℕ → Appender) → Outcome (ℕ → Appender)
log_all local_time ev [] store = ok store
log_all local_time ev (p ∷ ps) store =
    log_to local_time ev p store >>= λ s. log_all local_time ev ps s

-- Logger::log
pub log : (ℕ → List ℕ) → LogEvent → Logger → (ℕ → Appender) → Outcome (ℕ → Appender)
log local_time ev l store =
    if ltb (number ev.level) (number l.level)
    then ok store
    else log_all local_time ev l.appender_list store

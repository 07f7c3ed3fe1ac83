-- ===== src/LogFormatter.antt =====
-- class LogFormatter of include/log.h and src/log.cc, with its items: the pattern of a log line. A
-- string is the list of its bytes. `local_time` is what localtime_r and strftime make of a time.
pub mod Expansion
mod Tests
use Prim.Native.Nat.{◌/◌}
use learn_server_concise.Base.{
  ℕ, zero, suc, ◌+◌, ◌%◌, Bool, true, false, List, [], ◌∷◌, ◌++◌, ltb, ◌==◌, if◌then◌else◌, length,
  Outcome, ok, stop, out_of_fuel, ◌>>=◌,
}

-- LogLevel::Level, whose value may be any number that was read from the settings.
pub data Level : Type 0 where
  unknown debug info warn error fatal : Level
  other_level : ℕ → Level

-- LogEvent
pub record LogEvent : Type 0 where
  pub level : Level
  pub filename : List ℕ
  pub line : ℕ
  pub thread_id : ℕ
  pub fiber_id : ℕ
  pub time : ℕ
  pub content : List ℕ

-- LogLevel::levelToString
pub level_to_string : Level → List ℕ
level_to_string unknown = 85 ∷ 78 ∷ 75 ∷ 78 ∷ 79 ∷ 87 ∷ 78 ∷ []
level_to_string debug = 68 ∷ 69 ∷ 66 ∷ 85 ∷ 71 ∷ []
level_to_string info = 73 ∷ 78 ∷ 70 ∷ 79 ∷ []
level_to_string warn = 87 ∷ 65 ∷ 82 ∷ 78 ∷ []
level_to_string error = 69 ∷ 82 ∷ 82 ∷ 79 ∷ 82 ∷ []
level_to_string fatal = 70 ∷ 65 ∷ 84 ∷ 65 ∷ 76 ∷ []
level_to_string (other_level n) = []

-- The subclasses of LogFormatter::FormatItem.
pub data FormatItem : Type 0 where
  plain_item : List ℕ → FormatItem
  level_item filename_item line_item time_item thread_id_item fiber_id_item : FormatItem
  content_item new_line_item percent_sign_item tab_item : FormatItem

-- `out << n` for a number of at most `k` digits
unfoldable pub digits : ℕ → ℕ → List ℕ
digits zero n = []
digits (suc k) n =
    let rest = digits k (n / 10) in if ltb n 10 then (48 + n) ∷ [] else rest ++ (48 + n % 10) ∷ []

-- `out << n` for a uint32_t
unfoldable pub decimal : ℕ → List ℕ
unfolding digits
decimal n = digits 10 n

-- FormatItem::format of each subclass
pub format_item : (ℕ → List ℕ) → LogEvent → FormatItem → List ℕ
format_item local_time ev (plain_item s) = s
format_item local_time ev level_item = level_to_string ev.level
format_item local_time ev filename_item = ev.filename
format_item local_time ev line_item = decimal ev.line
format_item local_time ev time_item = local_time ev.time
format_item local_time ev thread_id_item = decimal ev.thread_id
format_item local_time ev fiber_id_item = decimal ev.fiber_id
format_item local_time ev content_item = ev.content
format_item local_time ev new_line_item = 10 ∷ []
format_item local_time ev percent_sign_item = 37 ∷ []
format_item local_time ev tab_item = 9 ∷ []

-- `format_item_map`, and the item for a letter that it does not have
pub item_of : ℕ → FormatItem
item_of c =
    if c == 112
    then level_item
    else if c == 102
    then filename_item
    else if c == 108
    then line_item
    else if c == 100
    then time_item
    else if c == 116
    then thread_id_item
    else if c == 70
    then fiber_id_item
    else if c == 109
    then content_item
    else if c == 110
    then new_line_item
    else if c == 37
    then percent_sign_item
    else if c == 84
    then tab_item
    else plain_item
        (60 ∷ 101 ∷ 114 ∷ 114 ∷ 111 ∷ 114 ∷ 32 ∷ 102 ∷ 111 ∷ 114 ∷ 109 ∷ 97 ∷ 116 ∷ 62 ∷ [])

-- PARSE_STATUS
pub data ParseStatus : Type 0 where
  scan_status create_status : ParseStatus

-- What the inner loop of LogFormatter::init leaves: the plain text, whether a '%' ended it, and what
-- is behind the '%'.
pub record Scanned : Type 0 where
  pub plain : List ℕ
  pub found : Bool
  pub rest : List ℕ

pub scan_plain : List ℕ → Scanned
scan_plain [] = record { plain = []; found = false; rest = [] }
scan_plain (c ∷ cs) =
    let later = scan_plain cs in
    if c == 37
    then record { plain = []; found = true; rest = cs }
    else record { plain = c ∷ later.plain; found = later.found; rest = later.rest }

-- The loop of LogFormatter::init on what is left of the pattern, for at most the given number of rounds.
pub parse : ℕ → ParseStatus → List ℕ → Outcome (List FormatItem)
parse rounds status [] = ok []
parse zero status (c ∷ cs) = stop out_of_fuel
parse (suc n) scan_status (c ∷ cs) =
    let s = scan_plain (c ∷ cs) in
    parse n (if s.found then create_status else scan_status) s.rest >>= λ items.
    ok (plain_item s.plain ∷ items)
parse (suc n) create_status (c ∷ cs) = parse n scan_status cs >>= λ items. ok (item_of c ∷ items)

-- LogFormatter::init
pub init : List ℕ → Outcome (List FormatItem)
init pattern = parse (length pattern) scan_status pattern

-- LogFormatter::format
pub format : (ℕ → List ℕ) → LogEvent → List FormatItem → List ℕ
format local_time ev [] = []
format local_time ev (i ∷ is) = format_item local_time ev i ++ format local_time ev is

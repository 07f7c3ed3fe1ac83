-- ===== src/LogFormatter/Tests.antt =====
-- The patterns of include/log.h and src/log.cc on concrete lines.
use learn_server_concise.Base.{
  ℕ, ◌≡◌, refl, List, [], ◌∷◌, Returns, Option, some, none, Outcome, ok, stop,
}
use learn_server_concise.LogFormatter.{
  LogEvent, info, FormatItem, scan_status, init, format, parse, scan_plain, item_of, format_item,
  level_to_string,
}
use learn_server_concise.LogFormatter.Expansion.{expand, init-expand}

-- Every time prints as a dash.
abbrev dash : ℕ → List ℕ
dash t = 45 ∷ []

-- An INFO event with the text "hi".
abbrev greeting : LogEvent
greeting = record {
  level = info;
  filename = 102 ∷ [];
  line = 7;
  thread_id = 1;
  fiber_id = 2;
  time = 0;
  content = 104 ∷ 105 ∷ [];
}

-- "[%p] %m%"
abbrev pattern_with_end : List ℕ
pattern_with_end = 91 ∷ 37 ∷ 112 ∷ 93 ∷ 32 ∷ 37 ∷ 109 ∷ 37 ∷ []

init-expand_example :
    Returns
      (λ items. format dash greeting items ≡ expand dash greeting scan_status pattern_with_end)
      (init pattern_with_end)
init-expand_example = init-expand dash greeting pattern_with_end

line_printed : Outcome (List FormatItem) → Option (List ℕ)
unfolding format format_item level_to_string
line_printed (ok items) = some (format dash greeting items)
line_printed (stop e) = none

-- It prints "[INFO] hi".
line_test :
    line_printed (init pattern_with_end) ≡ some (91 ∷ 73 ∷ 78 ∷ 70 ∷ 79 ∷ 93 ∷ 32 ∷ 104 ∷ 105 ∷ [])
unfolding line_printed init parse scan_plain item_of
line_test = refl

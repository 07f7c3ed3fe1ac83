-- ===== src/LogFormatter/Expansion.antt =====
-- What a pattern stands for, read byte by byte, and that the items of LogFormatter::init print that.
use learn_server_concise.Base.{
  ℕ, zero, suc, ◌≤◌, ◌≡◌, refl, sym, ap, ◌∙◌, true, List, [], ◌∷◌, ◌++◌, ◌==◌, if◌then◌else◌,
  length, Returns, Returns-bind, Returns-weaken, Returns-value, ok, arith, Bool-cases, inl, inr,
}
use learn_server_concise.LogFormatter.{
  Level, LogEvent, FormatItem, format_item, item_of, ParseStatus, scan_status, create_status,
  scan_plain, parse, init, format,
}

-- A text with every '%' doubled.
pub escape : List ℕ → List ℕ
escape [] = []
escape (c ∷ cs) = let rest = escape cs in if c == 37 then 37 ∷ 37 ∷ rest else c ∷ rest

module _ (local_time : ℕ → List ℕ) (ev : LogEvent) where
  -- The line that a pattern stands for: bytes print themselves, '%' and the byte behind it print an
  -- item, and a '%' at the end prints nothing.
  pub expand : ParseStatus → List ℕ → List ℕ
  expand scan_status [] = []
  expand scan_status (c ∷ cs) =
      let plain = c ∷ expand scan_status cs in
      let item = expand create_status cs in if c == 37 then item else plain
  expand create_status [] = []
  expand create_status (c ∷ cs) = format_item local_time ev (item_of c) ++ expand scan_status cs

  expand-scan_plain :
      (cs : List ℕ)
      → (expand scan_status cs
          ≡ (scan_plain cs).plain
            ++ expand
                (if (scan_plain cs).found then create_status else scan_status)
                (scan_plain cs).rest)
        × (length (scan_plain cs).rest ≤ length cs)
  unfolding expand scan_plain
  expand-scan_plain [] = (refl, omega arith)
  expand-scan_plain (c ∷ cs) = elim (Bool-cases (c == 37)) [
    | inl e ↦ rw e (refl, omega arith)
    | inr e ↦ rw e (ap (◌∷◌ c) (expand-scan_plain cs).0, omega (arith, (expand-scan_plain cs).1))
  ]

  -- With a byte in front, at least one byte less is left.
  rest-lt : (c : ℕ) (cs : List ℕ) → length (scan_plain (c ∷ cs)).rest ≤ length cs
  unfolding scan_plain
  rest-lt c cs = elim (Bool-cases (c == 37)) [
    | inl e ↦ rw e (omega arith)
    | inr e ↦ rw e (expand-scan_plain cs).1
  ]

  parse_lem :
      (n : ℕ) (status : ParseStatus) (cs : List ℕ)
      → length cs ≤ n
      → Returns (λ items. format local_time ev items ≡ expand status cs) (parse n status cs)
  unfolding parse format expand format_item
  parse_lem n scan_status [] h = refl
  parse_lem n create_status [] h = refl
  parse_lem zero status (c ∷ cs) h = absurd (omega arith)
  parse_lem (suc n) scan_status (c ∷ cs) h =
      let s = scan_plain (c ∷ cs) in
      let status = if s.found then create_status else scan_status in
      Returns-bind _ _ (parse n status s.rest) _
        (parse_lem n status s.rest (omega (arith, rest-lt c cs)))
        (λ items e. ap (◌++◌ s.plain) e ∙ sym (expand-scan_plain (c ∷ cs)).0)
  parse_lem (suc n) create_status (c ∷ cs) h =
      Returns-bind _ _ (parse n scan_status cs) _ (parse_lem n scan_status cs (omega arith))
        (λ items e. ap (◌++◌ (format_item local_time ev (item_of c))) e)

  -- LogFormatter::init terminates on every pattern, within as many rounds as the pattern has bytes, and
  -- the items that it makes print the line that the pattern stands for, read byte by byte.
  pub init-expand :
      (pattern : List ℕ)
      → Returns (λ items. format local_time ev items ≡ expand scan_status pattern) (init pattern)
  unfolding init
  init-expand pattern = parse_lem (length pattern) scan_status pattern (omega arith)

  thirty_seven : (c : ℕ) → (c == 37) ≡ true → 37 ≡ c
  thirty_seven c e = ground arith

  expand-escape : (s : List ℕ) → expand scan_status (escape s) ≡ s
  unfolding expand escape item_of format_item
  expand-escape [] = refl
  expand-escape (c ∷ cs) = elim (Bool-cases (c == 37)) [
    | inl e ↦ rw e (ap (◌∷◌ 37) (expand-escape cs) ∙ ap (λ x. x ∷ cs) (thirty_seven c e))
    | inr e ↦ rw e (rw e (ap (◌∷◌ c) (expand-escape cs)))
  ]

  -- Every text can be written as a pattern: with each '%' doubled it prints as it is.
  pub init-escape :
      (s : List ℕ) → Returns (λ items. format local_time ev items ≡ s) (init (escape s))
  init-escape s =
      Returns-weaken _ _ (init (escape s)) (init-expand (escape s)) (λ items e. e ∙ expand-escape s)

-- Making a formatter never fails, whatever the pattern.
pub init-returns : (pattern : List ℕ) → (items : List FormatItem) × (init pattern ≡ ok items)
init-returns pattern =
    let r = Returns-value _ (init pattern) (init-expand (λ t. []) blank pattern) in (r.0, r.1)
  where
    blank : LogEvent
    blank = record {
      level = Level.unknown;
      filename = [];
      line = 0;
      thread_id = 0;
      fiber_id = 0;
      time = 0;
      content = [];
    }

-- ===== src/Logger/Output.antt =====
-- What Logger::log writes.
use mathlib.Core.List.{append-nil, append_assoc}
use learn_server_concise.Base.{
  ℕ, ◌≡◌, refl, sym, ◌∙◌, ap, true, List, [], ◌∷◌, ◌++◌, none, some, ltb, ◌==◌, if◌then◌else◌,
  Returns, Returns-bind, Returns-weaken, All, arith, Bool-cases, Option-cases, inl, inr,
}
use learn_server_concise.LogFormatter.{LogEvent, format}
use learn_server_concise.Logger.{number, Appender, Logger, write_appender, log_to, log_all, log}
use learn_server_concise.Logger.Appenders.{has_formatter, IsReady}

module _ (local_time : ℕ → List ℕ) (ev : LogEvent) where
  -- The line that an appender writes of the event, if its level lets it.
  abbrev pub line_of : Appender → List (List ℕ)
  line_of a =
      if ltb (number ev.level) (number a.level)
      then []
      else elim a.formatter [ none ↦ [] | some items ↦ format local_time ev items ∷ [] ]

  -- One such line for each time that `q` is in the list.
  abbrev pub lines_of : ℕ → Appender → List ℕ → List (List ℕ)
  lines_of q a [] = []
  lines_of q a (p ∷ ps) = let rest = lines_of q a ps in if p == q then line_of a ++ rest else rest

  -- What is written, and nothing else: `ps` are the appenders in the order of writing.
  pub record Writes (ps : List ℕ) (store s : ℕ → Appender) : Type 0 where
    pub lines : (q : ℕ) → (s q).lines ≡ (store q).lines ++ lines_of q (store q) ps
    pub levels : (q : ℕ) → (s q).level ≡ (store q).level
    pub formatters : (q : ℕ) → (s q).formatter ≡ (store q).formatter

  line-same :
      (store : ℕ → Appender) (p q : ℕ) → (p == q) ≡ true → line_of (store q) ≡ line_of (store p)
  line-same store p q e = let e' : q ≡ p = ground arith in ap (λ x. line_of (store x)) e'

  -- A write of what `line_of` says.
  written :
      (store : ℕ → Appender) (p : ℕ) (text : List (List ℕ))
      → line_of (store p) ≡ text
      → (q : ℕ)
      → (write_appender store p (record (store p) { lines = (store p).lines ++ text }) q).lines
        ≡ (store q).lines ++ lines_of q (store q) (p ∷ [])
  written store p text e q = elim (Bool-cases (p == q)) [
    | inl h ↦
        let e' : q ≡ p = ground arith in
        rw h (
          ap (λ x. (store x).lines ++ text) (sym e')
          ∙ ap (◌++◌ ((store q).lines)) (sym (append-nil _ ∙ line-same store p q h ∙ e)))
    | inr h ↦ rw h (sym (append-nil _))
  ]

  silent :
      (store : ℕ → Appender) (p : ℕ)
      → line_of (store p) ≡ []
      → (q : ℕ) → (store q).lines ≡ (store q).lines ++ lines_of q (store q) (p ∷ [])
  silent store p e q = elim (Bool-cases (p == q)) [
    | inl h ↦ rw h (
        sym (ap (◌++◌ ((store q).lines)) (append-nil _ ∙ line-same store p q h ∙ e) ∙ append-nil _))
    | inr h ↦ rw h (sym (append-nil _))
  ]

  log_to-Writes :
      (p : ℕ) (store : ℕ → Appender)
      → has_formatter store p ≡ true
      → Returns (Writes (p ∷ []) store) (log_to local_time ev p store)
  unfolding log_to
  log_to-Writes p store h = elim (Bool-cases (ltb (number ev.level) (number (store p).level))) [
    | inl f ↦ rw f (record {
      lines = silent store p (rw (f, line_of) refl);
      levels = λ q. refl;
      formatters = λ q. refl;
    })
    | inr f ↦ elim (Option-cases (store p).formatter) [
      | inl e ↦ absurd (ground arith)
      | inr (items, e) ↦
          rw (f, e, log_to)
            (record {
              lines = written store p (format local_time ev items ∷ []) (rw (f, e, line_of) refl);
              levels = λ q. ground arith;
              formatters = λ q. ground arith;
            })
    ]
  ]

  -- The formatters that were there are still there.
  still_ready :
      (ps qs : List ℕ) (store s : ℕ → Appender)
      → Writes ps store s
      → All (λ p. has_formatter store p ≡ true) qs
      → All (λ p. has_formatter s p ≡ true) qs
  still_ready ps [] store s w a = tt
  still_ready ps (q ∷ qs) store s w a =
      (rw (w.formatters q, has_formatter) a.0, still_ready ps qs store s w a.1)

  lines-same :
      (q : ℕ) (ps : List ℕ) (a b : Appender)
      → a.level ≡ b.level
      → a.formatter ≡ b.formatter
      → lines_of q a ps ≡ lines_of q b ps
  lines-same q [] a b l f = refl
  lines-same q (p ∷ ps) a b l f =
      let line : line_of a ≡ line_of b = rw (l, f, line_of) refl in
      elim (Bool-cases (p == q)) [
        | inl h ↦
            rw h (
              ap (λ x. x ++ lines_of q a ps) line ∙ ap (◌++◌ (line_of b)) (lines-same q ps a b l f))
        | inr h ↦ rw h (lines-same q ps a b l f)
      ]

  lines_of-cons :
      (q p : ℕ) (a : Appender) (ps : List ℕ) (before : List (List ℕ))
      → before ++ lines_of q a (p ∷ []) ++ lines_of q a ps ≡ before ++ lines_of q a (p ∷ ps)
  lines_of-cons q p a ps before = elim (Bool-cases (p == q)) [
    | inl h ↦ rw h (
        ap (λ x. before ++ x ++ lines_of q a ps) (append-nil (line_of a))
        ∙ append_assoc before (line_of a) (lines_of q a ps))
    | inr h ↦ rw h (ap (λ x. x ++ lines_of q a ps) (append-nil before))
  ]

  Writes-trans :
      (p : ℕ) (ps : List ℕ) (store s s' : ℕ → Appender)
      → Writes (p ∷ []) store s
      → Writes ps s s'
      → Writes (p ∷ ps) store s'
  Writes-trans p ps store s s' w w' = record {
    lines = λ q.
        w'.lines q
        ∙ ap (λ x. x ++ lines_of q (s q) ps) (w.lines q)
        ∙ ap (◌++◌ ((store q).lines ++ lines_of q (store q) (p ∷ [])))
            (lines-same q ps (s q) (store q) (w.levels q) (w.formatters q))
        ∙ lines_of-cons q p (store q) ps ((store q).lines);
    levels = λ q. w'.levels q ∙ w.levels q;
    formatters = λ q. w'.formatters q ∙ w.formatters q;
  }

  log_all-Writes :
      (ps : List ℕ) (store : ℕ → Appender)
      → All (λ p. has_formatter store p ≡ true) ps
      → Returns (Writes ps store) (log_all local_time ev ps store)
  unfolding log_all
  log_all-Writes [] store a = record {
    lines = λ q. sym (append-nil _);
    levels = λ q. refl;
    formatters = λ q. refl;
  }
  log_all-Writes (p ∷ ps) store a =
      Returns-bind (Writes (p ∷ []) store) (Writes (p ∷ ps) store) (log_to local_time ev p store) _
        (log_to-Writes p store a.0)
        (λ s w.
          Returns-weaken (Writes ps s) (Writes (p ∷ ps) store) (log_all local_time ev ps s)
            (log_all-Writes ps s (still_ready (p ∷ []) ps store s w a.1))
            (λ s' w'. Writes-trans p ps store s s' w w'))

  -- A logger whose appenders all have a formatter logs an event without a fault. An event below the
  -- logger's level is not written at all; any other is written once for each time that an appender
  -- is in the list, unless it is below that appender's level, and in the appender's own format. No
  -- other line is written, and no level or formatter changes.
  pub log-Writes :
      (l : Logger) (store : ℕ → Appender)
      → IsReady l store
      → Returns
          (Writes (if ltb (number ev.level) (number l.level) then [] else l.appender_list) store)
          (log local_time ev l store)
  unfolding log log_all
  log-Writes l store r = elim (Bool-cases (ltb (number ev.level) (number l.level))) [
    | inl e ↦ rw e (log_all-Writes [] store tt)
    | inr e ↦ rw e (log_all-Writes l.appender_list store r)
  ]

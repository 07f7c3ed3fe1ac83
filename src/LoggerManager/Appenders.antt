-- ===== src/LoggerManager/Appenders.antt =====
-- The appenders that the manager makes for a logger.
use learn_server_concise.Base.{
  ℕ, ◌≡◌, refl, ap, ◌∙◌, Bool, true, false, List, [], ◌∷◌, some, ◌==◌, ==_iff, if◌then◌else◌, All,
  All-append, Returns, Returns-bind, Returns-weaken, Bool-cases, inl, inr,
}
use mathlib.Core.Path.{subst}
use learn_server_concise.LogFormatter.{FormatItem}
use learn_server_concise.LogFormatter.Expansion.{init-returns}
use learn_server_concise.Logger.{Appender, Logger, set_formatter, write_appender, add_appender}
use learn_server_concise.Logger.Appenders.{
  has_formatter, IsReady, add_appender-Extends, add_appender-list,
}
use learn_server_concise.LoggerManager.{
  AppenderType, stdout_type, file_type, other_type, LogAppenderConfig, make_appender,
  is_empty_string, Built, build_appender, build_appenders,
}

-- An appender that has a formatter keeps one.
abbrev pub Extends : (ℕ → Appender) → (ℕ → Appender) → Type 0
Extends s s' = (q : ℕ) → has_formatter s q ≡ true → has_formatter s' q ≡ true

pub IsReady-Extends :
    (ps : List ℕ) (s s' : ℕ → Appender)
    → Extends s s'
    → All (λ q. has_formatter s q ≡ true) ps
    → All (λ q. has_formatter s' q ≡ true) ps
IsReady-Extends [] s s' x a = tt
IsReady-Extends (q ∷ qs) s s' x a = (x q a.0, IsReady-Extends qs s s' x a.1)

-- Placing an appender and adding it to a logger.
pub added_Extends :
    (p : ℕ) (l : Logger) (s s' : ℕ → Appender)
    → ((q : ℕ) → (p == q) ≡ false → s' q ≡ s q)
    → Extends s (add_appender p l s').1
added_Extends p l s s' same q h = elim (Bool-cases (p == q)) [
  | inl e ↦
      subst (λ x. has_formatter (add_appender p l s').1 x ≡ true) ((==_iff p q).0 e)
        (add_appender-Extends p p l s').0
  | inr e ↦ (add_appender-Extends p q l s').1 (rw (same q e, has_formatter) h)
]

-- The step of a loop over the appenders.
abbrev pub Grows : Built → Built → Type 0
Grows b b' =
    IsReady b'.logger b'.store × Extends b.store b'.store × (b'.logger.level ≡ b.logger.level)

-- An appender of a type that the class knows.
abbrev pub is_known : LogAppenderConfig → Bool
is_known a = elim a.type [ other_type n ↦ false | _ ↦ true ]

made_of :
    (a : LogAppenderConfig) (t : AppenderType)
    → is_known (record a { type = t }) ≡ true
    → (made : Appender) × (make_appender (record a { type = t }) ≡ some made)
unfolding make_appender
made_of a stdout_type k = (_, refl)
made_of a file_type k = (_, refl)
made_of a (other_type n) k = absurd (cc)

pub added-IsReady :
    (p : ℕ) (l : Logger) (s s' : ℕ → Appender)
    → ((q : ℕ) → (p == q) ≡ false → s' q ≡ s q)
    → IsReady l s
    → IsReady (add_appender p l s').0 (add_appender p l s').1
added-IsReady p l s s' same r = rw (add_appender-list p l s') (
    All-append _ l.appender_list (p ∷ [])
      (IsReady-Extends l.appender_list s (add_appender p l s').1 (added_Extends p l s s' same) r)
      ((add_appender-Extends p p l s').0, tt))

build_appender-Grows :
    (a : LogAppenderConfig) (b : Built)
    → is_known a ≡ true
    → IsReady b.logger b.store
    → Returns (Grows b) (build_appender a b)
unfolding build_appender
build_appender-Grows a b k r =
    let made = made_of a a.type k in
    let items = init-returns a.formatter in
    rw (made.1, items.1, build_appender)
      (
        added-IsReady b.next b.logger b.store _ (same made.0 items.0 (is_empty_string a.formatter))
            r,
        added_Extends b.next b.logger b.store _ (same made.0 items.0 (is_empty_string a.formatter)),
        ap (λ l. l.level) (add_appender-list b.next b.logger _),
      )
  where
    same :
        (made : Appender) (items : List FormatItem) (own : Bool) (q : ℕ)
        → (b.next == q) ≡ false
        → (if own
              then write_appender b.store b.next made
              else set_formatter b.next items (write_appender b.store b.next made))
            q
          ≡ b.store q
    same made items true q e = rw e refl
    same made items false q e = rw e refl

pub build_appenders-Grows :
    (as' : List LogAppenderConfig) (b : Built)
    → All (λ a. is_known a ≡ true) as'
    → IsReady b.logger b.store
    → Returns (Grows b) (build_appenders as' b)
unfolding build_appenders
build_appenders-Grows [] b k r = (r, (λ q h. h), refl)
build_appenders-Grows (a ∷ rest) b k r =
    Returns-bind (Grows b) (Grows b) (build_appender a b) _ (build_appender-Grows a b k.0 r)
      (λ b' g.
        Returns-weaken (Grows b') (Grows b) (build_appenders rest b')
          (build_appenders-Grows rest b' k.1 g.0)
          (λ b'' h. (h.0, (λ q z. h.1 q (g.1 q z)), h.2 ∙ g.2)))

-- ===== src/Logger/Appenders.antt =====
-- The list of appenders of a logger.
use learn_server_concise.Base.{
  ℕ, ◌≡◌, refl, ap, Bool, true, false, List, [], ◌∷◌, ◌++◌, none, some, ◌==◌, All, All-append,
  contains, arith, Bool-cases, Option-cases, inl, inr,
}
use learn_server_concise.LogFormatter.{FormatItem}
use learn_server_concise.Logger.{
  Appender, Logger, set_formatter, add_appender, erase_first, del_appender,
}

abbrev pub has_formatter : (ℕ → Appender) → ℕ → Bool
has_formatter store p = elim (store p).formatter [ none ↦ false | some items ↦ true ]

-- Every appender of the list has a formatter.
abbrev pub IsReady : Logger → (ℕ → Appender) → Type 0
IsReady l store = All (λ p. has_formatter store p ≡ true) l.appender_list

set_formatter_lem :
    (store : ℕ → Appender) (p q : ℕ) (items : List FormatItem)
    → has_formatter store q ≡ true
    → has_formatter (set_formatter p items store) q ≡ true
set_formatter_lem store p q items a = elim (Bool-cases (p == q)) [
  | inl h ↦ rw (h, has_formatter) refl
  | inr h ↦ rw (h, has_formatter) a
]

set_formatter-ready :
    (store : ℕ → Appender) (p : ℕ) (items : List FormatItem) (ps : List ℕ)
    → All (λ q. has_formatter store q ≡ true) ps
    → All (λ q. has_formatter (set_formatter p items store) q ≡ true) ps
set_formatter-ready store p items [] a = tt
set_formatter-ready store p items (q ∷ qs) a =
    (set_formatter_lem store p q items a.0, set_formatter-ready store p items qs a.1)

-- A logger whose appenders all have a formatter stays so when an appender is added, with a formatter
-- of its own or without.
pub add_appender-IsReady :
    (p : ℕ) (l : Logger) (store : ℕ → Appender)
    → IsReady l store
    → IsReady (add_appender p l store).0 (add_appender p l store).1
unfolding add_appender
add_appender-IsReady p l store r = elim (Option-cases (store p).formatter) [
  | inl e ↦
      rw (e, add_appender)
        (All-append _ l.appender_list (p ∷ [])
          (set_formatter-ready store p l.formatter l.appender_list r) (ground arith, tt))
  | inr (items, e) ↦
      rw (e, add_appender)
        (All-append _ l.appender_list (p ∷ []) r (rw (e, has_formatter) refl, tt))
]

erase_first-append :
    (p : ℕ) (ps : List ℕ) → contains p ps ≡ false → erase_first p (ps ++ p ∷ []) ≡ ps
unfolding erase_first
erase_first-append p [] c = ground arith
erase_first-append p (q ∷ qs) c = ground (arith, erase_first-append p qs)

-- Removing an appender that was just added, and was not in the list before, gives the logger back.
pub del_appender-add_appender :
    (p : ℕ) (l : Logger) (store : ℕ → Appender)
    → contains p l.appender_list ≡ false
    → del_appender p (add_appender p l store).0 ≡ l
unfolding del_appender add_appender
del_appender-add_appender p l store c =
    ap (λ ps. record l { appender_list = ps }) (erase_first-append p l.appender_list c)

-- Adding an appender leaves it with a formatter, and takes none from another.
pub add_appender-Extends :
    (p q : ℕ) (l : Logger) (store : ℕ → Appender)
    → (has_formatter (add_appender p l store).1 p ≡ true)
      × (has_formatter store q ≡ true → has_formatter (add_appender p l store).1 q ≡ true)
unfolding add_appender
add_appender-Extends p q l store = elim (Option-cases (store p).formatter) [
  | inl e ↦ (
    rw (e, add_appender) (ground arith),
    λ h. rw (e, add_appender) (set_formatter_lem store p q l.formatter h),
  )
  | inr (items, e) ↦
      (rw (e, add_appender) (rw (e, has_formatter) refl), λ h. rw (e, add_appender) h)
]

pub add_appender-list :
    (p : ℕ) (l : Logger) (store : ℕ → Appender)
    → (add_appender p l store).0 ≡ record l { appender_list = l.appender_list ++ p ∷ [] }
unfolding add_appender
add_appender-list p l store = refl

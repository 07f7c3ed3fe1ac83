-- ===== src/LoggerManager/Loggers.antt =====
-- The loggers that the manager hands out can be used.
use learn_server_concise.Base.{
  ℕ, ◌≡◌, refl, ap, ◌∙◌, true, false, List, [], ◌∷◌, Option, none, some, ◌==◌, All, Returns,
  Returns-bind, Returns-weaken, Bool-cases, Option-cases, inl, inr, arith,
}
use mathlib.Core.Path.{subst}
use learn_server_concise.Config.{same_string}
use learn_server_concise.LogFormatter.{debug, LogEvent}
use learn_server_concise.LogFormatter.Expansion.{init-returns}
use learn_server_concise.Logger.{Appender, Logger, write_appender, add_appender, log}
use learn_server_concise.Logger.Appenders.{IsReady}
use learn_server_concise.Logger.Output.{log-Writes}
use learn_server_concise.LoggerManager.{
  LogConfig, LoggerManager, find_logger, erase_logger, global_name, default_pattern, make_logger,
  Built, build_appenders, build_logger, build_loggers, make_global, ensure_global, init_manager,
  get_logger,
}
use learn_server_concise.LoggerManager.Appenders.{
  Extends, IsReady-Extends, added_Extends, added-IsReady, Grows, is_known, build_appenders-Grows,
}

-- The pointer is not null, and its logger's appenders have formatters.
abbrev pub IsUsable : (ℕ → Appender) → Option Logger → Type 0
IsUsable s o = (l : Logger) × (o ≡ some l) × IsReady l s

abbrev pub AllUsable : LoggerManager → Type 0
AllUsable m = All (λ e. IsUsable m.store e.1) m.loggers

AllUsable-Extends :
    (es : List (List ℕ × Option Logger)) (s s' : ℕ → Appender)
    → Extends s s'
    → All (λ e. IsUsable s e.1) es
    → All (λ e. IsUsable s' e.1) es
AllUsable-Extends [] s s' x a = tt
AllUsable-Extends (e ∷ es) s s' x a = (
  (a.0.0, a.0.1, IsReady-Extends a.0.0.appender_list s s' x a.0.2),
  AllUsable-Extends es s s' x a.1,
)

All-erase_logger :
    (P : List ℕ × Option Logger → Type 0) (name : List ℕ) (es : List (List ℕ × Option Logger))
    → All P es
    → All P (erase_logger name es)
unfolding erase_logger
All-erase_logger P name [] a = tt
All-erase_logger P name (e ∷ es) a = elim (Bool-cases (same_string e.0 name)) [
  | inl h ↦ rw h (All-erase_logger P name es a.1)
  | inr h ↦ rw h (a.0, All-erase_logger P name es a.1)
]

All-find_logger :
    (P : Option Logger → Type 0) (name : List ℕ) (es : List (List ℕ × Option Logger))
    (o : Option Logger)
    → All (λ e. P e.1) es
    → find_logger name es ≡ some o
    → P o
unfolding find_logger
All-find_logger P name [] o a e = absurd (cc)
All-find_logger P name (x ∷ es) o a e = elim (Bool-cases (same_string x.0 name)) [
  | inl h ↦ subst P (ground arith) a.0
  | inr h ↦ All-find_logger P name es o a.1 (ground arith)
]

-- The step of the loop over the configured loggers, which also keeps what the manager has.
build_logger-AllUsable :
    (c : LogConfig) (m : LoggerManager)
    → All (λ a. is_known a ≡ true) c.appender
    → AllUsable m
    → Returns AllUsable (build_logger c m)
unfolding build_logger make_logger
build_logger-AllUsable c m k u =
    rw ((init-returns c.formatter).1, build_logger)
      (Returns-bind (Grows start) AllUsable (build_appenders c.appender start) _
        (build_appenders-Grows c.appender start k tt)
        (λ b g. (
          (b.logger, refl, g.0),
          AllUsable-Extends (erase_logger c.name m.loggers) m.store b.store g.1
              (All-erase_logger _ c.name m.loggers u),
        )))
  where
    start : Built
    start = record {
      logger = record {
        level = c.level;
        formatter = (init-returns c.formatter).0;
        appender_list = [];
      };
      store = m.store;
      next = m.next;
    }

abbrev pub AllKnown : List LogConfig → Type 0
AllKnown configs = All (λ c. All (λ a. is_known a ≡ true) c.appender) configs

build_loggers-AllUsable :
    (cs : List LogConfig) (m : LoggerManager)
    → AllKnown cs
    → AllUsable m
    → Returns AllUsable (build_loggers cs m)
unfolding build_loggers
build_loggers-AllUsable [] m k u = u
build_loggers-AllUsable (c ∷ cs) m k u =
    Returns-bind AllUsable AllUsable (build_logger c m) _ (build_logger-AllUsable c m k.0 u)
      (λ m' u'. build_loggers-AllUsable cs m' k.1 u')

-- The manager has a global logger, and every logger can be used.
abbrev Complete : LoggerManager → Type 0
Complete m = AllUsable m × ((l : Logger) × (find_logger global_name m.loggers ≡ some (some l)))

make_global-Complete : (m : LoggerManager) → AllUsable m → Returns Complete (make_global m)
unfolding make_global make_logger find_logger
make_global-Complete m u =
    rw ((init-returns default_pattern).1, make_global)
      (
        (
          (_, refl, added-IsReady m.next fresh m.store placed same tt),
          AllUsable-Extends (erase_logger global_name m.loggers) m.store
              (add_appender m.next fresh placed).1 (added_Extends m.next fresh m.store placed same)
              (All-erase_logger _ global_name m.loggers u),
        ),
        (_, refl),
      )
  where
    fresh : Logger
    fresh = record {
      level = debug;
      formatter = (init-returns default_pattern).0;
      appender_list = [];
    }

    placed : ℕ → Appender
    placed = write_appender m.store m.next (record { level = debug; formatter = none; lines = [] })

    same : (q : ℕ) → (m.next == q) ≡ false → placed q ≡ m.store q
    same q e = rw e refl

ensure_global-Complete : (m : LoggerManager) → AllUsable m → Returns Complete (ensure_global m)
unfolding ensure_global
ensure_global-Complete m u = elim (Option-cases (find_logger global_name m.loggers)) [
  | inl e ↦ rw (e, ensure_global) (make_global-Complete m u)
  | inr (o, e) ↦
      let usable = All-find_logger (IsUsable m.store) global_name m.loggers o u e in
      rw (e, usable.1, ensure_global) (u, (usable.0, e ∙ ap some usable.1))
]

get_logger-IsUsable :
    (m : LoggerManager) (name : List ℕ)
    → Complete m
    → Returns (IsUsable m.store) (get_logger name m)
unfolding get_logger
get_logger-IsUsable m name c = elim (Option-cases (find_logger name m.loggers)) [
  | inl e ↦
      rw (e, c.1.1, get_logger)
        (All-find_logger (IsUsable m.store) global_name m.loggers (some c.1.0) c.0 c.1.1)
  | inr (o, e) ↦ rw (e, get_logger) (All-find_logger (IsUsable m.store) name m.loggers o c.0 e)
]

-- After `init` on any configuration whose appenders are of types that the class knows, on a manager that
-- is new or was left by an earlier `init`, getLogger returns a logger for every name, known or
-- not, and logging any event on it does not fault.
pub init_manager-Usable :
    (local_time : ℕ → List ℕ) (ev : LogEvent) (configs : List LogConfig) (m : LoggerManager)
    → AllKnown configs
    → AllUsable m
    → Returns
        (λ m'.
          AllUsable m'
          × ((name : List ℕ)
              → Returns
                  (λ o.
                    (l : Logger) × (o ≡ some l)
                    × Returns (λ s. Unit {0}) (log local_time ev l m'.store))
                  (get_logger name m')))
        (init_manager configs m)
unfolding init_manager
init_manager-Usable local_time ev configs m k u =
    Returns-bind AllUsable _ (build_loggers configs m) _ (build_loggers-AllUsable configs m k u)
      (λ m1 u1. Returns-weaken Complete _ (ensure_global m1) (ensure_global-Complete m1 u1) (λ m2 c.
        (
          c.0,
          λ name.
              Returns-weaken (IsUsable m2.store) _ (get_logger name m2)
                (get_logger-IsUsable m2 name c)
                (λ o h. (
                  h.0,
                  h.1,
                  Returns-weaken _ _ (log local_time ev h.0 m2.store)
                      (log-Writes local_time ev h.0 m2.store h.2) (λ s w. tt),
                )),
        )))

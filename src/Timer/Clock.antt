-- ===== src/Timer/Clock.antt =====
-- The clock: its rollback, and the time until the next timer.
use mathlib.Core.Path.{subst}
use learn_server_concise.Base.{
  ℕ, ◌+◌, ◌-◌, ◌*◌, ◌^◌, ◌<◌, ◌≤◌, ◌≡◌, ◌≢◌, true, List, [], ◌∷◌, All, Any, arith, inl, inr, sym,
  ◌⊎◌, ◌↔◌,
}
use learn_server_concise.OrderedSet.{IsSorted}
use learn_server_concise.Timer.{
  Timer, TimerManager, comparator, get_next_timer, no_timeout, detect_clock_rollover,
}
use learn_server_concise.Timer.Order.{All-next-le}
use learn_server_concise.Timer.Invariant.{IsValid}
use learn_server_concise.Timer.Expired.{List-cases, rolled_over}

-- An hour in milliseconds, as detectClockRollover allows.
abbrev pub hour : ℕ
hour = 60 * 60 * 1000

-- For a last time below 2^64, the clock counts as set back exactly if it lies before that time and, since
-- the subtraction of an hour wraps, either by more than an hour or while the last time was itself within
-- the first hour of the epoch.
pub rolled_over_iff :
    (now : ℕ) (m : TimerManager)
    → m.previous_time < 2 ^ 64
    → (rolled_over now m ≡ true)
      ↔ ((now < m.previous_time) × ((m.previous_time < hour) ⊎ (now + hour < m.previous_time)))
unfolding detect_clock_rollover
rolled_over_iff now m h = (λ e. ground arith, λ k. ground arith)

-- The time that is left to a timer.
abbrev pub left : ℕ → TimerManager → ℕ → ℕ
left now m p = (m.heap p).next - now

left_mono :
    (heap : ℕ → Timer) (now x t : ℕ) (ps : List ℕ)
    → t ≡ (heap x).next - now
    → All (λ p. (heap x).next ≤ (heap p).next) ps
    → All (λ p. t ≤ (heap p).next - now) ps
left_mono heap now x t [] e a = tt
left_mono heap now x t (p ∷ ps) e a = (omega arith, left_mono heap now x t ps e a.1)

get_next_timer-head :
    (now p : ℕ) (ps : List ℕ) (m : TimerManager)
    → m.timers ≡ p ∷ ps
    → get_next_timer now m ≡ left now m p
unfolding get_next_timer
get_next_timer-head now p ps m e = rw (e, get_next_timer) (ground arith)

next_lem :
    (now p : ℕ) (ps : List ℕ) (m : TimerManager)
    → IsValid m
    → m.timers ≡ p ∷ ps
    → All (λ q. get_next_timer now m ≤ left now m q) (p ∷ ps)
      × Any (λ q. get_next_timer now m ≡ left now m q) (p ∷ ps)
next_lem now p ps m v e =
    ((omega (arith, head), left_mono m.heap now p (get_next_timer now m) ps head rest), inl head)
  where
    head : get_next_timer now m ≡ left now m p
    head = get_next_timer-head now p ps m e

    sorted : IsSorted (comparator m.heap) (p ∷ ps)
    sorted = rw e at v.ordered

    nonnull : p ≢ 0
    nonnull = ground (arith, v.nonnull)

    rest : All (λ q. (m.heap p).next ≤ (m.heap q).next) ps
    rest = All-next-le m.heap p ps nonnull sorted.0

-- `getNextTimer` is the least time that is left to a queued timer, 0 for an overdue one, and `~0`
-- if no timer is queued.
pub get_next_timer-least :
    (now : ℕ) (m : TimerManager)
    → IsValid m
    → ((m.timers ≡ []) × (get_next_timer now m ≡ no_timeout))
      ⊎ (All (λ q. get_next_timer now m ≤ left now m q) m.timers
          × Any (λ q. get_next_timer now m ≡ left now m q) m.timers)
unfolding get_next_timer
get_next_timer-least now m v = elim (List-cases m.timers) [
  | inl e ↦ inl (e, rw (e, get_next_timer))
  | inr (p, ps, e) ↦ inr (
      subst
        (λ qs.
          All (λ q. get_next_timer now m ≤ left now m q) qs
          × Any (λ q. get_next_timer now m ≡ left now m q) qs)
        (sym e) (next_lem now p ps m v e))
]

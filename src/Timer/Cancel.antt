-- ===== src/Timer/Cancel.antt =====
-- Timer::cancel, and the window between the two locks of listExpiredCallback.
use learn_server_concise.Base.{
  ℕ, ◌≡◌, ◌≢◌, refl, ap, Bool, true, false, ◌&&◌, not, List, [], ◌∷◌, ◌==◌, if◌then◌else◌, contains,
  arith, Option, none, some, stop, Returns, Option-cases, inl, inr, undefined,
}
use learn_server_concise.OrderedSet.{IsSorted, erase}
use learn_server_concise.OrderedSet.Laws.{contains-erase, erase_single}
use learn_server_concise.Timer.{
  Timer, TimerManager, comparator, update, list_expired_locked, has_timer, cancel, none_due,
  detect_clock_rollover,
}
use learn_server_concise.Timer.Order.{comparator-IsOrder, IsSorted-update_same}
use learn_server_concise.Timer.Invariant.{IsValid, is_set}
use learn_server_concise.Timer.Methods.{disarmed-find, disarmed-IsValid}
use learn_server_concise.Timer.Expired.{rolled_over}

-- What `cancel` gives for the timer at `p`.
pub record Cancels (p : ℕ) (m : TimerManager) (r : TimerManager × Bool) : Type 0 where
  pub result : r.1 ≡ is_set (m.heap p).fn
  pub object : r.0.heap p ≡ record (m.heap p) { fn = none }
  pub queue :
      (q : ℕ)
      → contains q r.0.timers ≡ (
          if is_set (m.heap p).fn then not (p == q) && contains q m.timers else contains q m.timers)
  pub others : (q : ℕ) → q ≢ p → r.0.heap q ≡ m.heap q
  pub time : r.0.previous_time ≡ m.previous_time
  pub valid : IsValid r.0

cancel_armed :
    (p f : ℕ) (m : TimerManager)
    → IsValid m
    → (m.heap p).fn ≡ some f
    → Returns (Cancels p m) (cancel p m)
unfolding cancel
cancel_armed p f m v e =
    rw (e, cancel, disarmed-find m p t v refl (rw e))
      (record {
        result = rw e;
        object = ground arith;
        queue = λ q.
            rw e (contains-erase (comparator heap) (comparator-IsOrder heap) p q m.timers sorted);
        others = λ q h. ground arith;
        time = refl;
        valid = disarmed-IsValid m p t v refl refl;
      })
  where
    t : Timer
    t = record (m.heap p) { fn = none }

    heap : ℕ → Timer
    heap = update m.heap p t

    sorted : IsSorted (comparator heap) m.timers
    sorted = IsSorted-update_same m.heap p t m.timers refl v.ordered

-- On a valid queue `cancel` returns, and says whether the timer was still armed; an armed timer
-- leaves the queue and loses its callback, a timer that is not armed changes nothing; no other
-- timer changes, and the queue stays valid.
pub cancel-Cancels : (p : ℕ) (m : TimerManager) → IsValid m → Returns (Cancels p m) (cancel p m)
unfolding cancel
cancel-Cancels p m v = elim (Option-cases (m.heap p).fn) [
  | inl e ↦
      rw (e, cancel)
        (record {
          result = rw e;
          object = ap (λ f. record (m.heap p) { fn = f }) e;
          queue = λ q. rw e;
          others = λ q h. refl;
          time = refl;
          valid = v;
        })
  | inr (f, e) ↦ cancel_armed p f m v e
]

-- The race in `listExpiredCallback`: whenever one armed timer is all that is queued and the clock
-- did not go back, a `cancel` of it by another thread between the two locks lets the test under the
-- first lock pass and the code under the second dereference `begin()` of an empty set.
pub cancel_race :
    (p f probe now : ℕ) (m : TimerManager) (fns : List (Option ℕ))
    → IsValid m
    → m.timers ≡ p ∷ []
    → (m.heap p).fn ≡ some f
    → rolled_over now m ≡ false
    → (has_timer m ≡ true)
      × Returns
          (λ r. (r.1 ≡ true) × (list_expired_locked probe now r.0 fns ≡ stop undefined))
          (cancel p m)
unfolding has_timer cancel list_expired_locked none_due detect_clock_rollover
cancel_race p f probe now m fns v e h r =
    (rw (e, has_timer), rw (h, cancel, disarmed-find m p t v refl (rw h)) (refl, stopped))
  where
    t : Timer
    t = record (m.heap p) { fn = none }

    gone : erase (comparator (update m.heap p t)) p m.timers ≡ []
    gone =
        rw e
          (erase_single (comparator (update m.heap p t)) (comparator-IsOrder (update m.heap p t)) p)

    stopped :
        list_expired_locked probe now
          (record m {
            heap = update m.heap p t;
            timers = erase (comparator (update m.heap p t)) p m.timers;
          })
          fns
        ≡ stop undefined
    stopped = rw (gone, r)

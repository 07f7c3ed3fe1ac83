-- ===== src/Timer/Rearm.antt =====
-- addTimer, Timer::reset and Timer::refresh: the timer that they leave, and the queue.
use learn_server_concise.Base.{
  ℕ, ◌+◌, ◌-◌, ◌^◌, ◌<◌, ◌≡◌, ◌≢◌, Bool, true, false, ◌||◌, ◌&&◌, not, ◌==◌, if◌then◌else◌,
  contains, arith, some, Option-cases, Bool-cases, inl, inr, ◌∙◌,
}
use learn_server_concise.OrderedSet.{insert, erase, find}
use learn_server_concise.OrderedSet.Laws.{contains-erase, contains-insert}
use learn_server_concise.Timer.{
  Timer, TimerManager, comparator, u64, add_timer, reset, rearm, insert_timer, Effect, refresh,
}
use learn_server_concise.Timer.Order.{comparator-IsOrder}
use learn_server_concise.Timer.Invariant.{IsValid, is_set}
use learn_server_concise.Timer.Methods.{
  add_timer-IsValid, reset-IsValid, refresh-IsValid, find-queued,
}

abbrev same_period : ℕ → ℕ → Bool → TimerManager → Bool
same_period p ms from_now m = ms == (m.heap p).ms && not from_now

-- The timer after `reset` has gone through.
abbrev reset_timer : ℕ → Bool → ℕ → Timer → Timer
reset_timer ms from_now now t = record t {
  ms = ms;
  next = u64 ((if from_now then now else u64 (t.next + 2 ^ 64 - t.ms)) + ms);
}

-- What `reset` gives for the timer at `p`.
pub record Resets (p ms : ℕ) (from_now : Bool) (now : ℕ) (m : TimerManager) (r : Effect)
    : Type 0 where
  pub result : r.returned ≡ (same_period p ms from_now m || is_set (m.heap p).fn)
  pub object : r.manager.heap p ≡ (
      if not (same_period p ms from_now m) && is_set (m.heap p).fn
      then reset_timer ms from_now now (m.heap p)
      else m.heap p)
  pub queue : (q : ℕ) → contains q r.manager.timers ≡ contains q m.timers
  pub others : (q : ℕ) → q ≢ p → r.manager.heap q ≡ m.heap q
  pub time : r.manager.previous_time ≡ m.previous_time
  pub valid : IsValid r.manager

-- Taking a queued timer out, writing it and queueing it again leaves the same timers queued.
contains-requeue :
    (heap : ℕ → Timer) (m : TimerManager) (p q : ℕ)
    → IsValid m
    → contains p m.timers ≡ true
    → contains q (insert (comparator heap) p (erase (comparator m.heap) p m.timers))
      ≡ contains q m.timers
contains-requeue heap m p q v c = ground (
  arith,
  contains-insert (comparator heap) (comparator-IsOrder heap) p q
      (erase (comparator m.heap) p m.timers),
  contains-erase (comparator m.heap) (comparator-IsOrder m.heap) p q m.timers v.ordered,
)

armed_found :
    (p f : ℕ) (m : TimerManager)
    → IsValid m
    → (m.heap p).fn ≡ some f
    → find (comparator m.heap) p m.timers ≡ true
armed_found p f m v e = find-queued m p v ∙ v.armed p (rw e)

-- On a valid queue `reset` says that it went through if the period stays as it is and does not
-- start anew, or if the timer is armed; in the second case alone the timer is written, its period
-- counted from `now` or from where the old one began. The same timers are queued before and after,
-- no other timer changes, and the queue stays valid.
pub reset-Resets :
    (p ms : ℕ) (from_now : Bool) (now : ℕ) (m : TimerManager)
    → IsValid m
    → p ≢ 0
    → Resets p ms from_now now m (reset p ms from_now now m)
unfolding reset rearm insert_timer
reset-Resets p ms from_now now m v n = elim (Bool-cases (same_period p ms from_now m)) [
  | inl e ↦ record {
    result = rw e;
    object = rw e;
    queue = λ q. rw e;
    others = λ q h. rw e;
    time = rw e;
    valid = reset-IsValid p ms from_now now m v n;
  }
  | inr e ↦ elim (Option-cases (m.heap p).fn) [
    | inl f ↦ record {
      result = rw (e, f, reset);
      object = rw (e, f, reset) (ground arith);
      queue = λ q. rw (e, f, reset);
      others = λ q h. rw (e, f, reset);
      time = rw (e, f, reset);
      valid = reset-IsValid p ms from_now now m v n;
    }
    | inr (g, f) ↦ record {
      result = rw (e, f, reset, armed_found p g m v f);
      object = rw (e, f, reset, armed_found p g m v f) (ground arith);
      queue = λ q.
          rw (e, f, reset, armed_found p g m v f) (contains-requeue _ m p q v (v.armed p (rw f)));
      others = λ q h. rw (e, f, reset, armed_found p g m v f) (ground arith);
      time = rw (e, f, reset, armed_found p g m v f);
      valid = reset-IsValid p ms from_now now m v n;
    }
  ]
]

-- A timer that was added at `t0` and is reset with no new start is the timer that adding it with
-- the new period at `t0` would have made: the wrap of the 64-bit clock cancels out.
pub reset-add_timer :
    (p a b f : ℕ) (cyclic : Bool) (t0 t1 : ℕ) (m : TimerManager)
    → IsValid m
    → p ≢ 0
    → contains p m.timers ≡ false
    → a < 2 ^ 64
    → (reset p b false t1 (add_timer p a (some f) cyclic t0 m).0).manager.heap p
      ≡ (add_timer p b (some f) cyclic t0 m).0.heap p
unfolding add_timer insert_timer
reset-add_timer p a b f cyclic t0 t1 m v n c h =
    (reset-Resets p b false t1 (add_timer p a (some f) cyclic t0 m).0 valid n).object ∙ ground arith
  where
    valid : IsValid (add_timer p a (some f) cyclic t0 m).0
    valid = add_timer-IsValid p a (some f) cyclic t0 m v n c

-- What `refresh` gives for the timer at `p`.
pub record Refreshes (p now : ℕ) (m : TimerManager) (r : TimerManager × Bool) : Type 0 where
  pub result : r.1 ≡ is_set (m.heap p).fn
  pub object : r.0.heap p ≡ (
      if is_set (m.heap p).fn
      then record (m.heap p) { next = u64 (now + (m.heap p).ms) }
      else m.heap p)
  pub queue : (q : ℕ) → contains q r.0.timers ≡ contains q m.timers
  pub others : (q : ℕ) → q ≢ p → r.0.heap q ≡ m.heap q
  pub time : r.0.previous_time ≡ m.previous_time
  pub valid : IsValid r.0

-- On a valid queue `refresh` says whether the timer is armed, and then its period starts anew at
-- `now`; the same timers are queued before and after, no other timer changes, and the queue stays
-- valid.
pub refresh-Refreshes :
    (p now : ℕ) (m : TimerManager) → IsValid m → p ≢ 0 → Refreshes p now m (refresh p now m)
unfolding refresh
refresh-Refreshes p now m v n = elim (Option-cases (m.heap p).fn) [
  | inl f ↦ record {
    result = rw (f, refresh);
    object = rw (f, refresh) (ground arith);
    queue = λ q. rw (f, refresh);
    others = λ q h. rw (f, refresh);
    time = rw (f, refresh);
    valid = refresh-IsValid p now m v n;
  }
  | inr (g, f) ↦ record {
    result = rw (f, refresh, armed_found p g m v f);
    object = rw (f, refresh, armed_found p g m v f) (ground arith);
    queue =
        λ q. rw (f, refresh, armed_found p g m v f) (contains-requeue _ m p q v (v.armed p (rw f)));
    others = λ q h. rw (f, refresh, armed_found p g m v f) (ground arith);
    time = rw (f, refresh, armed_found p g m v f);
    valid = refresh-IsValid p now m v n;
  }
]

-- ===== src/Timer/Contract.antt =====
-- What a caller of the timer manager can rely on.
use learn_server_concise.Base.{
  ℕ, ◌≡◌, ◌≢◌, false, ◌||◌, ◌&&◌, not, List, [], ◌++◌, if◌then◌else◌, contains, select, map, arith,
  Option, ok, Returns, Bool-cases, inl, inr, ◌∙◌,
}
use mathlib.Core.List.{append-nil}
use learn_server_concise.Timer.{TimerManager, list_expired_callback, has_timer}
use learn_server_concise.Timer.Invariant.{Pending, IsValid}
use learn_server_concise.Timer.Expired.{
  is_expired, list_expired-eq, contains-select, split-Pending, taken, remaining,
}
use learn_server_concise.Timer.Firing.{
  fired, fire_all_heap, fire_all_queue, fire_all_callbacks, fire_all_time, fire_all-Pending,
}

-- What a call of `listExpiredCallback` at `now` gives.
pub record Expires (now : ℕ) (m : TimerManager) (fns : List (Option ℕ))
    (r : TimerManager × List (Option ℕ)) : Type 0 where
  pub callbacks : r.1 ≡ fns ++ map (λ q. (m.heap q).fn) (select (is_expired now m) m.timers)
  pub objects :
      (q : ℕ)
      → r.0.heap q
        ≡ (if is_expired now m q && contains q m.timers then fired now (m.heap q) else m.heap q)
  pub queue :
      (q : ℕ)
      → contains q r.0.timers
        ≡ (contains q m.timers && (not (is_expired now m q) || (m.heap q).cyclic))
  pub valid : IsValid r.0
  pub time : r.0.previous_time ≡ (if has_timer m then now else m.previous_time)

-- On a valid queue, and with the local timer at an address that is not queued,
-- `listExpiredCallback` returns: it appends the callbacks of exactly the expired timers, in the
-- order of the queue; a cyclic one of them stays queued with its period started anew, any other
-- leaves the queue and loses its callback; no other timer changes, and the queue stays valid.
pub list_expired_callback-Expires :
    (probe now : ℕ) (m : TimerManager) (fns : List (Option ℕ))
    → IsValid m
    → probe ≢ 0
    → contains probe m.timers ≡ false
    → Returns (Expires now m fns) (list_expired_callback probe now m fns)
unfolding list_expired_callback has_timer
list_expired_callback-Expires probe now m fns v n fresh = elim (Bool-cases (has_timer m)) [
  | inl h ↦ rw (list_expired-eq probe now m v n fresh fns h) (record {
    callbacks = fire_all_callbacks now _ _ fns pending.distinct;
    objects = λ q.
        fire_all_heap now _ _ fns q pending.distinct
        ∙ rw (contains-select (is_expired now m) q m.timers);
    queue = λ q.
        fire_all_queue now _ _ fns q pending.distinct
        ∙ ground (
          arith,
          contains-select (is_expired now m) q m.timers,
          contains-select (λ p. not (is_expired now m p)) q m.timers,
        );
    valid = fire_all-Pending now _ _ fns pending;
    time = fire_all_time now _ _ fns ∙ rw h;
  })
  | inr h ↦ rw (not_called h) (record {
    callbacks = ground (arith, append-nil fns, empty h);
    objects = λ q. ground (arith, empty h);
    queue = λ q. ground (arith, empty h);
    valid = v;
    time = rw h;
  })
]
  where
    empty : has_timer m ≡ false → m.timers ≡ []
    empty h = ground arith

    not_called : has_timer m ≡ false → list_expired_callback probe now m fns ≡ ok (m, fns)
    not_called h = rw h

    pending : Pending (taken now m) (remaining now m)
    pending = split-Pending (is_expired now m) m now v

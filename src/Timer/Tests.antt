-- ===== src/Timer/Tests.antt =====
-- The timers of include/timer.h and src/timer.cc on concrete queues.
use learn_server_concise.Base.{
  ℕ, ◌≡◌, refl, true, false, List, [], ◌∷◌, Option, none, some, ◌==◌, if◌then◌else◌, Outcome, ok,
  stop, undefined, Returns, arith,
}
use learn_server_concise.OrderedSet.{insert, find, before, lower_bound}
use learn_server_concise.Timer.{
  TimerManager, comparator, add_timer, cancel, reset, refresh, has_timer, insert_timer, at_front,
  detect_clock_rollover, list_expired_locked, list_expired_callback, cut, fire, fire_all, none_due,
  same_time, skip_same_time,
}
use learn_server_concise.Timer.Invariant.{IsValid}
use learn_server_concise.Timer.Contract.{Expires, list_expired_callback-Expires}
use learn_server_concise.Timer.Cancel.{cancel_race}
use learn_server_concise.Timer.Table.{Table, run_table, AllAgree}
use learn_server_concise.Timer.Refine.{run_calls_refines}
use learn_server_concise.Timer.Promises.{Represents, run_calls}
use learn_server_concise.Timer.History.{
  Call, adds, cancels, resets, refreshes, expires, run, AllAllowed, perform, run-IsValid,
}

-- Timer 1 fires once, at 100; timer 2 fires at 200 and every 20 ms from then on.
abbrev two_timers : TimerManager
two_timers = record {
  heap = λ p.
      if p == 1
      then record { cyclic = false; ms = 10; next = 100; fn = some 7 }
      else record { cyclic = true; ms = 20; next = 200; fn = if p == 2 then some 8 else none };
  timers = 1 ∷ 2 ∷ [];
  previous_time = 50;
}

abbrev one_timer : TimerManager
one_timer = record {
  heap = λ p. record { cyclic = false; ms = 10; next = 100; fn = if p == 1 then some 7 else none };
  timers = 1 ∷ [];
  previous_time = 50;
}

two_timers-IsValid : IsValid two_timers
unfolding comparator
two_timers-IsValid = record {
  ordered = ground arith;
  nonnull = refl;
  armed = λ p h. ground arith;
  apart = λ p h. absurd (cc);
  distinct = tt;
  ps_nonnull = refl;
}

one_timer-IsValid : IsValid one_timer
unfolding comparator
one_timer-IsValid = record {
  ordered = ground arith;
  nonnull = refl;
  armed = λ p h. ground arith;
  apart = λ p h. absurd (cc);
  distinct = tt;
  ps_nonnull = refl;
}

list_expired_callback-Expires_example :
    Returns (Expires 150 two_timers []) (list_expired_callback 3 150 two_timers [])
list_expired_callback-Expires_example =
    list_expired_callback-Expires 3 150 two_timers [] two_timers-IsValid (omega arith) refl

cancel_race_example :
    (has_timer one_timer ≡ true)
    × Returns
        (λ r. (r.1 ≡ true) × (list_expired_locked 3 60 r.0 [] ≡ stop undefined))
        (cancel 1 one_timer)
unfolding detect_clock_rollover
cancel_race_example = cancel_race 1 7 3 60 one_timer [] one_timer-IsValid refl refl refl

abbrev some_calls : List Call
some_calls = cancels 1 ∷ resets 2 30 true 160 ∷ refreshes 2 170 ∷ []

run-IsValid_example : Returns IsValid (run two_timers some_calls)
unfolding perform cancel reset refresh find comparator
run-IsValid_example = run-IsValid two_timers some_calls two_timers-IsValid allowed
  where
    allowed : AllAllowed two_timers some_calls
    allowed = (tt, ((λ e. omega arith), ((λ e. omega arith), tt)))

-- At 150 the first timer is due, at 230 both are, and the cyclic one is queued again.
expired_callbacks : Outcome (TimerManager × List (Option ℕ)) → Option (List ℕ × List (Option ℕ))
expired_callbacks (ok r) = some (r.0.timers, r.1)
expired_callbacks (stop e) = none

expired_test :
    (expired_callbacks (list_expired_callback 3 150 two_timers []) ≡ some (2 ∷ [], some 7 ∷ []))
    × (expired_callbacks (list_expired_callback 3 230 two_timers [])
        ≡ some (2 ∷ [], some 7 ∷ some 8 ∷ []))
unfolding expired_callbacks list_expired_callback list_expired_locked has_timer none_due
    detect_clock_rollover cut lower_bound before same_time skip_same_time fire_all fire insert
    comparator
expired_test = (refl, refl)

-- A timer that is due before the first one is announced, a later one is not.
front_test :
    ((add_timer 3 10 (some 9) false 60 two_timers).1 ≡ true)
    × ((add_timer 3 90 (some 9) false 60 two_timers).1 ≡ false)
unfolding add_timer insert_timer at_front insert comparator
front_test = (refl, refl)

-- The same timers in the other order.
abbrev two_timers_table : Table
two_timers_table = record { object = two_timers.heap; queued = 2 ∷ 1 ∷ []; last_time = 50 }

two_timers-Represents : Represents two_timers two_timers_table
two_timers-Represents = record {
  object = λ q. refl;
  queue = λ q. ground arith;
  distinct = (refl, (refl, tt));
  time = refl;
}

abbrev expiring_calls : List Call
expiring_calls = expires 3 150 ∷ adds 4 10 (some 9) false 160 ∷ cancels 2 ∷ []

run_calls_refines_example :
    Returns
      (λ replies. AllAgree replies (run_table two_timers_table expiring_calls))
      (run_calls two_timers expiring_calls)
unfolding perform list_expired_callback list_expired_locked has_timer none_due detect_clock_rollover
    cut lower_bound before same_time skip_same_time fire_all fire insert comparator add_timer
    insert_timer cancel find
run_calls_refines_example =
    run_calls_refines two_timers two_timers_table expiring_calls two_timers-IsValid
      two_timers-Represents (((λ e. omega arith), refl), (((λ e. omega arith), refl), (tt, tt)))

-- ===== src/Timer/History.antt =====
-- Histories of calls of the timer manager, by one thread or by several under its lock.
use learn_server_concise.Base.{
  ℕ, ◌≡◌, ◌≢◌, Bool, false, List, [], ◌∷◌, contains, Option, Outcome, ok, stop, Returns, ◌>>=◌,
}
use learn_server_concise.Timer.{
  TimerManager, list_expired_callback, cancel, add_timer, reset, refresh,
}
use learn_server_concise.Timer.Invariant.{IsValid}
use learn_server_concise.Timer.Methods.{
  cancel-IsValid, add_timer-IsValid, reset-IsValid, refresh-IsValid,
}
use learn_server_concise.Timer.Contract.{list_expired_callback-Expires}

-- A call, with the time at which it reads the clock. `adds p` and `expires probe` carry the address
-- that `new` returns.
pub data Call : Type 0 where
  adds : (p ms : ℕ) → Option ℕ → Bool → (now : ℕ) → Call
  cancels : (p : ℕ) → Call
  resets : (p ms : ℕ) → Bool → (now : ℕ) → Call
  refreshes : (p now : ℕ) → Call
  expires : (probe now : ℕ) → Call

unfoldable pub perform : TimerManager → Call → Outcome TimerManager
perform m (adds p ms fn cyclic now) = ok (add_timer p ms fn cyclic now m).0
perform m (cancels p) = cancel p m >>= λ r. ok r.0
perform m (resets p ms from_now now) = ok (reset p ms from_now now m).manager
perform m (refreshes p now) = ok (refresh p now m).0
perform m (expires probe now) = list_expired_callback probe now m [] >>= λ r. ok r.0

pub run : TimerManager → List Call → Outcome TimerManager
unfolding perform
run m [] = ok m
run m (c ∷ cs) = perform m c >>= λ m'. run m' cs

-- `new` returns no address of a queued timer, and methods are called on objects.
abbrev pub IsAllowed : TimerManager → Call → Type 0
IsAllowed m (adds p ms fn cyclic now) = (p ≢ 0) × (contains p m.timers ≡ false)
IsAllowed m (cancels p) = Unit
IsAllowed m (resets p ms from_now now) = p ≢ 0
IsAllowed m (refreshes p now) = p ≢ 0
IsAllowed m (expires probe now) = (probe ≢ 0) × (contains probe m.timers ≡ false)

abbrev pub AllAllowed : TimerManager → List Call → Type 0
AllAllowed m [] = Unit
AllAllowed m (c ∷ cs) = IsAllowed m c × Returns (λ m'. AllAllowed m' cs) (perform m c)

Returns-map :
    {A B : Type 0} {P : A → Type 0} (Q : B → Type 0) (f : A → B) (r : Outcome A)
    → ((a : A) → P a → Q (f a))
    → Returns P r
    → Returns Q (r >>= λ a. ok (f a))
Returns-map Q f (ok a) h p = h a p
Returns-map Q f (stop e) h p = p

-- Every call on a valid queue returns, and leaves a valid queue.
pub perform-IsValid :
    (m : TimerManager) (c : Call) → IsValid m → IsAllowed m c → Returns IsValid (perform m c)
unfolding perform
perform-IsValid m (adds p ms fn cyclic now) v a = add_timer-IsValid p ms fn cyclic now m v a.0 a.1
perform-IsValid m (cancels p) v a =
    Returns-map IsValid (λ r. r.0) (cancel p m) (λ r h. h) (cancel-IsValid p m v)
perform-IsValid m (resets p ms from_now now) v a = reset-IsValid p ms from_now now m v a
perform-IsValid m (refreshes p now) v a = refresh-IsValid p now m v a
perform-IsValid m (expires probe now) v a =
    Returns-map IsValid (λ r. r.0) (list_expired_callback probe now m []) (λ r h. h.valid)
      (list_expired_callback-Expires probe now m [] v a.0 a.1)

run-step :
    (m : TimerManager) (r : Outcome TimerManager) (cs : List Call)
    → ((m' : TimerManager) → IsValid m' → AllAllowed m' cs → Returns IsValid (run m' cs))
    → Returns IsValid r
    → Returns (λ m'. AllAllowed m' cs) r
    → Returns IsValid (r >>= λ m'. run m' cs)
run-step m (ok m') cs ih v a = ih m' v a
run-step m (stop e) cs ih v a = v

-- For every sequence of calls on a valid queue in which `new` returns no null pointer and no queued
-- address and the methods are called on objects, no call dereferences or erases at `end()`, and the
-- queue is valid after it: in order, and with every armed timer in it.
pub run-IsValid :
    (m : TimerManager) (cs : List Call) → IsValid m → AllAllowed m cs → Returns IsValid (run m cs)
unfolding run
run-IsValid m [] v a = v
run-IsValid m (c ∷ cs) v a =
    run-step m (perform m c) cs (λ m' v' a'. run-IsValid m' cs v' a') (perform-IsValid m c v a.0)
      a.1

-- ===== src/Timer/Refine.antt =====
-- The timer manager of src/timer.cc implements the table of timers.
use mathlib.Core.Path.{subst}
use learn_server_concise.Base.{
  ◌≡◌, refl, ap, sym, List, [], ◌∷◌, Outcome, ok, stop, Returns, Returns-bind, Returns-value, ◌>>=◌,
  ◌∙◌,
}
use learn_server_concise.Timer.{TimerManager, cancel, list_expired_callback}
use learn_server_concise.Timer.Invariant.{IsValid}
use learn_server_concise.Timer.History.{
  Call, adds, cancels, resets, refreshes, expires, IsAllowed, AllAllowed, perform,
}
use learn_server_concise.Timer.Table.{Table, Reply, answered, called, promised, run_table, AllAgree}
use learn_server_concise.Timer.Promises.{
  make_call, run_calls, Represents, Follows, adds_refines, cancels_refines, resets_refines,
  refreshes_refines, expires_refines,
}

abbrev seen : TimerManager → Table → Table
seen m t = record { object = m.heap; queued = t.queued; last_time = m.previous_time }

seen-eq : (m : TimerManager) (t : Table) → Represents m t → seen m t ≡ t
seen-eq m t r =
    λ i. record { object = λ q. sym (r.object q) i; queued = t.queued; last_time = sym r.time i }

-- Each call on a valid queue does to the table and answers what is promised.
pub call_refines :
    (m : TimerManager) (t : Table) (c : Call)
    → IsValid m
    → Represents m t
    → IsAllowed m c
    → Returns (Follows (promised t c)) (make_call m c)
call_refines m t c v r a =
    subst (λ u. Returns (Follows (promised u c)) (make_call m c)) (seen-eq m t r) (by_call c a)
  where
    by_call : (c : Call) → IsAllowed m c → Returns (Follows (promised (seen m t) c)) (make_call m c)
    by_call (adds p ms fn cyclic now) a =
        adds_refines m t.queued v r.queue r.distinct p ms fn cyclic now a.0 a.1
    by_call (cancels p) a = cancels_refines m t.queued v r.queue r.distinct p
    by_call (resets p ms from_now now) a =
        resets_refines m t.queued v r.queue r.distinct p ms from_now now a
    by_call (refreshes p now) a = refreshes_refines m t.queued v r.queue r.distinct p now a
    by_call (expires probe now) a =
        expires_refines m t.queued v r.queue r.distinct probe now a.0 a.1

abbrev answer_by :
    {A : Type 0} → (A → Reply) → Outcome (TimerManager × A) → Outcome (TimerManager × Reply)
answer_by f r = r >>= λ x. ok (x.0, f x.1)

forget_reply :
    {A : Type 0} (f : A → Reply) (r : Outcome (TimerManager × A))
    → (r >>= λ x. ok x.0) ≡ (answer_by f r >>= λ x. ok x.0)
forget_reply f (ok x) = refl
forget_reply f (stop e) = refl

perform-make_call : (m : TimerManager) (c : Call) → perform m c ≡ (make_call m c >>= λ r. ok r.0)
unfolding perform make_call
perform-make_call m (adds p ms fn cyclic now) = refl
perform-make_call m (cancels p) = forget_reply answered (cancel p m)
perform-make_call m (resets p ms from_now now) = refl
perform-make_call m (refreshes p now) = refl
perform-make_call m (expires probe now) = forget_reply called (list_expired_callback probe now m [])

-- A valid timer manager and the table of its timers, in whatever order, cannot be told apart by a
-- sequence of calls in which `new` returns no null pointer and no queued address and the methods
-- are called on objects: every call returns, and gives the Boolean that the table promises, or
-- the promised callbacks in some order.
pub run_calls_refines :
    (m : TimerManager) (t : Table) (cs : List Call)
    → IsValid m
    → Represents m t
    → AllAllowed m cs
    → Returns (λ replies. AllAgree replies (run_table t cs)) (run_calls m cs)
unfolding run_calls run_table AllAgree
run_calls_refines m t [] v r a = tt
run_calls_refines m t (c ∷ cs) v r a =
    let step =
      Returns-value (Follows (promised t c)) (make_call m c) (call_refines m t c v r a.0) in
    let left : AllAllowed step.0.0 cs =
      subst (Returns (λ m'. AllAllowed m' cs))
        (perform-make_call m c ∙ ap (λ o. o >>= λ x. ok x.0) step.1) a.1 in
    rw step.1 (
      Returns-bind (λ replies. AllAgree replies (run_table (promised t c).0 cs)) _
        (run_calls step.0.0 cs) _
        (run_calls_refines step.0.0 (promised t c).0 cs step.2.0 step.2.1 left)
        (λ replies h. (step.2.2, h)))

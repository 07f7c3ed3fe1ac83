-- ===== src/Hook/Wait/Begun.antt =====
-- What the start of a wait leaves of the manager of the events and of the timers.
use learn_server_concise.Base.{
  ℕ, ◌+◌, ◌%◌, ◌^◌, ◌≤◌, ◌≡◌, ◌≢◌, refl, sym, ◌∙◌, true, false, ◌==◌, Option, none, some,
  if◌then◌else◌, length, get_elem?, All, ap, contains, Outcome, Bool, Returns, Returns-bind,
  Returns-both, arith, Bool-cases, inl, inr,
}
use mathlib.Core.Path.{subst}
use learn_server_concise.Timer.{TimerManager, add_timer, cancel}
use learn_server_concise.Timer.Invariant as Timers
use learn_server_concise.Timer.Methods.{add_timer-IsValid}
use learn_server_concise.Timer.Added.{add_timer-object, add_timer-next, add_timer-queued}
use learn_server_concise.Timer.Cancel.{Cancels, cancel-Cancels}
use learn_server_concise.FdContext.{
  FdEventType, none_event, FdContext, has_event, add_event, is_none,
}
use learn_server_concise.IoManager.{
  ctl_add, ctl_mod, Kernel, IoManager, tickle, make_room, add_event_listener,
}
use learn_server_concise.IoManager.Contexts.{IsValid, ContextOk, total}
use learn_server_concise.IoManager.Listeners.{
  Adds, add_event_listener-Adds, waited_for, add_event_listener-waited_for,
}
use learn_server_concise.IoManager.Wakes.{tickle-keeps}
use learn_server_concise.FdManager.{forever}
use learn_server_concise.Hook.Wait.{set_timer, begin_wait, cancel_timer}

-- An event on a descriptor in range that nobody waits for yet, on a valid manager whose kernel and pipe
-- accept.
pub record CanListen (k : Kernel) (fd : ℕ) (event : FdEventType) (m : IoManager) (c : FdContext)
    : Type 0 where
  pub valid : IsValid m
  pub context : get_elem? (make_room fd m.contexts) fd ≡ some c
  pub small : length (make_room fd m.contexts) ≤ 2 ^ 32
  pub free : has_event c.events event ≡ false
  pub accepted :
      k.epoll_ctl (if is_none c.events then ctl_add else ctl_mod) fd (add_event c.events event)
      ≡ true
  pub piped : k.pipe_write ≡ true

-- The same, and `new` returned an address that is not queued on a valid timer manager.
pub record CanWait (k : Kernel) (p fd : ℕ) (event : FdEventType) (m : IoManager) (c : FdContext)
    : Type 0 where
  pub listens : CanListen k fd event m c
  pub timers_valid : Timers.IsValid m.timers
  pub nonnull : p ≢ 0
  pub fresh : contains p m.timers.timers ≡ false

-- The timer of a wait is queued, with its call-back, for the time-out after `now`.
pub record IsArmed (p cb now timeout : ℕ) (ts : TimerManager) : Type 0 where
  pub queued : contains p ts.timers ≡ true
  pub once : (ts.heap p).cyclic ≡ false
  pub calls_back : (ts.heap p).fn ≡ some cb
  pub due : (ts.heap p).next ≡ (now + timeout) % 2 ^ 64

-- The timers of a wait: one more, unless the time-out is without limit.
abbrev pub Timed : ℕ → ℕ → ℕ → ℕ → TimerManager → TimerManager → Type 0
Timed p cb now timeout old ts =
    (timeout == forever ≡ false → IsArmed p cb now timeout ts)
    × (timeout == forever ≡ true → ts ≡ old)

-- The timer that begin_wait returns.
abbrev pub timer_of : ℕ → ℕ → Option ℕ
timer_of p timeout = if timeout == forever then none else some p

module _ (k : Kernel) (p cb now timeout fd : ℕ) (event : FdEventType) (this_fiber : ℕ)
    (m : IoManager) (c : FdContext) where
  -- A fiber waits for the event, with a timer unless the time-out is without limit.
  pub record Begun (r : IoManager × Option ℕ × Bool) : Type 0 where
    pub timer : r.1 ≡ timer_of p timeout
    pub listened : r.2 ≡ true
    pub timed : Timed p cb now timeout m.timers r.0.timers
    pub valid : IsValid r.0
    pub timers_valid : Timers.IsValid r.0.timers
    pub context : get_elem? r.0.contexts fd ≡ some (waited_for c event none this_fiber)
    pub pending : r.0.pending ≡ m.pending + 1

  abbrev TimerSet : IoManager × Option ℕ → Type 0
  TimerSet r =
      (r.1 ≡ timer_of p timeout)
      × (r.0.contexts ≡ m.contexts)
      × (r.0.pending ≡ m.pending)
      × Timers.IsValid r.0.timers
      × Timed p cb now timeout m.timers r.0.timers

  set_timer_lem :
      CanWait k p fd event m c
      → Returns TimerSet (set_timer k p cb now timeout fd event this_fiber m)
  unfolding set_timer
  set_timer_lem w = elim (Bool-cases (timeout == forever)) [
    | inl e ↦
        rw (e, set_timer) (rw e refl, refl, refl, w.timers_valid, ((λ x. absurd (cc)), (λ x. refl)))
    | inr e ↦ elim (Bool-cases (add_timer p timeout (some cb) false now m.timers).1) [
      | inl front ↦
          rw (e, front, set_timer)
            (Returns-bind _ TimerSet (tickle k timed_manager) _
              (tickle-keeps k timed_manager w.listens.piped)
              (λ a h. (
                rw e refl,
                h.0,
                h.1,
                subst Timers.IsValid (sym h.2) queued,
                ((λ x. subst (IsArmed p cb now timeout) (sym h.2) armed), (λ x. absurd (cc))),
              )))
      | inr later ↦
          rw (e, later, set_timer)
            (rw e refl, refl, refl, queued, ((λ x. armed), (λ x. absurd (cc))))
    ]
  ]
    where
      timed_manager : IoManager
      timed_manager = record m { timers = (add_timer p timeout (some cb) false now m.timers).0 }

      queued : Timers.IsValid timed_manager.timers
      queued =
          add_timer-IsValid p timeout (some cb) false now m.timers w.timers_valid w.nonnull w.fresh

      armed : IsArmed p cb now timeout timed_manager.timers
      armed = record {
        queued = add_timer-queued p cb now timeout m.timers;
        once = (add_timer-object p cb now timeout m.timers).0;
        calls_back = (add_timer-object p cb now timeout m.timers).1;
        due = add_timer-next p cb now timeout m.timers;
      }

  -- The listener, behind the timer.
  abbrev listen : IoManager → Outcome (IoManager × Bool)
  listen m' = add_event_listener k fd event none this_fiber m'

  abbrev Added : IoManager → IoManager × Bool → Type 0
  Added m' a =
      Adds fd event
        (k.epoll_ctl (if is_none c.events then ctl_add else ctl_mod) fd (add_event c.events event))
        m' a

  abbrev Written : IoManager → IoManager × Bool → Type 0
  Written m' a =
      (a.1 ≡ true)
      × (a.0.timers ≡ m'.timers)
      × (get_elem? a.0.contexts fd ≡ some (waited_for c event none this_fiber))

  listen_lem :
      (m' : IoManager)
      → CanListen k fd event m c
      → event ≢ none_event
      → m'.contexts ≡ m.contexts
      → m'.pending ≡ m.pending
      → Returns (λ a. Added m' a × Written m' a) (listen m')
  listen_lem m' w some_event e n =
      Returns-both (Added m') (Written m') (listen m')
        (add_event_listener-Adds k fd event none this_fiber m' c v context' small' w.free
          some_event)
        (add_event_listener-waited_for k fd event none this_fiber m' c v context' w.free some_event
          w.accepted small')
    where
      v : IsValid m'
      v = record {
        contexts_ok = subst (λ cs. All ContextOk cs) (sym e) w.valid.contexts_ok;
        counted = n ∙ w.valid.counted ∙ ap total (sym e);
        few = rw e w.valid.few;
      }

      context' : get_elem? (make_room fd m'.contexts) fd ≡ some c
      context' = rw e w.context

      small' : length (make_room fd m'.contexts) ≤ 2 ^ 32
      small' = rw e w.small

  -- A wait that may start does: the fiber waits for the event, one more event is pending, the timer is
  -- queued unless the time-out is without limit, and both managers are valid.
  pub begin_wait-Begun :
      CanWait k p fd event m c
      → event ≢ none_event
      → Returns Begun (begin_wait k p cb now timeout fd event this_fiber m)
  unfolding begin_wait
  begin_wait-Begun w some_event =
      Returns-bind TimerSet Begun (set_timer k p cb now timeout fd event this_fiber m) _
        (set_timer_lem w)
        (λ t h.
          Returns-bind (λ a. Added t.0 a × Written t.0 a) Begun (listen t.0) _
            (listen_lem t.0 w.listens some_event h.1 h.2)
            (λ a q. record {
              timer = h.0;
              listened = q.1.0;
              timed = subst (Timed p cb now timeout m.timers) (sym q.1.1) h.4;
              valid = q.0.valid;
              timers_valid = subst Timers.IsValid (sym q.1.1) h.3;
              context = q.1.2;
              pending = ground (arith, q.0.pending, h.2, w.listens.accepted);
            }))

-- What cancelling the timer of a wait leaves.
pub record Disarmed (p : ℕ) (m m' : IoManager) : Type 0 where
  pub disarmed : (m'.timers.heap p).fn ≡ none
  pub timers_valid : Timers.IsValid m'.timers
  pub contexts : m'.contexts ≡ m.contexts
  pub pending : m'.pending ≡ m.pending

pub cancel_timer-Disarmed :
    (p : ℕ) (m : IoManager)
    → Timers.IsValid m.timers
    → Returns (Disarmed p m) (cancel_timer (some p) m)
unfolding cancel_timer
cancel_timer-Disarmed p m v =
    Returns-bind (Cancels p m.timers) (Disarmed p m) (cancel p m.timers) _
      (cancel-Cancels p m.timers v)
      (λ r h. record {
        disarmed = rw h.object refl;
        timers_valid = h.valid;
        contexts = refl;
        pending = refl;
      })

-- ===== src/IoManager/Triggers.antt =====
-- What triggering one event leaves of its context and of the manager.
use learn_server_concise.Base.{
  ◌≡◌, refl, sym, ap, ◌∙◌, Bool, true, false, List, [], ◌∷◌, ◌++◌, none, some, if◌then◌else◌, ok,
  stop, assertion, ◌>>=◌, Returns, arith, Option-cases, inl, inr,
}
use learn_server_concise.Scheduler.{Executable, a_fiber, a_callback, make_task, schedule, has_work}
use learn_server_concise.FdContext.{
  FdEventType, none_event, read_event, write_event, EventSet, has_event, remove_event, EventHandler,
  empty_handler, FdContext, get_event_handler, reset_handler, handler_work, spent_handler,
}
use learn_server_concise.IoManager.{
  Kernel, IoManager, tickle, schedule_io, down, trigger_event, trigger_and_count,
}
use learn_server_concise.IoManager.Contexts.{HandlerOk, ContextOk}
use mathlib.Core.List.{append-nil}
use learn_server_concise.Base.{Returns-bind}
use learn_server_concise.Scheduler.Tasks.{schedule-order}

-- What a valid handler whose event is waited for schedules.
abbrev pub work_of : EventHandler → List Executable
work_of h = elim (handler_work h) [ none ↦ [] | some w ↦ w ∷ [] ]

-- Scheduling on the manager, where the pipe can be written.
pub schedule_io_lem :
    (k : Kernel) (w : Executable) (m : IoManager)
    → k.pipe_write ≡ true
    → Returns
        (λ m'.
          (m'.contexts ≡ m.contexts)
          × (m'.pending ≡ m.pending)
          × (m'.timers ≡ m.timers)
          × (m'.scheduler ≡ (schedule w none false m.scheduler).0))
        (schedule_io k w m)
unfolding schedule_io tickle
schedule_io_lem k w m h = ground arith

abbrev pub handler_of : FdContext → FdEventType → EventHandler
handler_of c none_event = empty_handler
handler_of c read_event = c.read_handler
handler_of c write_event = c.write_handler

-- What a handler was registered with.
abbrev pub registered : EventHandler → Executable
registered h = elim h.fiber [ some f ↦ a_fiber (some f) | none ↦ a_callback h.callback ]

-- The context with an event and its handler gone.
abbrev pub dropped : FdContext → FdEventType → FdContext
dropped c e = reset_handler (record c { events = remove_event c.events e }) e

pub valid_handler :
    (h : EventHandler)
    → HandlerOk true h
    → (handler_work h ≡ some (registered h))
      × (spent_handler h ≡ empty_handler)
      × (has_work (make_task (registered h) none) ≡ true)
valid_handler h o = elim (Option-cases h.fiber) [
  | inl f ↦ elim (Option-cases h.callback) [
    | inl c ↦ absurd (ground arith)
    | inr (g, c) ↦ ground arith
  ]
  | inr (g, f) ↦ ground arith
]

pub event_handler :
    (c : FdContext) (e : FdEventType) (es : EventSet)
    → ContextOk c
    → has_event c.events e ≡ true
    → (get_event_handler (record c { events = es }) e ≡ ok (handler_of c e))
      × HandlerOk true (handler_of c e)
event_handler c none_event es o h = absurd (cc)
event_handler c read_event es o h = (refl, rw h at o.reads)
event_handler c write_event es o h = (refl, rw h at o.writes)

-- What a trigger leaves: the context given, and one task more.
abbrev Left : FdContext → Executable → IoManager → FdContext × IoManager → Type 0
Left d w m r =
    (r.0 ≡ d)
    × (r.1.contexts ≡ m.contexts)
    × (r.1.pending ≡ m.pending)
    × (r.1.timers ≡ m.timers)
    × (r.1.scheduler.tasks ≡ m.scheduler.tasks ++ make_task w none ∷ [])

then-Left :
    (k : Kernel) (w : Executable) (m : IoManager) (d : FdContext)
    → k.pipe_write ≡ true
    → has_work (make_task w none) ≡ true
    → Returns (Left d w m) (schedule_io k w m >>= λ m'. ok (d, m'))
then-Left k w m d p h =
    Returns-bind
      (λ m'.
        (m'.contexts ≡ m.contexts)
        × (m'.pending ≡ m.pending)
        × (m'.timers ≡ m.timers)
        × (m'.scheduler ≡ (schedule w none false m.scheduler).0))
      (Left d w m) (schedule_io k w m) (λ m'. ok (d, m')) (schedule_io_lem k w m p)
      (λ m' r. (
        refl,
        r.0,
        r.1,
        r.2,
        ap (λ s. s.tasks) r.3 ∙ (schedule-order w none false m.scheduler h).0,
      ))

trigger_lem :
    (k : Kernel) (e : FdEventType) (c : FdContext) (m : IoManager)
    → ContextOk c
    → has_event c.events e ≡ true
    → k.pipe_write ≡ true
    → Returns (Left (dropped c e) (registered (handler_of c e)) m) (trigger_event k e c m)
unfolding trigger_event
trigger_lem k e c m o h p =
    let found = event_handler c e (remove_event c.events e) o h in
    let fine = valid_handler (handler_of c e) found.1 in
    rw (h, found.0, found.1.0, fine.0, fine.1)
      (then-Left k (registered (handler_of c e)) m (dropped c e) p (fine.2))

-- What trigger_and_count leaves, if the event was wanted and if not.
pub record Triggers (wanted : Bool) (e : FdEventType) (c : FdContext) (m : IoManager)
    (r : FdContext × IoManager) : Type 0 where
  pub context : r.0 ≡ (if wanted then dropped c e else c)
  pub contexts : r.1.contexts ≡ m.contexts
  pub pending : r.1.pending ≡ (if wanted then down m.pending else m.pending)
  pub timers : r.1.timers ≡ m.timers
  pub tasks :
      r.1.scheduler.tasks
      ≡ m.scheduler.tasks
        ++ (if wanted then make_task (registered (handler_of c e)) none ∷ [] else [])

pub trigger_and_count-Triggers :
    (k : Kernel) (wanted : Bool) (e : FdEventType) (c : FdContext) (m : IoManager)
    → ContextOk c
    → (wanted ≡ true → has_event c.events e ≡ true)
    → k.pipe_write ≡ true
    → Returns (Triggers wanted e c m) (trigger_and_count k wanted e c m)
unfolding trigger_and_count
trigger_and_count-Triggers k false e c m o h p = record {
  context = refl;
  contexts = refl;
  pending = refl;
  timers = refl;
  tasks = sym (append-nil _);
}
trigger_and_count-Triggers k true e c m o h p =
    Returns-bind (Left (dropped c e) (registered (handler_of c e)) m) (Triggers true e c m)
      (trigger_event k e c m) _ (trigger_lem k e c m o (h refl) p)
      (λ r q. record {
        context = q.0;
        contexts = q.1;
        pending = ap down q.2;
        timers = q.3;
        tasks = q.4;
      })

pub trigger_and_count-asserts :
    (k : Kernel) (e : FdEventType) (c : FdContext) (m : IoManager)
    → has_event c.events e ≡ false
    → trigger_and_count k true e c m ≡ stop assertion
unfolding trigger_and_count trigger_event
trigger_and_count-asserts k e c m h = rw h refl

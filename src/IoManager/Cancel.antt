-- ===== src/IoManager/Cancel.antt =====
-- triggerEvent, cancelEventListener and cancelAll.
use learn_server_concise.Base.{
  get_elem?-inside, get_elem?-set, ℕ, ◌+◌, ◌^◌, ◌≤◌, ◌≡◌, refl, sym, ap, ◌∙◌, Bool, true, false,
  not, [], ◌∷◌, ◌++◌, none, some, if◌then◌else◌, get_elem?, ok, stop, assertion, Returns, arith,
  Bool-cases, inl, inr,
}
use learn_server_concise.Scheduler.{make_task}
use learn_server_concise.FdContext.{
  FdEventType, none_event, read_event, write_event, EventSet, no_events, has_event, remove_event,
  is_none, FdContext, without,
}
use learn_server_concise.IoManager.{
  Kernel, IoManager, context_at, put_context, trigger_event, cancel_event_listener, cancel_all,
}
use learn_server_concise.IoManager.Contexts.{
  ContextOk, weight, IsValid, replaced-IsValid, pending-bound, All-get,
}
use mathlib.Core.List.{append-nil}
use learn_server_concise.IoManager.Removal.{Accepts, Accepts-ctl}
use learn_server_concise.IoManager.Triggers.{registered}
use learn_server_concise.IoManager.Both.{write_after, both_lem}

has-remove : (es : EventSet) (e : FdEventType) → has_event (remove_event es e) e ≡ false
has-remove es none_event = refl
has-remove es read_event = refl
has-remove es write_event = refl

-- With a kernel that accepts, `cancelEventListener` of an event that is waited for always fails an
-- assertion: the one of triggerEvent that the event is still set in `m_events`.
pub cancel_event_listener-asserts :
    (k : Kernel) (fd : ℕ) (e : FdEventType) (m : IoManager) (c : FdContext)
    → get_elem? m.contexts fd ≡ some c
    → has_event c.events e ≡ true
    → Accepts k fd
    → cancel_event_listener k fd e m ≡ stop assertion
unfolding cancel_event_listener trigger_event
cancel_event_listener-asserts k fd e m c g h a = rw (
  get_elem?-inside m.contexts fd c g,
  g,
  context_at,
  h,
  Accepts-ctl k fd (remove_event c.events e) a,
  has-remove c.events e,
)

-- What cancelAll gives for the context `c`.
pub record Cancels (fd : ℕ) (c : FdContext) (m : IoManager) (r : IoManager × Bool) : Type 0 where
  pub result : r.1 ≡ not (is_none c.events)
  pub waits : (d : FdContext) × (get_elem? r.0.contexts fd ≡ some d) × (d.events ≡ no_events)
  pub pending : r.0.pending + weight c ≡ m.pending
  pub tasks :
      r.0.scheduler.tasks
      ≡ m.scheduler.tasks
        ++ (if c.events.read then make_task (registered c.read_handler) none ∷ [] else [])
        ++ (if c.events.write then make_task (registered c.write_handler) none ∷ [] else [])
  pub valid : IsValid r.0

-- On a valid state, with a kernel that accepts and a pipe that can be written, `cancelAll` returns
-- and says whether the descriptor waited for anything. Afterwards it waits for nothing, the fiber or
-- function of every event that was waited for is scheduled, for reading first, the count of pending
-- events is less by as many, and the state is valid.
pub cancel_all-Cancels :
    (k : Kernel) (fd : ℕ) (m : IoManager) (c : FdContext)
    → IsValid m
    → get_elem? m.contexts fd ≡ some c
    → Accepts k fd
    → k.pipe_write ≡ true
    → Returns (Cancels fd c m) (cancel_all k fd m)
unfolding cancel_all
cancel_all-Cancels k fd m c v g a p = elim (Bool-cases (is_none c.events)) [
  | inl h ↦
      rw (get_elem?-inside m.contexts fd c g, g, context_at, h)
        (record {
          result = sym (ap not h);
          waits = (c, g, (none_waits h).0);
          pending = ground (arith, none_waits h);
          tasks = rw ((none_waits h).1, (none_waits h).2) (sym (append-nil _ ∙ append-nil _));
          valid = v;
        })
  | inr h ↦
      rw (get_elem?-inside m.contexts fd c g, g, context_at, h, (a no_events).1)
        (both_lem c.events.read c.events.write c fits (λ e. e) (λ e. e) k m (λ d. d.events.write)
          (Cancels fd c m) (λ r. ok (put_context fd (record r.0 { events = no_events }) r.1, true))
          (write_after c.events.read c.events.write c fits (λ e. e) (λ e. e)) bound.0 bound.1 p
          (λ r t. record {
            result = sym (ap not h);
            waits = (
              record r.0 { events = no_events },
              rw t.contexts (get_elem?-set m.contexts fd c (record r.0 { events = no_events }) g),
              refl,
            );
            pending = omega (arith, t.pending, (gone r.0 t.events t.fits).1);
            tasks = t.tasks;
            valid =
                replaced-IsValid m _ fd c _ v g (gone r.0 t.events t.fits).0 (rw t.contexts refl)
                  (omega (arith, t.pending, (gone r.0 t.events t.fits).1));
          }))
]
  where
    fits : ContextOk c
    fits = All-get ContextOk m.contexts fd c v.contexts_ok g

    bound : (m.pending ≤ 2 ^ 33) × (weight c ≤ m.pending)
    bound = pending-bound m fd c v g

    none_waits :
        is_none c.events ≡ true
        → (c.events ≡ no_events) × (c.events.read ≡ false) × (c.events.write ≡ false)
    none_waits h = ground arith

    gone :
        (d : FdContext)
        → d.events ≡ without c.events c.events
        → ContextOk d
        → ContextOk (record d { events = no_events }) × (weight d ≡ 0)
    gone d e q = ground (arith, q.reads, q.writes)

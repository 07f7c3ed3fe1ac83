-- ===== src/IdleLoop/Ready.antt =====
-- The part of onIdle that serves the events of epoll_wait.
use learn_server_concise.Base.{
  get_elem?-set, get_elem?-set_other, ◌≢◌, ℕ, ◌^◌, ◌≤◌, ◌≡◌, refl, sym, ◌∙◌, true, false, [], ◌∷◌,
  ◌++◌, none, some, if◌then◌else◌, get_elem?, ok, stop, assertion, Returns, arith, Bool-cases, inl,
  inr,
}
use learn_server_concise.Scheduler.{make_task}
use learn_server_concise.FdContext.{
  read_event, write_event, EventSet, is_none, FdContext, common, without,
}
use learn_server_concise.IoManager.{Kernel, IoManager, context_at, put_context, trigger_and_count}
use learn_server_concise.IoManager.Contexts.{
  ContextOk, weight, IsValid, replaced-IsValid, pending-bound, All-get,
}
use mathlib.Core.List.{append-nil}
use learn_server_concise.IoManager.Both.{both_lem}
use learn_server_concise.IoManager.Triggers.{
  registered, Triggers, trigger_and_count-Triggers, trigger_and_count-asserts,
}
use learn_server_concise.IdleLoop.{Flags, on_context, real_events, handle_event}
use learn_server_concise.Base.{Returns-value}

-- What serving an event gives, where `c` is its context and `es` are the events that are ready.
pub record Handles (fd : ℕ) (es : EventSet) (c : FdContext) (m m' : IoManager) : Type 0 where
  pub waits :
      (d : FdContext) × (get_elem? m'.contexts fd ≡ some d) × (d.events ≡ without c.events es)
  pub tasks :
      m'.scheduler.tasks
      ≡ m.scheduler.tasks
        ++ (if es.read then make_task (registered c.read_handler) none ∷ [] else [])
        ++ (if es.write then make_task (registered c.write_handler) none ∷ [] else [])
  pub others : (other : ℕ) → fd ≢ other → get_elem? m'.contexts other ≡ get_elem? m.contexts other
  pub timers : m'.timers ≡ m.timers
  pub valid : IsValid m'

module _ (k : Kernel) (fd : ℕ) (flags : Flags) (m : IoManager) (c : FdContext) (v : IsValid m)
    (g : get_elem? m.contexts fd ≡ some c) (p : k.pipe_write ≡ true) where
  fits : ContextOk c
  fits = All-get ContextOk m.contexts fd c v.contexts_ok g

  bound : (m.pending ≤ 2 ^ 33) × (weight c ≤ m.pending)
  bound = pending-bound m fd c v g

  nothing_ready :
      is_none (common c.events (real_events flags)) ≡ true
      → ((real_events flags).read ≡ true → c.events.read ≡ true)
      → ((real_events flags).write ≡ true → c.events.write ≡ true)
      → ((real_events flags).read ≡ false) × ((real_events flags).write ≡ false)
  nothing_ready h hr hw = ground arith

  -- On a valid state, and where the pipe can be written, an event whose flags are all waited for is
  -- served: the fiber or function of each ready event is scheduled, for reading first, the context
  -- waits for the other events only, no other context and no timer changes, and the state stays valid.
  pub handle_event-Handles :
      ((real_events flags).read ≡ true → c.events.read ≡ true)
      → ((real_events flags).write ≡ true → c.events.write ≡ true)
      → Returns (Handles fd (real_events flags) c m) (handle_event k (on_context fd flags) m)
  unfolding handle_event
  handle_event-Handles hr hw = elim (Bool-cases (is_none (common c.events (real_events flags)))) [
    | inl h ↦
        rw (g, context_at, h)
          (record {
            waits = (c, g, ground (arith, nothing_ready h hr hw));
            tasks =
                rw ((nothing_ready h hr hw).0, (nothing_ready h hr hw).1)
                  (sym (append-nil _ ∙ append-nil _));
            others = λ other n. refl;
            timers = refl;
            valid = v;
          })
    | inr h ↦
        rw (g, context_at, h)
          (both_lem (real_events flags).read (real_events flags).write c fits hr hw k m
            (λ d. (real_events flags).write) (Handles fd (real_events flags) c m)
            (λ r. ok (put_context fd r.0 r.1)) refl bound.0 bound.1 p
            (λ r t. record {
              waits = (r.0, rw t.contexts (get_elem?-set m.contexts fd c r.0 g), t.events);
              tasks = t.tasks;
              others = λ other n. rw t.contexts (get_elem?-set_other m.contexts fd other r.0 n);
              timers = t.timers;
              valid = replaced-IsValid m _ fd c _ v g t.fits (rw t.contexts refl) t.pending;
            }))
  ]

  -- On a valid state, and where the pipe can be written, an event that makes ready one event that the
  -- context waits for and another that it does not fails the assertion of triggerEvent.
  pub handle_event-asserts :
      is_none (common c.events (real_events flags)) ≡ false
      → is_none (without (real_events flags) c.events) ≡ false
      → handle_event k (on_context fd flags) m ≡ stop assertion
  unfolding handle_event
  handle_event-asserts h extra = elim (Bool-cases c.events.read) [
    | inr hr ↦
        rw (g, context_at, h, read_wanted hr, trigger_and_count-asserts k read_event c m hr) refl
    | inl hr ↦
        let first =
          Returns-value (Triggers true read_event c m) (trigger_and_count k true read_event c m)
            (trigger_and_count-Triggers k true read_event c m fits (λ e. hr) p) in
        rw (g, context_at, h, (write_wanted hr).0, (write_wanted hr).1, first.1)
          (rw
            (trigger_and_count-asserts k write_event first.0.0 first.0.1
              (rw first.2.context (write_wanted hr).2))
            refl)
  ]
    where
      read_wanted : c.events.read ≡ false → (real_events flags).read ≡ true
      read_wanted hr = ground arith

      write_wanted :
          c.events.read ≡ true
          → ((real_events flags).read ≡ true)
            × ((real_events flags).write ≡ true)
            × (c.events.write ≡ false)
      write_wanted hr = ground arith

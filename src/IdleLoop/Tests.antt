-- ===== src/IdleLoop/Tests.antt =====
-- IOManager::onIdle of src/io_manager.cc on concrete events.
use learn_server_concise.Base.{
  ◌==◌, if◌then◌else◌, ◌≡◌, refl, true, false, [], ◌∷◌, some, none, stop, assertion, Returns, arith,
}
use learn_server_concise.FdContext.{FdContext, fresh_context}
use learn_server_concise.IoManager.{Kernel, IoManager}
use learn_server_concise.IoManager.Contexts.{IsValid, total}
use learn_server_concise.IdleLoop.{
  Flags, on_context, idle_round, from_pipe, real_events, handle_event,
}
use learn_server_concise.IdleLoop.Ready.{Handles, handle_event-Handles, handle_event-asserts}
use learn_server_concise.Timer.{comparator}
use learn_server_concise.IdleLoop.Round.{IsSound, idle_round-Ends}

abbrev willing : Kernel
willing = record { epoll_ctl = λ op fd es. true; pipe_write = true }

-- Descriptor 0 waits for reading, with fiber 6.
abbrev reader : FdContext
reader = record {
  read_handler = record { scheduler = true; fiber = some 6; callback = none };
  write_handler = record { scheduler = false; fiber = none; callback = none };
  fd = 0;
  events = record { read = true; write = false };
}

abbrev reading : IoManager
reading = record {
  scheduler = record {
    root_thread_id = none;
    root_fiber = none;
    thread_id_list = 2 ∷ [];
    thread_count = 1;
    active = 0;
    idle = 1;
    stopping = false;
    auto_stop = false;
    thread_list = 2 ∷ [];
    tasks = [];
  };
  contexts = reader ∷ fresh_context 1 ∷ [];
  timers = record {
    heap = λ p. record { cyclic = false; ms = 0; next = 0; fn = none };
    timers = [];
    previous_time = 0;
  };
  pending = 1;
  piped = 0;
}

reading-IsValid : IsValid reading
unfolding total
reading-IsValid = record {
  contexts_ok = (
    record { reads = (refl, refl); writes = refl },
    (record { reads = refl; writes = refl }, tt),
  );
  counted = refl;
  few = omega arith;
}

abbrev readable_only : Flags
readable_only = record { readable = true; writable = false; failed = false; hung_up = false }

abbrev hung_up_only : Flags
hung_up_only = record { readable = false; writable = false; failed = false; hung_up = true }

handle_event-Handles_example :
    Returns
      (Handles 0 (real_events readable_only) reader reading)
      (handle_event willing (on_context 0 readable_only) reading)
handle_event-Handles_example =
    handle_event-Handles willing 0 readable_only reading reader reading-IsValid refl refl
      (λ e. refl) (λ e. cc)

handle_event-asserts_example :
    handle_event willing (on_context 0 hung_up_only) reading ≡ stop assertion
handle_event-asserts_example =
    handle_event-asserts willing 0 hung_up_only reading reader reading-IsValid refl refl refl refl

-- Timer 1 was due at 100; the queue is read at 150.
abbrev reading_late : IoManager
reading_late = record reading {
  timers = record {
    heap = λ p. record { cyclic = true; ms = 10; next = 100; fn = if p == 1 then some 7 else none };
    timers = 1 ∷ [];
    previous_time = 50;
  };
}

reading_late-IsSound : IsSound reading_late
unfolding comparator
reading_late-IsSound = record {
  listeners = record {
    contexts_ok = reading-IsValid.contexts_ok;
    counted = reading-IsValid.counted;
    few = reading-IsValid.few;
  };
  timers = record {
    ordered = ground arith;
    nonnull = refl;
    armed = λ p h. ground arith;
    apart = λ p h. absurd (cc);
    distinct = tt;
    ps_nonnull = refl;
  };
}

-- The descriptor 0 is readable, and only that.
idle_round-Ends_example :
    Returns IsSound
      (idle_round willing 3 150 (from_pipe ∷ on_context 0 readable_only ∷ []) reading_late)
idle_round-Ends_example =
    idle_round-Ends willing refl 3 150 (from_pipe ∷ on_context 0 readable_only ∷ []) reading_late
      reading_late-IsSound (omega arith) refl ((reader, refl), tt) (refl, tt)

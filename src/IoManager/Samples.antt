-- ===== src/IoManager/Samples.antt =====
-- A kernel and a manager for the tests of src/io_manager.cc and src/hook.cc.
use learn_server_concise.Base.{refl, true, false, [], ◌∷◌, some, none, arith}
use learn_server_concise.FdContext.{FdContext, fresh_context}
use learn_server_concise.IoManager.{Kernel, IoManager}
use learn_server_concise.IoManager.Contexts.{IsValid, total}
use learn_server_concise.Timer.Invariant as Timers

abbrev pub willing : Kernel
willing = record { epoll_ctl = λ op fd es. true; pipe_write = true }

-- Descriptor 0 waits for reading, with fiber 6, and for writing, with function 7; 1 waits for nothing.
abbrev pub busy_context : FdContext
busy_context = record {
  read_handler = record { scheduler = true; fiber = some 6; callback = none };
  write_handler = record { scheduler = true; fiber = none; callback = some 7 };
  fd = 0;
  events = record { read = true; write = true };
}

abbrev pub busy : IoManager
busy = record {
  scheduler = record {
    root_thread_id = none;
    root_fiber = none;
    thread_id_list = 2 ∷ [];
    thread_count = 1;
    active = 0;
    idle = 0;
    stopping = false;
    auto_stop = false;
    thread_list = 2 ∷ [];
    tasks = [];
  };
  contexts = busy_context ∷ fresh_context 1 ∷ [];
  timers = record {
    heap = λ p. record { cyclic = false; ms = 0; next = 0; fn = none };
    timers = [];
    previous_time = 0;
  };
  pending = 2;
  piped = 0;
}

pub busy-IsValid : IsValid busy
unfolding total
busy-IsValid = record {
  contexts_ok = (
    record { reads = (refl, refl); writes = (refl, refl) },
    (record { reads = refl; writes = refl }, tt),
  );
  counted = refl;
  few = omega arith;
}

pub no_timers-IsValid : Timers.IsValid busy.timers
no_timers-IsValid = record {
  ordered = tt;
  nonnull = refl;
  armed = λ p h. absurd (cc);
  apart = λ p h. absurd (cc);
  distinct = tt;
  ps_nonnull = refl;
}

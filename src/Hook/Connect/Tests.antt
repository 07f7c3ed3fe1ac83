-- ===== src/Hook/Connect/Tests.antt =====
-- connectWithTimeout of src/hook.cc on a concrete manager.
use learn_server_concise.Base.{◌≡◌, refl, true, false, some, none, Returns, stop, assertion, arith}
use learn_server_concise.FdContext.{write_event, fresh_context}
use learn_server_concise.IoManager.{make_room}
use learn_server_concise.IoManager.Samples.{willing, busy, busy-IsValid, no_timers-IsValid}
use learn_server_concise.FdManager.{FileDescriptor, forever}
use learn_server_concise.Hook.Connect.{in_progress, connect_with_timeout}
use learn_server_concise.Hook.Wait.{run_time_out}
use learn_server_concise.Hook.Wait.Begun.{CanWait}
use learn_server_concise.Hook.Connect.Waits.{
  Waits, connect_with_timeout-Waits, connect_with_timeout-aborts,
}

abbrev blocking_socket : FileDescriptor
blocking_socket = record {
  is_init = true;
  is_socket = true;
  system_non_block = true;
  user_non_block = false;
  is_closed = false;
  fd = 1;
  recv_timeout = forever;
  send_timeout = forever;
}

-- Fiber 9 waits for the descriptor 1, at most 100 ms.
busy-CanWait : CanWait willing 5 1 write_event busy (fresh_context 1)
unfolding make_room
busy-CanWait = record {
  listens = record {
    valid = busy-IsValid;
    context = refl;
    small = omega arith;
    free = refl;
    accepted = refl;
    piped = refl;
  };
  timers_valid = no_timers-IsValid;
  nonnull = λ e. absurd (omega (arith, e));
  fresh = refl;
}

connect_with_timeout-Waits_example :
    Returns (Waits willing 5 7 1000 100 1 9 busy (fresh_context 1)) (
      connect_with_timeout willing 5 7 1000 100 1 9 true
        (some blocking_socket)
        in_progress
        none
        busy)
connect_with_timeout-Waits_example =
    connect_with_timeout-Waits willing 5 7 1000 100 1 9 busy (fresh_context 1) blocking_socket none
      busy-CanWait (refl, refl, refl)

connect_with_timeout-aborts_example :
    Returns
      (λ r. run_time_out willing 1 write_event true false r.0 ≡ stop assertion)
      (connect_with_timeout willing 5 7 1000 100 1 9 true
        (some blocking_socket)
        in_progress
        none
        busy)
connect_with_timeout-aborts_example =
    connect_with_timeout-aborts willing 5 7 1000 100 1 9 busy (fresh_context 1) blocking_socket none
      busy-CanWait (refl, refl, refl) (λ es. (refl, refl))

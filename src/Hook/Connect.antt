-- ===== src/Hook/Connect.antt =====
-- connectWithTimeout of src/hook.cc, on the state of the IOManager. The code before the fiber is swapped out and the code behind it are two
-- definitions, between which the other fibers and the idle loop run.
pub mod Waits
mod Tests
use learn_server_concise.Base.{
  ℕ, zero, suc, Bool, true, false, not, ◌&&◌, ◌||◌, Option, none, some, ◌==◌, if◌then◌else◌,
  Outcome, ok, stop, ◌>>=◌,
}
use learn_server_concise.FdContext.{write_event}
use learn_server_concise.IoManager.{Kernel, IoManager}
use learn_server_concise.Hook.Wait.{begin_wait, cancel_timer}
use learn_server_concise.FdManager.{FileDescriptor}
use learn_server_concise.Fiber.{is_some}

-- What connect_f does: it returns 0, or -1 with EINPROGRESS in errno, or with another error.
pub data ConnectCall : Type 0 where
  connected in_progress : ConnectCall
  not_connected : ℕ → ConnectCall

-- What connectWithTimeout returns: 0, or -1 with an errno: the one of connect_f or of the socket,
-- EBADF or ETIMEDOUT, or what getsockopt leaves there.
pub data ConnectResult : Type 0 where
  success bad_descriptor timed_out no_answer : ConnectResult
  failure : ℕ → ConnectResult

-- Whether connect_f's answer is returned as it is.
abbrev pub answer : ConnectCall → Option ConnectResult
answer connected = some success
answer in_progress = none
answer (not_connected errno) = some (failure errno)

-- `return connect_f(sockfd, addr, addrlen)`
abbrev pub pass_on : ConnectCall → ConnectResult
pass_on connected = success
-- EINPROGRESS
pass_on in_progress = failure 115
pass_on (not_connected errno) = failure errno

-- The part up to the wait: a result, or `none` where the connection is in progress. `enabled` is
-- t_hook_enabled and `entry` what the descriptor manager has.
pub connect_directly : Bool → Option FileDescriptor → ConnectCall → Option ConnectResult
connect_directly enabled entry call = if not enabled then some (pass_on call) else elim entry [
  | none ↦ some bad_descriptor
  | some f ↦
      if f.is_closed
      then some bad_descriptor
      else if not f.is_socket
      then some (pass_on call)
      else if f.user_non_block
      then some (pass_on call)
      else answer call
]

-- What the socket's SO_ERROR says; `none` where getsockopt fails.
pub socket_error : Option ℕ → ConnectResult
socket_error none = no_answer
socket_error (some zero) = success
socket_error (some (suc errno)) = failure (suc errno)

-- The part behind the wait, or without one where the event is not listened for.
pub connect_after :
    Option ℕ → Bool → Bool → Option ℕ → IoManager → Outcome (IoManager × ConnectResult)
unfolding socket_error cancel_timer
connect_after timer added cancelled so_error m = do
  m' ← cancel_timer timer m
  ok (m', if added && cancelled then timed_out else socket_error so_error)

-- What connectWithTimeout has come to when it gives up control: it returned, or its fiber waits.
pub data ConnectState : Type 0 where
  returned : ConnectResult → ConnectState
  waiting : Option ℕ → ConnectState

-- connectWithTimeout up to there.
pub connect_with_timeout :
    Kernel
    → (p cb now timeout fd this_fiber : ℕ) → Bool
    → Option FileDescriptor
    → ConnectCall
    → Option ℕ
    → IoManager
    → Outcome (IoManager × ConnectState)
unfolding connect_directly begin_wait connect_after
connect_with_timeout k p cb now timeout fd this_fiber enabled entry call so_error m =
    let started : Outcome (IoManager × ConnectState) = do
      begun ← begin_wait k p cb now timeout fd write_event this_fiber m
      let listening : Outcome (IoManager × ConnectState) = ok (begun.0, waiting begun.1)
      let not_listening : Outcome (IoManager × ConnectState) = do
        r ← connect_after begun.1 false false so_error begun.0
        ok (r.0, returned r.1)
      if begun.2 then listening else not_listening
    in elim (connect_directly enabled entry call) [ some r ↦ ok (m, returned r) | none ↦ started ]

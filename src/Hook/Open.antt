-- ===== src/Hook/Open.antt =====
-- socket, accept and close of src/hook.cc: how descriptors enter the manager, and leave it.
pub mod Close
mod Tests
use learn_server_concise.Base.{
  ℕ, Bool, true, false, not, List, Option, none, some, if◌then◌else◌, Outcome, ok, stop, ◌>>=◌,
}
use learn_server_concise.Fiber.{is_some}
use learn_server_concise.FdManager.{Os, FileDescriptor, receive, get, remove}
use learn_server_concise.IoManager.{Kernel, IoManager, cancel_all}
use learn_server_concise.FdContext.{read_event}
use learn_server_concise.Hook.Io.{returned, IoResult, passed, bytes, Surroundings, do_io}

-- The descriptor that accept returns, if that is not -1.
abbrev pub accepted_fd : IoResult → Option ℕ
accepted_fd (bytes fd) = some fd
accepted_fd (passed (returned fd)) = some fd
accepted_fd _ = none

-- `if (iom) iom->cancelAll(fd);`
pub cancel_waits : Kernel → ℕ → Option IoManager → Outcome (Option IoManager)
cancel_waits k fd none = ok none
cancel_waits k fd (some m) = cancel_all k fd m >>= λ r. ok (some r.0)

module _ {S : Type 0} (os : Os S) where
  -- What socket and accept do with the descriptor that the real call returned: it enters the manager.
  pub register :
      Option ℕ
      → List (Option FileDescriptor)
      → S
      → Outcome (Option ℕ × List (Option FileDescriptor) × S)
  register none fds s = ok (none, fds, s)
  register (some fd) fds s = get os fd true fds s >>= λ found. ok (some fd, found.1, found.2)

  -- socket, where `made` is what the real call returns; -1 is `none`.
  pub socket :
      Bool
      → Option ℕ
      → List (Option FileDescriptor)
      → S
      → Outcome (Option ℕ × List (Option FileDescriptor) × S)
  unfolding register
  socket enabled made fds s = if not enabled then ok (made, fds, s) else register made fds s

  -- accept on the listening socket `fd`, on a thread with the hooks enabled or not; `entry` is what the
  -- manager has for it.
  pub accept :
      Surroundings
      → ℕ
      → Bool
      → Option FileDescriptor
      → (fd this_fiber : ℕ) → IoManager
      → List (Option FileDescriptor)
      → S
      → Outcome (IoManager × Option ℕ × List (Option FileDescriptor) × S)
  unfolding register
  accept around n enabled entry fd this_fiber m fds s = do
    r ← do_io around n enabled entry fd read_event receive this_fiber m
    opened ← register (accepted_fd r.1) fds s
    ok (r.0, opened.0, opened.1, opened.2)

  -- close, on a thread of the manager `iom`, or of none: what is left when the real call is made.
  pub close :
      Kernel
      → Bool
      → ℕ
      → Option IoManager
      → List (Option FileDescriptor)
      → S
      → Outcome (Option IoManager × List (Option FileDescriptor))
  unfolding cancel_waits
  close k enabled fd iom fds s =
      let same : Outcome (Option IoManager × List (Option FileDescriptor)) = ok (iom, fds) in
      let closing : Outcome (Option IoManager × List (Option FileDescriptor)) = do
        found ← get os fd false fds s
        let known : Outcome (Option IoManager × List (Option FileDescriptor)) = do
          iom' ← cancel_waits k fd iom
          ok (iom', remove fd fds)
        elim found.0 [ none ↦ same | some f ↦ known ]
      in if not enabled then same else closing

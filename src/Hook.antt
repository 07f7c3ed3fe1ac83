-- ===== src/Hook.antt =====
-- The replacements of system calls in include/hook.h and src/hook.cc, on a thread with the hooks
-- enabled. The real calls are arguments.
pub mod NonBlock
pub mod Wait
pub mod Io
pub mod Connect
pub mod Open
pub mod Calls
pub mod Sleep
mod Tests
use learn_server_concise.Base.{
  ℕ, zero, suc, ◌+◌, ◌*◌, ◌%◌, ◌^◌, Bool, true, false, not, ◌||◌, List, Option, none, some, ltb,
  ◌==◌, if◌then◌else◌, set, Outcome, ok, stop, out_of_fuel, ◌>>=◌,
}
use Prim.Native.Nat.{◌/◌}
use learn_server_concise.FdManager.{
  Word, Os, FileDescriptor, TimeoutType, get, forever, set_timeout, get_timeout,
}
use learn_server_concise.Timer.{TimerManager, add_timer}

-- Whether a hook leaves a descriptor to the system.
abbrev pub is_passed : FileDescriptor → Bool
is_passed f = f.is_closed || not f.is_socket

abbrev pub put_descriptor :
    ℕ → FileDescriptor → List (Option FileDescriptor) → List (Option FileDescriptor)
put_descriptor fd f fds = set fds fd (some f)

module _ {S : Type 0} (os : Os S) where
  -- fcntl(fd, F_SETFL, arg)
  pub fcntl_set_flags :
      ℕ → Word → List (Option FileDescriptor) → S → Outcome (List (Option FileDescriptor) × S)
  fcntl_set_flags fd arg fds s = do
    found ← get os fd false fds s
    let passed : Outcome (List (Option FileDescriptor) × S) = ok (fds, os.set_flags fd arg s)
    elim found.0 [
      | none ↦ passed
      | some f ↦
          if is_passed f
          then passed
          else ok (
            put_descriptor fd (record f { user_non_block = arg.non_block }) fds,
            os.set_flags fd (record arg { non_block = f.system_non_block }) s,
          )
    ]

  -- fcntl(fd, F_GETFL)
  pub fcntl_get_flags : ℕ → List (Option FileDescriptor) → S → Outcome Word
  fcntl_get_flags fd fds s = do
    let arg = os.get_flags fd s
    found ← get os fd false fds s
    ok (elim found.0 [
      | none ↦ arg
      | some f ↦ if is_passed f then arg else record arg { non_block = f.user_non_block }
    ])

  -- setsockopt(fd, SOL_SOCKET, type, {sec, usec}), what it does to the manager
  pub set_socket_timeout :
      ℕ
      → TimeoutType
      → ℕ
      → ℕ
      → List (Option FileDescriptor)
      → S
      → Outcome (List (Option FileDescriptor))
  set_socket_timeout fd type sec usec fds s = do
    found ← get os fd false fds s
    ok (elim found.0 [
      | none ↦ fds
      | some f ↦ put_descriptor fd (set_timeout type ((sec * 1000 + usec / 1000) % 2 ^ 64) f) fds
    ])

  -- ioctl, for at most the given number of calls of itself: `wants` is the value behind the argument
  -- of FIONBIO, for any other request `none`. The result is that the real call was made.
  pub ioctl :
      ℕ
      → ℕ
      → Option Bool
      → List (Option FileDescriptor)
      → S
      → Outcome (List (Option FileDescriptor))
  ioctl zero fd wants fds s = stop out_of_fuel
  ioctl (suc calls) fd none fds s = ioctl calls fd none fds s
  ioctl (suc calls) fd (some b) fds s = get os fd false fds s >>= λ found. elim found.0 [
    | none ↦ ok fds
    | some f ↦
        if is_passed f
        then ok fds
        else ioctl calls fd (some b) (put_descriptor fd (record f { user_non_block = b }) fds) s
  ]

-- sleep: the delay of the timer that it adds, `seconds * 1000` in 32 bits
unfoldable pub sleep_delay : ℕ → ℕ
sleep_delay seconds = seconds * 1000 % 2 ^ 32

-- ===== src/Hook/Io.antt =====
-- doIO of src/hook.cc, on the state of the IOManager. The real calls, the allocation of the timers, the
-- clock and what runs while the fiber is swapped out are arguments.
pub mod First
mod Tests
use learn_server_concise.Base.{
  ℕ, zero, suc, ◌+◌, Bool, true, false, not, ◌||◌, Option, none, some, if◌then◌else◌, Outcome, ok,
  stop, out_of_fuel, ◌>>=◌,
}
use learn_server_concise.Timer.{TimerManager}
use learn_server_concise.FdContext.{FdEventType}
use learn_server_concise.FdManager.{FileDescriptor, TimeoutType, get_timeout}
use learn_server_concise.IoManager.{Kernel, IoManager}
use learn_server_concise.Hook.Wait.{begin_wait, cancel_timer}

-- What the real call returns: a number of bytes or another error, -1 with EINTR, -1 with EAGAIN.
pub data CallResult : Type 0 where
  returned : ℕ → CallResult
  failed : ℕ → CallResult
  interrupted try_again : CallResult

-- What doIO returns: what the only call returned, or what the last call of the loop did; a failure of
-- addEventListener, the time-out, or EBADF.
pub data IoResult : Type 0 where
  passed : CallResult → IoResult
  bytes : ℕ → IoResult
  error : ℕ → IoResult
  not_added expired bad_descriptor : IoResult

-- What doIO runs in: the kernel; `new_timer` is the address that `new` returns for a timer, and `cb` the
-- call-back that is bound for it; `now` is the clock at the start of a wait; `calls` are the results of
-- the real calls. `swapped_out` is what runs from Fiber::YieldToHold until it returns, where the Boolean
-- says whether the call-back has set `cancelled` of the TimerInfo. Waits and calls are numbered.
pub record Surroundings : Type 0 where
  pub kernel : Kernel
  pub new_timer : TimerManager → ℕ
  pub cb : ℕ
  pub now : ℕ → ℕ
  pub calls : ℕ → CallResult
  pub swapped_out : ℕ → IoManager → Outcome (IoManager × Bool)

module _ (around : Surroundings) (timeout fd : ℕ) (event : FdEventType) (this_fiber : ℕ) where
  -- One wait, with number `j`: whether the event is listened for, and whether `cancelled` was set.
  unfoldable pub wait_for_event : ℕ → IoManager → Outcome (IoManager × Bool × Bool)
  wait_for_event j m = do
    begun ←
        begin_wait around.kernel (around.new_timer m.timers) around.cb (around.now j) timeout fd
          event this_fiber m
    let listening : Outcome (IoManager × Bool × Bool) = do
      back ← around.swapped_out j begun.0
      m' ← cancel_timer begun.1 back.0
      ok (m', true, back.1)
    let not_listening : Outcome (IoManager × Bool × Bool) = do
      m' ← cancel_timer begun.1 begun.0
      ok (m', false, false)
    if begun.2 then listening else not_listening

  -- The part of doIO from RETRY on, from call `i` and wait `j` on, for at most the given number of calls.
  unfoldable pub retry : ℕ → ℕ → ℕ → IoManager → Outcome (IoManager × IoResult)
  retry zero i j m = stop out_of_fuel
  retry (suc n) i j m =
      let next = retry n (i + 1) j m in
      let try_later : Outcome (IoManager × IoResult) = do
        (m', listened, cancelled) ← wait_for_event j m
        let woken = retry n (i + 1) (j + 1) m'
        if not listened then ok (m', not_added) else if cancelled then ok (m', expired) else woken
      in elim (around.calls i) [
        | returned k ↦ ok (m, bytes k)
        | failed errno ↦ ok (m, error errno)
        | interrupted ↦ next
        | try_again ↦ try_later
      ]

-- doIO, where `enabled` is t_hook_enabled and `entry` what the manager has for the descriptor.
unfoldable pub do_io :
    Surroundings
    → ℕ
    → Bool
    → Option FileDescriptor
    → (fd : ℕ) → FdEventType
    → TimeoutType
    → (this_fiber : ℕ) → IoManager
    → Outcome (IoManager × IoResult)
do_io around n enabled entry fd event type this_fiber m =
    let only_call : Outcome (IoManager × IoResult) = ok (m, passed (around.calls 0)) in
    if not enabled then only_call else elim entry [
      | none ↦ only_call
      | some f ↦
          if f.is_closed
          then ok (m, bad_descriptor)
          else if not f.is_socket || f.user_non_block
          then only_call
          else retry around (get_timeout type f) fd event this_fiber n 0 0 m
    ]

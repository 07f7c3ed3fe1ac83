-- ===== src/Hook/Connect/Waits.antt =====
-- connectWithTimeout on the manager of the events and of the timers.
use learn_server_concise.Base.{
  ℕ, ◌+◌, ◌≡◌, refl, Bool, true, false, Option, none, some, if◌then◌else◌, get_elem?, ap, stop,
  assertion, Returns, Returns-bind, Returns-weaken,
}
use learn_server_concise.Timer.Invariant as Timers
use learn_server_concise.FdContext.{write_event, FdContext}
use learn_server_concise.IoManager.{Kernel, IoManager}
use learn_server_concise.IoManager.Contexts.{IsValid}
use learn_server_concise.IoManager.Listeners.{waited_for}
use learn_server_concise.IoManager.Removal.{Accepts}
use learn_server_concise.IoManager.Cancel.{cancel_event_listener-asserts}
use learn_server_concise.FdManager.{FileDescriptor}
use learn_server_concise.Hook.Wait.{begin_wait, cancel_timer, run_time_out}
use learn_server_concise.Hook.Wait.Begun.{
  CanWait, Timed, timer_of, Begun, begin_wait-Begun, Disarmed, cancel_timer-Disarmed,
}
use learn_server_concise.Hook.Connect.{
  in_progress, ConnectResult, timed_out, connect_directly, socket_error, connect_after,
  ConnectState, waiting, connect_with_timeout,
}

-- A socket that the program uses in blocking mode.
abbrev pub IsBlocking : FileDescriptor → Type 0
IsBlocking f = (f.is_closed ≡ false) × (f.is_socket ≡ true) × (f.user_non_block ≡ false)

module _ (k : Kernel) (p cb now timeout fd this_fiber : ℕ) (m : IoManager) (c : FdContext) where
  -- A fiber waits to write, with a timer unless the time-out is without limit.
  pub record Waits (r : IoManager × ConnectState) : Type 0 where
    pub state : r.1 ≡ waiting (timer_of p timeout)
    pub timed : Timed p cb now timeout m.timers r.0.timers
    pub valid : IsValid r.0
    pub timers_valid : Timers.IsValid r.0.timers
    pub context : get_elem? r.0.contexts fd ≡ some (waited_for c write_event none this_fiber)
    pub pending : r.0.pending ≡ m.pending + 1

  abbrev Starts : IoManager × Option ℕ × Bool → Type 0
  Starts = Begun k p cb now timeout fd write_event this_fiber m c

  directly_lem :
      (f : FileDescriptor) → IsBlocking f → connect_directly true (some f) in_progress ≡ none
  unfolding connect_directly
  directly_lem f b = rw (b.0, b.1, b.2) refl

  -- Where a connection on a blocking socket is in progress, and the kernel accepts, connectWithTimeout
  -- gives up control: its fiber is what waits to write on the descriptor, one more event is
  -- pending, both managers are valid, and unless the time-out is without limit a timer is queued, for the
  -- time-out from now on and with the call-back. The conditions are that both managers are valid, `new`
  -- returned an address that is not queued, the descriptor is in range, nobody waits to write on it,
  -- and the kernel and the pipe accept.
  pub connect_with_timeout-Waits :
      (f : FileDescriptor) (so_error : Option ℕ)
      → CanWait k p fd write_event m c
      → IsBlocking f
      → Returns Waits (
          connect_with_timeout k p cb now timeout fd this_fiber true
            (some f)
            in_progress
            so_error
            m)
  unfolding connect_with_timeout
  connect_with_timeout-Waits f so_error w b =
      rw (directly_lem f b, connect_with_timeout)
        (Returns-bind Starts Waits (begin_wait k p cb now timeout fd write_event this_fiber m) _
          (begin_wait-Begun k p cb now timeout fd write_event this_fiber m c w (λ x. absurd (cc)))
          (λ r h. rw h.listened (record {
            state = ap waiting h.timer;
            timed = h.timed;
            valid = h.valid;
            timers_valid = h.timers_valid;
            context = h.context;
            pending = h.pending;
          })))

  -- In the state in which connectWithTimeout leaves a connection in progress on a blocking socket,
  -- where the kernel accepts, the call-back of its timer always ends the process: it cancels the
  -- event, which fails an assertion.
  pub connect_with_timeout-aborts :
      (f : FileDescriptor) (so_error : Option ℕ)
      → CanWait k p fd write_event m c
      → IsBlocking f
      → Accepts k fd
      → Returns
          (λ r. run_time_out k fd write_event true false r.0 ≡ stop assertion)
          (connect_with_timeout k p cb now timeout fd this_fiber true
            (some f)
            in_progress
            so_error
            m)
  unfolding run_time_out
  connect_with_timeout-aborts f so_error w b a =
      Returns-weaken Waits _
        (connect_with_timeout k p cb now timeout fd this_fiber true (some f) in_progress so_error m)
        (connect_with_timeout-Waits f so_error w b)
        (λ r h.
          rw
            (cancel_event_listener-asserts k fd write_event r.0
              (waited_for c write_event none this_fiber) h.context refl a)
            refl)

-- What a wait leaves when it is over.
pub record After (p : ℕ) (cancelled : Bool) (so_error : Option ℕ) (m : IoManager)
    (r : IoManager × ConnectResult) : Type 0 where
  pub result : r.1 ≡ (if cancelled then timed_out else socket_error so_error)
  pub disarmed : (r.0.timers.heap p).fn ≡ none
  pub timers_valid : Timers.IsValid r.0.timers
  pub contexts : r.0.contexts ≡ m.contexts

-- When the fiber goes on with its timer set, the timer is disarmed, and the result is ETIMEDOUT if its
-- call-back ran, and otherwise what the socket's SO_ERROR says.
pub connect_after-After :
    (p : ℕ) (cancelled : Bool) (so_error : Option ℕ) (m : IoManager)
    → Timers.IsValid m.timers
    → Returns (After p cancelled so_error m) (connect_after (some p) true cancelled so_error m)
unfolding connect_after
connect_after-After p cancelled so_error m v =
    Returns-bind (Disarmed p m) (After p cancelled so_error m) (cancel_timer (some p) m) _
      (cancel_timer-Disarmed p m v)
      (λ r h. record {
        result = refl;
        disarmed = h.disarmed;
        timers_valid = h.timers_valid;
        contexts = h.contexts;
      })

-- ===== src/Hook/Wait.antt =====
-- How doIO and connectWithTimeout of src/hook.cc wait for an event, on the state of the IOManager: the
-- timer and the listener before the fiber is swapped out, and the call-back of the timer.
pub mod Begun
use learn_server_concise.Base.{
  ℕ, Bool, true, false, not, ◌||◌, Option, none, some, ◌==◌, if◌then◌else◌, Outcome, ok, ◌>>=◌,
}
use learn_server_concise.Timer.{add_timer, cancel}
use learn_server_concise.FdContext.{FdEventType}
use learn_server_concise.IoManager.{
  Kernel, IoManager, tickle, add_event_listener, cancel_event_listener,
}
use learn_server_concise.FdManager.{forever}

-- The timer and the listener of a wait: `p` is the address of the new timer, and `cb` its call-back
-- bound to the weak pointer. The results are the timer, if one is set, and whether the event is
-- listened for.
module _ (k : Kernel) (p cb now timeout fd : ℕ) (event : FdEventType) (this_fiber : ℕ) where
  -- addConditionTimer; IOManager::onTimerInsertedAtFirst calls `tickle`.
  unfoldable pub set_timer : IoManager → Outcome (IoManager × Option ℕ)
  set_timer m =
      let added = add_timer p timeout (some cb) false now m.timers in
      let m' = record m { timers = added.0 } in
      if timeout == forever
      then ok (m, none)
      else if added.1
      then (do m'' ← tickle k m'; ok (m'', some p))
      else ok (m', some p)

  unfoldable pub begin_wait : IoManager → Outcome (IoManager × Option ℕ × Bool)
  unfolding set_timer
  begin_wait m = do
    timed ← set_timer m
    added ← add_event_listener k fd event none this_fiber timed.0
    ok (added.0, timed.1, added.1)

-- `if (timer) timer->cancel();`
unfoldable pub cancel_timer : Option ℕ → IoManager → Outcome IoManager
cancel_timer none m = ok m
cancel_timer (some p) m = cancel p m.timers >>= λ r. ok (record m { timers = r.0 })

-- The timer's call-back: OnTimer calls it while the TimerInfo is `alive`, that is until the wait has
-- returned; `cancelled` says that m_cancelled is ETIMEDOUT, as it does in the result.
unfoldable pub run_time_out :
    Kernel → ℕ → FdEventType → Bool → Bool → IoManager → Outcome (IoManager × Bool)
run_time_out k fd event alive cancelled m =
    if not alive || cancelled
    then ok (m, cancelled)
    else (cancel_event_listener k fd event m >>= λ r. ok (r.0, true))

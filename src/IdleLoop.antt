-- ===== src/IdleLoop.antt =====
-- IOManager::isStop and IOManager::onIdle of src/io_manager.cc: what a thread with nothing to run does.
pub mod Ready
pub mod Round
pub mod Waiting
mod Tests
use learn_server_concise.Base.{
  ℕ, zero, suc, ◌+◌, ◌-◌, ◌*◌, ◌%◌, ◌^◌, ◌<◌, Bool, true, false, not, ◌&&◌, ◌||◌, List, [], ◌∷◌,
  ◌++◌, Option, none, some, ltb, leb, map, ℤ, pos, negsuc, ◌==◌, if◌then◌else◌, length, get_elem?,
  set, Outcome, ok, stop, assertion, thrown, undefined, ◌>>=◌, ◌>>◌, assert, ensure,
}
use learn_server_concise.Fiber.{is_some}
use learn_server_concise.Scheduler.{
  Scheduler, Executable, a_fiber, a_callback, schedule, has_idle_thread, is_stop, schedule_all,
  is_empty,
}
use learn_server_concise.Timer.{TimerManager, get_next_timer, no_timeout, list_expired_callback}
use learn_server_concise.FdContext.{
  FdEventType, none_event, read_event, write_event, EventSet, no_events, has_event, add_event,
  remove_event, is_none, EventHandler, empty_handler, FdContext, fresh_context, get_event_handler,
  put_handler, reset_handler, handler_work, spent_handler, common, without,
}
use learn_server_concise.IoManager.{
  CtlOp, ctl_add, ctl_mod, ctl_del, Kernel, IoManager, tickle, context_at, put_context,
  trigger_and_count, up, down,
}

-- IOManager::isStop(uint64_t&): the answer, for the time until the next timer that it also returns.
pub is_stop_io : ℕ → IoManager → Bool
is_stop_io timeout m = timeout == no_timeout && m.pending == 0 && is_stop m.scheduler

-- static_cast<int> of an unsigned 64-bit number
abbrev pub to_int : ℕ → ℤ
to_int n = let w = n % 2 ^ 32 in if ltb w (2 ^ 31) then pos w else negsuc (2 ^ 32 - 1 - w)

-- MAX_TIMEOUT
abbrev pub max_timeout : ℕ
max_timeout = 1000

abbrev exceeds : ℤ → ℕ → Bool
exceeds (pos n) k = ltb k n
exceeds (negsuc n) k = false

-- The time that onIdle passes to epoll_wait; a negative one waits without limit.
pub wait_time : ℕ → ℤ
wait_time next = to_int (
    if next == no_timeout
    then max_timeout
    else if exceeds (to_int next) max_timeout
    then max_timeout
    else next)

-- The flags of an epoll_event on a descriptor: EPOLLIN, EPOLLOUT, EPOLLERR, EPOLLHUP.
pub record Flags : Type 0 where
  pub readable : Bool
  pub writable : Bool
  pub failed : Bool
  pub hung_up : Bool

pub data EpollEvent : Type 0 where
  from_pipe : EpollEvent
  on_context : (fd : ℕ) → Flags → EpollEvent

-- `real_events`
abbrev pub real_events : Flags → EventSet
real_events f =
    let broken = f.failed || f.hung_up in
    record { read = f.readable || broken; write = f.writable || broken }

-- The handling of one event in onIdle. What epoll_ctl answers there is only logged.
pub handle_event : Kernel → EpollEvent → IoManager → Outcome IoManager
handle_event k from_pipe m = ok (record m { piped = 0 })
handle_event k (on_context fd flags) m = do
  c ← context_at fd m.contexts
  let real = real_events flags
  let triggered : Outcome IoManager = do
    (c1, m1) ← trigger_and_count k real.read read_event c m
    (c2, m2) ← trigger_and_count k real.write write_event c1 m1
    ok (put_context fd c2 m2)
  if is_none (common c.events real) then ok m else triggered

pub handle_events : Kernel → List EpollEvent → IoManager → Outcome IoManager
handle_events k [] m = ok m
handle_events k (e ∷ es) m = handle_event k e m >>= λ m'. handle_events k es m'

-- `schedule(fns.begin(), fns.end())`
pub schedule_expired : Kernel → List (Option ℕ) → IoManager → Outcome IoManager
schedule_expired k fns m =
    let r = schedule_all (map a_callback fns) m.scheduler in
    let m' = record m { scheduler = r.0 } in if r.1 then tickle k m' else ok m'

-- A round of the loop of onIdle, from the return of epoll_wait to the switch to the scheduler.
pub idle_round : Kernel → ℕ → ℕ → List EpollEvent → IoManager → Outcome IoManager
idle_round k probe now events m = do
  expired ← list_expired_callback probe now m.timers []
  let m' = record m { timers = expired.0 }
  m'' ← if is_empty expired.1 then ok m' else schedule_expired k expired.1 m'
  handle_events k events m''

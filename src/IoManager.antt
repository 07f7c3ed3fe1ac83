-- ===== src/IoManager.antt =====
-- class IOManager of include/io_manager.h and src/io_manager.cc: the events waited for on file
-- descriptors. A descriptor is a number, as `static_cast<size_t>(fd)` makes it. The kernel's answers
-- (`epoll_ctl`, writing to the pipe) are arguments.
pub mod Contexts
pub mod Listeners
pub mod Triggers
pub mod Both
pub mod Removal
pub mod Cancel
pub mod Wakes
pub mod Samples
mod Tests
use learn_server_concise.Base.{
  ℕ, zero, suc, ◌+◌, ◌-◌, ◌*◌, ◌%◌, ◌^◌, ◌<◌, Bool, true, false, not, ◌&&◌, ◌||◌, List, [], ◌∷◌,
  ◌++◌, Option, none, some, ltb, leb, map, ℤ, pos, negsuc, ◌==◌, if◌then◌else◌, length, get_elem?,
  set, Outcome, ok, stop, assertion, thrown, undefined, ◌>>=◌, ◌>>◌, assert, ensure,
}
use learn_server_concise.Fiber.{is_some}
use learn_server_concise.Scheduler.{
  Scheduler, Executable, a_fiber, a_callback, schedule, has_idle_thread, is_stop, schedule_all,
  is_empty,
}
use learn_server_concise.Timer.{TimerManager, get_next_timer, no_timeout, list_expired_callback}
use learn_server_concise.FdContext.{
  FdEventType, none_event, read_event, write_event, EventSet, no_events, has_event, add_event,
  remove_event, is_none, EventHandler, empty_handler, FdContext, fresh_context, get_event_handler,
  put_handler, reset_handler, handler_work, spent_handler,
}

-- The operations of epoll_ctl, and what the kernel answers: whether the call succeeds.
pub data CtlOp : Type 0 where
  ctl_add ctl_mod ctl_del : CtlOp

pub record Kernel : Type 0 where
  pub epoll_ctl : CtlOp → ℕ → EventSet → Bool
  pub pipe_write : Bool

pub record IoManager : Type 0 where
  pub scheduler : Scheduler
  pub contexts : List FdContext
  pub timers : TimerManager
  pub pending : ℕ
  -- bytes in the tickle pipe
  pub piped : ℕ

-- IOManager::tickle
pub tickle : Kernel → IoManager → Outcome IoManager
tickle k m =
    if has_idle_thread m.scheduler
    then ok m
    else if k.pipe_write
    then ok (record m { piped = m.piped + 1 })
    else stop thrown

-- Scheduler::schedule on this object, whose `tickle` it calls.
pub schedule_io : Kernel → Executable → IoManager → Outcome IoManager
schedule_io k exec m =
    let r = schedule exec none false m.scheduler in
    let m' = record m { scheduler = r.0 } in if r.1 then tickle k m' else ok m'

-- The contexts of `i`, …, `i + n - 1`, all new.
fresh_contexts : ℕ → ℕ → List FdContext
fresh_contexts i zero = []
fresh_contexts i (suc n) = fresh_context i ∷ fresh_contexts (i + 1) n

-- The first `size` entries, counted from `i`, with new contexts behind the last one.
resize_from : ℕ → ℕ → List FdContext → List FdContext
unfolding fresh_contexts
resize_from i zero cs = []
resize_from i (suc n) [] = fresh_contexts i (suc n)
resize_from i (suc n) (c ∷ cs) = c ∷ resize_from (i + 1) n cs

-- IOManager::contextListResize
unfoldable pub context_list_resize : ℕ → List FdContext → List FdContext
unfolding resize_from
context_list_resize size cs = resize_from 0 size cs

-- `m_fd_context_list[fd]`, out of range undefined
abbrev pub context_at : ℕ → List FdContext → Outcome FdContext
context_at fd cs = elim (get_elem? cs fd) [ none ↦ stop undefined | some c ↦ ok c ]

abbrev pub put_context : ℕ → FdContext → IoManager → IoManager
put_context fd c m = record m { contexts = set m.contexts fd c }

-- ++ and -- on the atomic size_t
abbrev pub up : ℕ → ℕ
up n = (n + 1) % 2 ^ 64

abbrev pub down : ℕ → ℕ
down n = (n + 2 ^ 64 - 1) % 2 ^ 64

-- FDContext::triggerEvent
pub trigger_event : Kernel → FdEventType → FdContext → IoManager → Outcome (FdContext × IoManager)
trigger_event k e c m = do
  assert (has_event c.events e)
  let c' = record c { events = remove_event c.events e }
  h ← get_event_handler c' e
  assert h.scheduler
  let c'' = put_handler c' e (spent_handler h)
  elim (handler_work h) [ none ↦ ok (c'', m) | some w ↦ schedule_io k w m >>= λ m'. ok (c'', m') ]

-- The list of contexts that addEventListener indexes: doubled once if `fd` is out of range.
unfoldable pub make_room : ℕ → List FdContext → List FdContext
make_room fd cs = if ltb fd (length cs) then cs else context_list_resize (length cs * 2) cs

-- IOManager::addEventListener, where `this_fiber` is Fiber::GetThis(): whether it returns 0.
pub add_event_listener :
    Kernel → ℕ → FdEventType → Option ℕ → ℕ → IoManager → Outcome (IoManager × Bool)
add_event_listener k fd e callback this_fiber m = do
  let room = record m { contexts = make_room fd m.contexts }
  c ← context_at fd room.contexts
  assert (not (has_event c.events e))
  let op = if is_none c.events then ctl_add else ctl_mod
  let c' = record c { events = add_event c.events e }
  let h' : EventHandler = record {
    scheduler = true;
    fiber = elim callback [ none ↦ some this_fiber | some f ↦ none ];
    callback = callback;
  }
  let m' = record (put_context fd (put_handler c' e h') room) { pending = up room.pending }
  let registered : Outcome (IoManager × Bool) = do
    h ← get_event_handler c' e
    assert (not h.scheduler && not (is_some h.fiber) && not (is_some h.callback))
    ok (m', true)
  if k.epoll_ctl op fd (add_event c.events e) then registered else ok (room, false)

-- The common start of removeEventListener and cancelEventListener, and their common end.
abbrev pub ctl_of : EventSet → CtlOp
ctl_of left = if is_none left then ctl_del else ctl_mod

-- IOManager::removeEventListener
pub remove_event_listener : Kernel → ℕ → FdEventType → IoManager → Outcome (IoManager × Bool)
remove_event_listener k fd e m =
    let absent : Outcome (IoManager × Bool) = ok (m, false) in
    let present : Outcome (IoManager × Bool) = do
      c ← context_at fd m.contexts
      let left = remove_event c.events e
      let removed : Outcome (IoManager × Bool) = do
        ensure (k.epoll_ctl (ctl_of left) fd left) thrown
        let c' = reset_handler (record c { events = left }) e
        h ← get_event_handler c e
        ok (record (put_context fd c' m) { pending = down m.pending }, true)
      if has_event c.events e then removed else absent
    in if leb (length m.contexts) fd then absent else present

-- IOManager::cancelEventListener: `m_events` is written before triggerEvent tests it.
pub cancel_event_listener : Kernel → ℕ → FdEventType → IoManager → Outcome (IoManager × Bool)
cancel_event_listener k fd e m =
    let absent : Outcome (IoManager × Bool) = ok (m, false) in
    let present : Outcome (IoManager × Bool) = do
      c ← context_at fd m.contexts
      let left = remove_event c.events e
      let cancelled : Outcome (IoManager × Bool) = do
        ensure (k.epoll_ctl (ctl_of left) fd left) thrown
        (c', m') ← trigger_event k e (record c { events = left }) m
        ok (record (put_context fd c' m') { pending = down m'.pending }, true)
      if has_event c.events e then cancelled else absent
    in if leb (length m.contexts) fd then absent else present

-- One of the two triggers of cancelAll, with its count; likewise in onIdle.
pub trigger_and_count :
    Kernel → Bool → FdEventType → FdContext → IoManager → Outcome (FdContext × IoManager)
trigger_and_count k wanted e c m =
    let triggered : Outcome (FdContext × IoManager) = do
      (c', m') ← trigger_event k e c m
      ok (c', record m' { pending = down m'.pending })
    in if wanted then triggered else ok (c, m)

-- IOManager::cancelAll
pub cancel_all : Kernel → ℕ → IoManager → Outcome (IoManager × Bool)
cancel_all k fd m =
    let absent : Outcome (IoManager × Bool) = ok (m, false) in
    let present : Outcome (IoManager × Bool) = do
      c ← context_at fd m.contexts
      let cancelled : Outcome (IoManager × Bool) = do
        ensure (k.epoll_ctl ctl_del fd no_events) thrown
        (c1, m1) ← trigger_and_count k c.events.read read_event c m
        (c2, m2) ← trigger_and_count k c1.events.write write_event c1 m1
        ok (put_context fd (record c2 { events = no_events }) m2, true)
      if is_none c.events then absent else cancelled
    in if leb (length m.contexts) fd then absent else present

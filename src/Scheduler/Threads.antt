-- ===== src/Scheduler/Threads.antt =====
-- Several threads in Scheduler::run at the same time, as steps in any order. A step ends where the thread
-- gives up the lock, switches to a fiber, or comes back from it.
mod Tests
use learn_server_concise.Base.{
  ℕ, ◌≡◌, ◌≢◌, Bool, true, false, List, [], ◌∷◌, Option, none, some, ◌==◌, if◌then◌else◌, Outcome,
  ok,
}
use learn_server_concise.Fiber.{State, initial, hold, exec, term, can_run, finish}
use learn_server_concise.Scheduler.{
  Task, Executable, Scheduler, World, Found, scan, schedule, settle, set_active, put_state,
  count_up, count_down,
}
use learn_server_concise.Scheduler.Starts.{is_named}

-- Where a thread is: in the search of the task list, with the task that it took, in the code of a fiber,
-- behind `swapIn` of a fiber that gave up control, or at a failed assertion. The second argument is
-- the thread that the task is bound to.
pub data Place : Type 0 where
  looking failed : Place
  holding : Task → Place
  running left : ℕ → Option ℕ → Place

-- The fiber that the thread has.
abbrev pub fiber_at : Place → Option ℕ
fiber_at looking = none
fiber_at failed = none
fiber_at (holding t) = t.fiber
fiber_at (running p bound) = some p
fiber_at (left p bound) = some p

pub record Threads : Type 0 where
  pub world : World
  pub place : ℕ → Place

-- The thread `tid` goes to a place.
abbrev pub goes : ℕ → World → Place → Threads → Threads
goes tid w x s = record { world = w; place = λ q. if tid == q then x else s.place q }

abbrev pub count_out : World → World
count_out w = set_active (count_down w.sched.active) w

-- No task names the fiber, and no thread has it.
abbrev pub IsFree : ℕ → Threads → Type 0
IsFree p s =
    (is_named p s.world.sched.tasks ≡ false) × ((tid : ℕ) → fiber_at (s.place tid) ≢ some p)

-- `May` says what may be scheduled in which state.
module _ (May : Threads → Executable → Type 0) where
  pub data Step : Threads → Threads → Type 0 where
    -- anyone calls `schedule`
    schedules :
        {s : Threads} (e : Executable) (bound : Option ℕ) (instant : Bool)
        → May s e
        → Step s (record s {
          world = record s.world { sched = (schedule e bound instant s.world.sched).0 };
        })
    takes :
        {s : Threads} (tid : ℕ) (found : Found) (t : Task)
        → s.place tid ≡ looking
        → scan s.world.state tid s.world.sched.tasks ≡ ok found
        → found.task ≡ some t
        → Step s (
            goes tid
              (set_active
                (count_up s.world.sched.active)
                (record s.world { sched = record s.world.sched { tasks = found.rest } }))
              (holding t)
              s)
    -- a new fiber for a function
    makes :
        {s : Threads} (tid new c : ℕ) (t : Task)
        → s.place tid ≡ holding t
        → t.callback ≡ some c
        → IsFree new s
        → Step s (
            goes tid
              (put_state new initial s.world)
              (holding (record t { fiber = some new; callback = none }))
              s)
    -- the fiber is over: the idle fiber has its turn
    drops :
        {s : Threads} (tid p : ℕ) (t : Task)
        → s.place tid ≡ holding t
        → t.callback ≡ none
        → t.fiber ≡ some p
        → finish (s.world.state p) ≡ true
        → Step s (goes tid s.world looking s)
    enters :
        {s : Threads} (tid p : ℕ) (t : Task)
        → s.place tid ≡ holding t
        → t.callback ≡ none
        → t.fiber ≡ some p
        → can_run (s.world.state p) ≡ true
        → Step s (goes tid (put_state p exec s.world) (running p t.thread_id) s)
    -- the assertion of swapIn
    fails :
        {s : Threads} (tid p : ℕ) (t : Task)
        → s.place tid ≡ holding t
        → t.callback ≡ none
        → t.fiber ≡ some p
        → finish (s.world.state p) ≡ false
        → can_run (s.world.state p) ≡ false
        → Step s (goes tid s.world failed s)
    -- the fiber's code gives up control, ends, or throws
    suspends :
        {s : Threads} (tid p : ℕ) (bound : Option ℕ)
        → s.place tid ≡ running p bound
        → Step s (goes tid (put_state p hold s.world) (left p bound) s)
    ends :
        {s : Threads} (tid p : ℕ) (bound : Option ℕ)
        → s.place tid ≡ running p bound
        → Step s (goes tid (put_state p term s.world) (left p bound) s)
    throws :
        {s : Threads} (tid p : ℕ) (bound : Option ℕ)
        → s.place tid ≡ running p bound
        → Step s (goes tid (put_state p exec s.world) (left p bound) s)
    settles :
        {s : Threads} (tid p : ℕ) (bound : Option ℕ)
        → s.place tid ≡ left p bound
        → Step s (goes tid (settle p bound (count_out s.world)).0 looking s)

  -- What comes of a scheduler without tasks.
  pub data Reachable : Threads → Type 0 where
    begins :
        (w : World) → w.sched.tasks ≡ [] → Reachable (record { world = w; place = λ q. looking })
    goes_on : {s s' : Threads} → Reachable s → Step s s' → Reachable s'

-- ===== src/Scheduler.antt =====
-- include/scheduler.h and src/scheduler.cc: the task list, and the loop of the threads that serve it.
-- A task's thread id -1 is `none`; fibers are named by their addresses (Fiber.antt), callbacks by
-- numbers. `tickle` does nothing in this class, so only whether it is called is recorded.
pub mod Ending
pub mod Tasks
pub mod Scan
pub mod Leaks
pub mod Loop
pub mod Starts
pub mod FirstTask
pub mod IdleEnds
pub mod Drain
pub mod Stop
pub mod Threads
pub mod Taken
pub mod Sound
pub mod Exclusive
mod Tests
use learn_server_concise.Base.{
  ℕ, zero, suc, ◌+◌, ◌-◌, ◌%◌, ◌^◌, Bool, true, false, not, ◌&&◌, ◌||◌, List, [], ◌∷◌, ◌++◌, Option,
  none, some, ◌==◌, if◌then◌else◌, Outcome, ok, stop, assertion, out_of_fuel, ◌>>=◌, ◌>>◌, assert,
}
use learn_server_concise.Fiber.{
  State, hold, ready, initial, is_exec, is_initial, finish, is_some, can_run,
}

-- Scheduler::Task
pub record Task : Type 0 where
  pub fiber : Option ℕ
  pub callback : Option ℕ
  pub thread_id : Option ℕ

-- What `schedule` is called with: a fiber or a function, either of which may be empty.
pub data Executable : Type 0 where
  a_fiber : Option ℕ → Executable
  a_callback : Option ℕ → Executable

-- The constructors Task(Fiber::ptr, long) and Task(TaskFunc, long).
abbrev pub make_task : Executable → Option ℕ → Task
make_task (a_fiber f) tid = record { fiber = f; callback = none; thread_id = tid }
make_task (a_callback c) tid = record { fiber = none; callback = c; thread_id = tid }

pub record Scheduler : Type 0 where
  pub root_thread_id : Option ℕ
  pub root_fiber : Option ℕ
  pub thread_id_list : List ℕ
  pub thread_count : ℕ
  pub active : ℕ
  pub idle : ℕ
  pub stopping : Bool
  pub auto_stop : Bool
  pub thread_list : List ℕ
  pub tasks : List Task

-- `m_task_list.empty()`
abbrev pub is_empty {ℓ} : {A : Type ℓ} → List A → Bool
is_empty [] = true
is_empty (x ∷ xs) = false

-- `task->fiber || task->callback`
abbrev pub has_work : Task → Bool
has_work t = is_some t.fiber || is_some t.callback

-- Scheduler::Scheduler: `this_thread` is GetThreadID(), `root` the address of the fiber that is
-- made for `run` if `use_caller`, `occupied` whether this thread has a scheduler already.
pub construct : ℕ → Bool → Bool → ℕ → ℕ → Outcome Scheduler
construct thread_size use_caller occupied this_thread root = do
  assert (not (thread_size == 0))
  assert (not (use_caller && occupied))
  let start : Scheduler = record {
    root_thread_id = none;
    root_fiber = none;
    thread_id_list = [];
    thread_count = thread_size;
    active = 0;
    idle = 0;
    stopping = true;
    auto_stop = false;
    thread_list = [];
    tasks = [];
  }
  ok (
      if use_caller
      then record start {
        root_thread_id = some this_thread;
        root_fiber = some root;
        thread_id_list = this_thread ∷ [];
        thread_count = thread_size - 1;
      }
      else start)

-- Scheduler::scheduleNonBlock: the new state, and whether the list was empty.
unfoldable pub schedule_non_block : Executable → Option ℕ → Bool → Scheduler → Scheduler × Bool
schedule_non_block exec tid instant s =
    let task = make_task exec tid in
    let front = record s { tasks = task ∷ s.tasks } in
    let back = record s { tasks = s.tasks ++ task ∷ [] } in
    (if has_work task then (if instant then front else back) else s, is_empty s.tasks)

-- Scheduler::schedule(Executable&&, long, bool), and whether it calls `tickle`. The call of
-- scheduleNonBlock leaves its last argument at the default.
unfoldable pub schedule : Executable → Option ℕ → Bool → Scheduler → Scheduler × Bool
unfolding schedule_non_block
schedule exec tid instant s = schedule_non_block exec tid false s

-- Scheduler::schedule(InputIterator, InputIterator), and whether it calls `tickle`.
schedule_from : List Executable → Scheduler → Bool → Scheduler × Bool
schedule_from [] s need = (s, need)
schedule_from (e ∷ es) s need =
    schedule_from es (schedule_non_block e none false s).0
      ((schedule_non_block e none false s).1 || need)

unfoldable pub schedule_all : List Executable → Scheduler → Scheduler × Bool
unfolding schedule_from
schedule_all es s = schedule_from es s false

-- Scheduler::hasIdleThread
abbrev pub has_idle_thread : Scheduler → Bool
has_idle_thread s = not (s.idle == 0)

-- Scheduler::isStop
abbrev pub is_stop : Scheduler → Bool
is_stop s = s.auto_stop && is_empty s.tasks && s.active == 0

-- Scheduler::start: `new_ids` are the ids of the threads that the loop creates.
pub start : List ℕ → Scheduler → Outcome Scheduler
start new_ids s = if not s.stopping then ok s else (do
  assert (is_empty s.thread_list)
  ok (record s {
    stopping = false;
    thread_list = new_ids;
    thread_id_list = s.thread_id_list ++ new_ids;
  }))

-- Whether a task is bound to another thread than `tid`.
abbrev pub is_foreign : ℕ → Task → Bool
is_foreign tid t = elim t.thread_id [ none ↦ false | some other ↦ not (other == tid) ]

abbrev is_executing : (ℕ → State) → Task → Bool
is_executing state t = elim t.fiber [ none ↦ false | some f ↦ is_exec (state f) ]

-- What a search of the task list found, what it leaves in the list, and `tickle_me`.
pub record Found : Type 0 where
  pub task : Option Task
  pub rest : List Task
  pub tickle_me : Bool

abbrev pub skip : Task → Bool → Outcome Found → Outcome Found
skip t tickle (ok r) =
    ok (record { task = r.task; rest = t ∷ r.rest; tickle_me = tickle || r.tickle_me })
skip t tickle (stop e) = stop e

-- The search of the task list in Scheduler::run by the thread `tid`.
pub scan : (ℕ → State) → ℕ → List Task → Outcome Found
scan state tid [] = ok (record { task = none; rest = []; tickle_me = false })
scan state tid (t ∷ ts) =
    let later = scan state tid ts in
    if is_foreign tid t then skip t true later else (do
      assert (has_work t)
      if is_executing state t
          then skip t false later
          else ok (record { task = some t; rest = ts; tickle_me = false }))

-- The scheduler with the states of the fibers.
pub record World : Type 0 where
  pub sched : Scheduler
  pub state : ℕ → State

abbrev pub put_state : ℕ → State → World → World
put_state p s w = record w { state = λ q. if p == q then s else w.state q }

-- ++ and -- on the atomic 64-bit counters
abbrev pub count_up : ℕ → ℕ
count_up n = (n + 1) % 2 ^ 64

abbrev pub count_down : ℕ → ℕ
count_down n = (n + 2 ^ 64 - 1) % 2 ^ 64

abbrev pub set_active : ℕ → World → World
set_active n w = record w { sched = record w.sched { active = n } }

abbrev pub set_idle : ℕ → World → World
set_idle n w = record w { sched = record w.sched { idle = n } }

-- What a round of the loop leaves: whether the loop goes on, and how often `tickle` was called.
pub record Round : Type 0 where
  pub world : World
  pub goes_on : Bool
  pub tickled : Bool

-- `fiber->swapIn()`, until the fiber gives control back: `body` is what its code does meanwhile, to
-- the scheduler and to the states of fibers, its own included.
pub resume : (ℕ → World → World) → ℕ → World → Outcome World
resume body p w = do assert (can_run (w.state p)); ok (body p (put_state p State.exec w))

-- After a task's fiber was swapped out: READY is scheduled again, what is not over goes on HOLD.
pub settle : ℕ → Option ℕ → World → World × Bool
settle p tid w = elim (w.state p) [
  | State.ready ↦ (
    record w { sched = (schedule (a_fiber (some p)) tid false w.sched).0 },
    (schedule (a_fiber (some p)) tid false w.sched).1,
  )
  | State.exception ↦ (w, false)
  | State.term ↦ (w, false)
  | _ ↦ (put_state p hold w, false)
]

pub run_fiber : (ℕ → World → World) → ℕ → Option ℕ → Bool → World → Outcome Round
run_fiber body p tid tickled w = do
  w' ← resume body p w
  let settled = settle p tid (set_active (count_down w'.sched.active) w')
  ok (record { world = settled.0; goes_on = true; tickled = tickled || settled.1 })

-- The branch of the loop with no task to run.
pub run_idle : (ℕ → World → World) → ℕ → Bool → World → Outcome Round
run_idle body idle_fiber tickled w =
    if finish (w.state idle_fiber)
    then ok (record { world = w; goes_on = false; tickled = tickled })
    else (do
      w' ← resume body idle_fiber (set_idle (count_up w.sched.idle) w)
      let back = set_idle (count_down w'.sched.idle) w'
      ok (record {
        world = if finish (back.state idle_fiber) then back else put_state idle_fiber hold back;
        goes_on = true;
        tickled = tickled;
      }))

-- What the loop makes of the task that it took: `new` is the address of the fiber that it makes for
-- a callback.
pub dispatch : (ℕ → World → World) → ℕ → ℕ → Bool → Option Task → World → Outcome Round
unfolding run_fiber run_idle
dispatch body idle_fiber new tickled none w = run_idle body idle_fiber tickled w
dispatch body idle_fiber new tickled (some t) w = elim t.callback [
  | some c ↦ run_fiber body new t.thread_id tickled (put_state new initial w)
  | none ↦ elim t.fiber [
    | none ↦ run_idle body idle_fiber tickled w
    | some p ↦
        if finish (w.state p)
        then run_idle body idle_fiber tickled w
        else run_fiber body p t.thread_id tickled w
  ]
]

-- One round of the loop of Scheduler::run on the thread `tid`.
pub run_round : (ℕ → World → World) → ℕ → ℕ → ℕ → World → Outcome Round
run_round body tid idle_fiber new w = do
  found ← scan w.state tid w.sched.tasks
  let left = record w { sched = record w.sched { tasks = found.rest } }
  let taken = set_active (count_up w.sched.active) left
  dispatch body idle_fiber new found.tickle_me found.task
      (if is_some found.task then taken else left)

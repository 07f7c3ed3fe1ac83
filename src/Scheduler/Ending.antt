-- ===== src/Scheduler/Ending.antt =====
-- The loop of Scheduler::run, onIdle and stop, of include/scheduler.h and src/scheduler.cc.
use learn_server_concise.Base.{
  ℕ, zero, suc, ◌+◌, Bool, true, false, not, ◌&&◌, ◌||◌, [], none, some, ◌==◌, if◌then◌else◌,
  Outcome, ok, stop, out_of_fuel, ◌>>=◌, ◌>>◌, assert,
}
use learn_server_concise.Fiber.{State, hold, can_run, is_initial, finish}
use learn_server_concise.Scheduler.{World, run_round, put_state, is_stop}

-- The loop of Scheduler::run, for at most the given number of rounds; `new` is the address of the first
-- fiber that is made for a function, and the next ones follow.
unfoldable pub run_loop : ℕ → (ℕ → World → World) → ℕ → ℕ → ℕ → World → Outcome World
unfolding run_round
run_loop zero body tid idle_fiber new w = stop out_of_fuel
run_loop (suc n) body tid idle_fiber new w = run_round body tid idle_fiber new w >>= λ r.
    let rest = run_loop n body tid idle_fiber (new + 1) r.world in
    if r.goes_on then rest else ok r.world

-- Scheduler::onIdle, until it gives up control again.
unfoldable pub on_idle : ℕ → World → World
on_idle idle_fiber w =
    if is_stop w.sched then put_state idle_fiber State.term w else put_state idle_fiber hold w

-- `m_root_fiber->finish() || m_root_fiber->getState() == Fiber::INIT`
abbrev is_out : State → Bool
is_out s = finish s || is_initial s

-- The fiber of `run` on this thread has nothing to wait for, and there are no other threads.
abbrev pub runs_alone : World → Bool
runs_alone w = elim w.sched.root_fiber [
  | none ↦ false
  | some p ↦ w.sched.thread_count == 0 && is_out (w.state p)
]

abbrev pub stop_requested : World → World
stop_requested w = record w { sched = record w.sched { auto_stop = true; stopping = true } }

-- Fiber::call on the root fiber `p`, whose code is `run`, until it comes back. The thread's main fiber is
-- there: the constructor that made `p` has called Fiber::GetThis. Fiber::MainFunc leaves `p` on TERM.
unfoldable pub call_root : (World → Outcome World) → ℕ → World → Outcome World
call_root run p w = do
  assert (can_run (w.state p))
  back ← run (put_state p State.exec w)
  ok (put_state p State.term back)

-- Scheduler::stop: `run` is the code of the root fiber; `joined` is what the other threads do until
-- they are joined.
unfoldable pub stop_scheduler : (World → Outcome World) → (World → World) → World → Outcome World
stop_scheduler run joined w =
    let asked = stop_requested w in
    let waited : Outcome World = elim w.sched.root_fiber [
      | none ↦ ok asked
      | some p ↦ if not (is_stop asked.sched) then call_root run p asked else ok asked
    ] in
    let finished : Outcome World = do
      v ← waited
      let v' = joined v
      ok (record v' { sched = record v'.sched { thread_list = [] } })
    in if runs_alone w && is_stop asked.sched then ok asked else finished

-- Scheduler::~Scheduler
unfoldable pub destroy_scheduler : World → Outcome (Unit {0})
destroy_scheduler w = assert w.sched.auto_stop

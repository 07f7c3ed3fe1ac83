-- ===== src/Scheduler/Tests.antt =====
-- The scheduler of include/scheduler.h and src/scheduler.cc on concrete task lists.
use learn_server_concise.Base.{
  ℕ, ◌+◌, ◌^◌, ◌<◌, ◌≡◌, ◌≢◌, refl, true, false, List, [], ◌∷◌, some, none, ◌==◌, if◌then◌else◌,
  Returns, arith,
}
use learn_server_concise.Fiber.{State, initial, hold, exec, term}
use learn_server_concise.Scheduler.{
  Task, a_fiber, a_callback, make_task, Scheduler, is_stop, World, Found, scan, run_round,
}
use learn_server_concise.Scheduler.Ending.{stop_scheduler}
use learn_server_concise.Scheduler.Scan.{Scans, scan-Scans}
use learn_server_concise.Scheduler.Loop.{KeepsActive, run_round-runs}
use learn_server_concise.Scheduler.Leaks.{Later, run_round-leaks}
use learn_server_concise.Scheduler.Stop.{Stopped, call_run, stop_scheduler-Stopped}

-- A task of fiber 8 that is bound to thread 2, and one of fiber 1 for any thread.
abbrev two_tasks : List Task
two_tasks = make_task (a_fiber (some 8)) (some 2) ∷ make_task (a_fiber (some 1)) none ∷ []

abbrev two_task_scheduler : Scheduler
two_task_scheduler = record {
  root_thread_id = none;
  root_fiber = none;
  thread_id_list = 2 ∷ 3 ∷ [];
  thread_count = 2;
  active = 0;
  idle = 0;
  stopping = false;
  auto_stop = true;
  thread_list = 2 ∷ 3 ∷ [];
  tasks = two_tasks;
}

-- Every fiber is in the state `s`, but the idle fiber 4, which is INIT.
abbrev world_in : State → World
world_in s = record { sched = two_task_scheduler; state = λ p. if p == 4 then initial else s }

-- Every fiber suspends itself at once.
abbrev suspends : ℕ → World → World
suspends p w = record w { state = λ q. if p == q then hold else w.state q }

abbrev found_second : Found
found_second = record {
  task = some (make_task (a_fiber (some 1)) none);
  rest = make_task (a_fiber (some 8)) (some 2) ∷ [];
  tickle_me = true;
}

scan-Scans_example :
    Returns (Scans (world_in hold).state 3 two_tasks) (scan (world_in hold).state 3 two_tasks)
scan-Scans_example = scan-Scans (world_in hold).state 3 two_tasks (refl, (refl, tt))

run_round-runs_example :
    Returns
      (λ r.
        (r.goes_on ≡ true)
        × (r.world.sched.active ≡ 0)
        × (r.world.state 1 ≢ exec)
        × (r.world.state 1 ≢ initial))
      (run_round suspends 3 4 9 (world_in hold))
unfolding scan
run_round-runs_example =
    run_round-runs suspends 3 4 9 1 (world_in hold) found_second (make_task (a_fiber (some 1)) none)
      refl refl refl refl refl refl (λ v. refl) (omega arith)

suspends-KeepsActive : (p : ℕ) → KeepsActive suspends p
suspends-KeepsActive p v = refl

run_round-leaks_example :
    Returns
      (λ r.
        (r.world.sched.active ≡ 1)
        × ((n : ℕ) (v : World)
            → Later suspends suspends-KeepsActive r.world n v
            → 1 + n < 2 ^ 64
            → is_stop v.sched ≡ false))
      (run_round suspends 3 4 9 (world_in term))
unfolding scan
run_round-leaks_example =
    run_round-leaks suspends suspends-KeepsActive 3 4 9 1 (world_in term) found_second
      (make_task (a_fiber (some 1)) none) refl refl refl refl refl refl (omega arith)

-- The fiber 1 and a function for thread 3, which is the only one.
abbrev own_tasks : List Task
own_tasks = make_task (a_fiber (some 1)) none ∷ make_task (a_callback (some 9)) (some 3) ∷ []

abbrev own_world : World
own_world = record {
  sched = record two_task_scheduler {
    root_thread_id = some 3;
    root_fiber = some 2;
    thread_count = 0;
    auto_stop = false;
    thread_list = [];
    tasks = own_tasks;
  };
  state = λ p. initial;
}

stop_scheduler-Stopped_example :
    Returns (Stopped own_tasks) (stop_scheduler (call_run 4 3 7 own_tasks) (λ v. v) own_world)
stop_scheduler-Stopped_example =
    stop_scheduler-Stopped 4 3 7 own_tasks 2 own_world refl refl refl refl record {
      tasks = refl;
      starts = (refl, (refl, refl, refl, omega arith), (refl, refl, tt));
      apart = refl;
      older = omega arith;
      idle_ready = refl;
      asked = refl;
      none_active = refl;
      idle_small = omega arith;
    }

-- ===== src/Scheduler/Threads/Tests.antt =====
-- Threads of the scheduler on concrete steps.
use learn_server_concise.Base.{ℕ, ◌≡◌, ◌≢◌, refl, false, [], ◌∷◌, some, none}
use learn_server_concise.Fiber.{initial}
use learn_server_concise.Scheduler.{
  Task, Executable, a_fiber, make_task, Scheduler, World, scan, schedule, schedule_non_block,
  settle,
}
use learn_server_concise.Scheduler.Taken.{NoTwice}
use learn_server_concise.Scheduler.Threads.{
  Threads, looking, failed, running, fiber_at, Reachable, begins, goes_on, schedules, takes, enters,
  suspends, settles,
}
use learn_server_concise.Scheduler.Exclusive.{OnlyFree, reachable-Exclusive}

-- Three threads and nothing to do.
abbrev three_threads : Scheduler
three_threads = record {
  root_thread_id = none;
  root_fiber = none;
  thread_id_list = 2 ∷ 3 ∷ 4 ∷ [];
  thread_count = 3;
  active = 0;
  idle = 0;
  stopping = false;
  auto_stop = false;
  thread_list = 2 ∷ 3 ∷ 4 ∷ [];
  tasks = [];
}

abbrev no_tasks : World
no_tasks = record { sched = three_threads; state = λ p. initial }

abbrev at_start : Threads
at_start = record { world = no_tasks; place = λ tid. looking }

-- The fiber 1 is scheduled.
abbrev one_scheduled : Threads
one_scheduled = record at_start {
  world = record no_tasks { sched = (schedule (a_fiber (some 1)) none false no_tasks.sched).0 };
}

one_scheduled-Reachable : Reachable OnlyFree one_scheduled
one_scheduled-Reachable =
    goes_on (begins no_tasks refl)
      (schedules (a_fiber (some 1)) none false (λ p e. (refl, λ tid. λ x. absurd (cc))))

reachable-Exclusive_example :
    ((tid other p : ℕ)
      → fiber_at (one_scheduled.place tid) ≡ some p
      → fiber_at (one_scheduled.place other) ≡ some p
      → tid ≡ other)
    × NoTwice one_scheduled.world.sched.tasks
    × ((tid : ℕ) → one_scheduled.place tid ≢ failed)
reachable-Exclusive_example = reachable-Exclusive one_scheduled one_scheduled-Reachable

-- Anything may be scheduled at any time.
abbrev Anything : Threads → Executable → Type 0
Anything s e = Unit

abbrev fiber_one : Task
fiber_one = make_task (a_fiber (some 1)) none

-- The fiber 1 gives up control on thread 2, but is scheduled and runs on thread 3 before thread 2 writes
-- HOLD to its state; scheduled once more, it also runs on thread 4.
two_threads_test :
    (s : Threads) × Reachable Anything s
    × (s.place 3 ≡ running 1 none)
    × (s.place 4 ≡ running 1 none)
unfolding schedule schedule_non_block scan settle
two_threads_test = (
  _,
  goes_on
      (goes_on
        (goes_on
          (goes_on
            (goes_on
              (goes_on
                (goes_on
                  (goes_on
                    (goes_on
                      (goes_on
                        (goes_on (begins no_tasks refl)
                          (schedules (a_fiber (some 1)) none false tt))
                        (takes 2 _ fiber_one refl refl refl))
                      (enters 2 1 fiber_one refl refl refl refl))
                    (schedules (a_fiber (some 1)) none false tt))
                  (suspends 2 1 none refl))
                (takes 3 _ fiber_one refl refl refl))
              (enters 3 1 fiber_one refl refl refl refl))
            (settles 2 1 none refl))
          (schedules (a_fiber (some 1)) none false tt))
        (takes 4 _ fiber_one refl refl refl))
      (enters 4 1 fiber_one refl refl refl refl),
  refl,
  refl,
)

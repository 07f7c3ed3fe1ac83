-- ===== src/Scheduler/IdleEnds.antt =====
-- The end of the loop of Scheduler::run, on a thread without tasks.
use learn_server_concise.Base.{
  ℕ, suc, ◌+◌, ◌^◌, ◌<◌, ◌≡◌, ◌≢◌, refl, ap, true, false, [], ◌==◌, arith, Returns, ok,
}
use learn_server_concise.Fiber.{State, term, can_run}
use learn_server_concise.Scheduler.Loop.{count_up_down}
use learn_server_concise.Scheduler.{
  Scheduler, World, Round, scan, resume, run_idle, dispatch, run_round, count_up, count_down,
  put_state, set_idle, is_stop,
}
use learn_server_concise.Scheduler.Ending.{run_loop, on_idle}
use learn_server_concise.Scheduler.FirstTask.{runs_to_end, can_run-cases}

module _ (idle_fiber tid : ℕ) where
  run_idle-term :
      (body : ℕ → World → World) (v : World)
      → can_run (v.state idle_fiber) ≡ true
      → let after =
          body idle_fiber (put_state idle_fiber State.exec (set_idle (count_up v.sched.idle) v)) in
        after.state idle_fiber ≡ term
        → run_idle body idle_fiber false v
          ≡ ok (record {
            world = set_idle (count_down after.sched.idle) after;
            goes_on = true;
            tickled = false;
          })
  unfolding run_idle resume
  run_idle-term body v c e = rw ((can_run-cases (v.state idle_fiber) c).1, c, e) refl

  runs_to_end-idle :
      (v : World)
      → is_stop v.sched ≡ true
      → runs_to_end idle_fiber idle_fiber v ≡ put_state idle_fiber term v
  unfolding runs_to_end on_idle
  runs_to_end-idle v s =
      let self : (idle_fiber == idle_fiber) ≡ true = ground arith in rw (self, s) refl

  round-idle :
      (body : ℕ → World → World) (new : ℕ) (w : World)
      → w.sched.tasks ≡ []
      → run_round body tid idle_fiber new w
        ≡ run_idle body idle_fiber false (record w { sched = record w.sched { tasks = [] } })
  unfolding run_round scan dispatch
  round-idle body new w e = rw e refl

  abbrev pub Idled : World → Round → Type 0
  Idled w r =
      (r.goes_on ≡ true)
      × (r.world.sched ≡ record w.sched { tasks = [] })
      × (r.world.state idle_fiber ≡ term)
      × ((q : ℕ) → q ≢ idle_fiber → r.world.state q ≡ w.state q)

  -- With nothing to do and a stop requested, the idle fiber ends.
  pub idle-ends :
      (new : ℕ) (w : World)
      → w.sched.tasks ≡ []
      → w.sched.auto_stop ≡ true
      → w.sched.active ≡ 0
      → w.sched.idle + 1 < 2 ^ 64
      → can_run (w.state idle_fiber) ≡ true
      → Returns (Idled w) (run_round (runs_to_end idle_fiber) tid idle_fiber new w)
  idle-ends new w e s a small c =
      rw
        (
          round-idle (runs_to_end idle_fiber) new w e,
          run_idle-term (runs_to_end idle_fiber) still c end,
          runs_to_end-idle began stops,
        )
        (
          refl,
          ap restored (count_up_down w.sched.idle small),
          rw self refl,
          λ q n. let other : (idle_fiber == q) ≡ false = ground arith in rw other refl,
        )
    where
      still : World
      still = record w { sched = record w.sched { tasks = [] } }

      began : World
      began = put_state idle_fiber State.exec (set_idle (count_up still.sched.idle) still)

      stops : is_stop began.sched ≡ true
      stops = ground (arith, s, a)

      self : (idle_fiber == idle_fiber) ≡ true
      self = ground arith

      end : (runs_to_end idle_fiber idle_fiber began).state idle_fiber ≡ term
      end = rw (runs_to_end-idle began stops, self) refl

      restored : ℕ → Scheduler
      restored i = record w.sched { tasks = []; idle = i }

  pub loop-ends :
      (n new : ℕ) (w : World)
      → w.sched.tasks ≡ []
      → w.state idle_fiber ≡ term
      → run_loop (suc n) (runs_to_end idle_fiber) tid idle_fiber new w ≡ ok w
  unfolding run_loop run_round scan dispatch run_idle
  loop-ends n new w e s = rw (e, s) refl

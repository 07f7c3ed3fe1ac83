-- ===== src/Scheduler/Loop.antt =====
-- One round of Scheduler::run: how it counts active tasks, and the state it leaves a fiber in.
use learn_server_concise.Base.{
  ℕ, ◌+◌, ◌^◌, ◌<◌, ◌≡◌, ◌≢◌, refl, ◌∙◌, ap, Bool, true, false, Option, none, some, if◌then◌else◌,
  arith, Returns, Outcome, ok, stop,
}
use learn_server_concise.Fiber.{State, hold, is_exec, finish, can_run}
use learn_server_concise.Scheduler.{
  Task, World, Round, Found, scan, resume, settle, run_fiber, run_idle, dispatch, run_round,
  count_up, count_down, set_idle, put_state, schedule, is_stop,
}

-- Code that leaves the count of active tasks as it finds it.
abbrev pub KeepsActive : (ℕ → World → World) → ℕ → Type 0
KeepsActive body p = (v : World) → (body p v).sched.active ≡ v.sched.active

pub settle-active :
    (p : ℕ) (tid : Option ℕ) (w : World) → (settle p tid w).0.sched.active ≡ w.sched.active
unfolding settle schedule
settle-active p tid w = ground arith

settle-state :
    (p : ℕ) (tid : Option ℕ) (w : World)
    → ((settle p tid w).0.state p ≢ State.exec) × ((settle p tid w).0.state p ≢ State.initial)
unfolding settle
settle-state p tid w = ground arith

can_run_of : (s : State) → finish s ≡ false → is_exec s ≡ false → can_run s ≡ true
can_run_of s f x = ground arith

pub count_up_down : (n : ℕ) → n + 1 < 2 ^ 64 → count_down (count_up n) ≡ n
count_up_down n h = omega arith

pub hold_idle-active :
    (b : Bool) (p : ℕ) (v : World)
    → (if b then v else put_state p hold v).sched.active ≡ v.sched.active
hold_idle-active true p v = refl
hold_idle-active false p v = refl

module _ (body : ℕ → World → World) (tid idle_fiber new p : ℕ) (w : World) (found : Found)
    (t : Task) where
  -- The world when the task was taken out of the list.
  abbrev taken : World
  taken = record w {
    sched = record w.sched { tasks = found.rest; active = count_up w.sched.active };
  }

  round-dispatch :
      scan w.state tid w.sched.tasks ≡ ok found
      → found.task ≡ some t
      → run_round body tid idle_fiber new w
        ≡ dispatch body idle_fiber new found.tickle_me (some t) taken
  unfolding run_round
  round-dispatch e k = rw (e, k)

  pub dispatch-fiber :
      (v : World)
      → t.callback ≡ none
      → t.fiber ≡ some p
      → finish (v.state p) ≡ false
      → dispatch body idle_fiber new found.tickle_me (some t) v
        ≡ run_fiber body p t.thread_id found.tickle_me v
  unfolding dispatch
  dispatch-fiber v c f h = rw (c, f, h)

  dispatch-over :
      (v : World)
      → t.callback ≡ none
      → t.fiber ≡ some p
      → finish (v.state p) ≡ true
      → dispatch body idle_fiber new found.tickle_me (some t) v
        ≡ run_idle body idle_fiber found.tickle_me v
  unfolding dispatch
  dispatch-over v c f h = rw (c, f, h)

  run_fiber-counts :
      (v : World)
      → can_run (v.state p) ≡ true
      → KeepsActive body p
      → Returns
          (λ r.
            (r.goes_on ≡ true)
            × (r.world.sched.active ≡ count_down v.sched.active)
            × (r.world.state p ≢ State.exec)
            × (r.world.state p ≢ State.initial))
          (run_fiber body p t.thread_id found.tickle_me v)
  unfolding run_fiber resume
  run_fiber-counts v c k = rw c (
    refl,
    settle-active p _ _ ∙ ap count_down (k (put_state p State.exec v)),
    (settle-state p _ _).0,
    (settle-state p _ _).1,
  )

  run_idle-active :
      (v : World)
      → can_run (v.state idle_fiber) ≡ true
      → KeepsActive body idle_fiber
      → Returns
          (λ r. r.world.sched.active ≡ v.sched.active)
          (run_idle body idle_fiber found.tickle_me v)
  unfolding run_idle resume
  run_idle-active v c keeps =
      rw (not_over (v.state idle_fiber) c, c)
        (hold_idle-active (finish ((body idle_fiber began).state idle_fiber)) idle_fiber _
          ∙ keeps began)
    where
      not_over : (s : State) → can_run s ≡ true → finish s ≡ false
      not_over s k = ground arith

      began : World
      began = put_state idle_fiber State.exec (set_idle (count_up v.sched.idle) v)

  -- If the search finds the task of a fiber that is neither finished nor executing, and the fiber's code
  -- leaves the count of active tasks alone, then the round returns, the loop goes on, the count is as
  -- before, and the fiber is neither EXEC nor INIT.
  pub run_round-runs :
      scan w.state tid w.sched.tasks ≡ ok found
      → found.task ≡ some t
      → t.callback ≡ none
      → t.fiber ≡ some p
      → finish (w.state p) ≡ false
      → is_exec (w.state p) ≡ false
      → KeepsActive body p
      → w.sched.active + 1 < 2 ^ 64
      → Returns
          (λ r.
            (r.goes_on ≡ true)
            × (r.world.sched.active ≡ w.sched.active)
            × (r.world.state p ≢ State.exec)
            × (r.world.state p ≢ State.initial))
          (run_round body tid idle_fiber new w)
  run_round-runs e k c f h x keeps small =
      rw (round-dispatch e k, dispatch-fiber taken c f h)
        (rw (count_up_down w.sched.active small) at
          (run_fiber-counts taken (can_run_of (w.state p) h x) keeps))

  -- The task of a fiber that has already finished.
  pub run_round-over :
      scan w.state tid w.sched.tasks ≡ ok found
      → found.task ≡ some t
      → t.callback ≡ none
      → t.fiber ≡ some p
      → finish (w.state p) ≡ true
      → can_run (w.state idle_fiber) ≡ true
      → KeepsActive body idle_fiber
      → w.sched.active + 1 < 2 ^ 64
      → Returns
          (λ r. (r.world.sched.active ≡ w.sched.active + 1) × (is_stop r.world.sched ≡ false))
          (run_round body tid idle_fiber new w)
  run_round-over e k c f h x keeps small =
      rw (round-dispatch e k, dispatch-over taken c f h)
        (stuck (run_idle body idle_fiber found.tickle_me taken) (run_idle-active taken x keeps))
    where
      stuck :
          (r : Outcome Round)
          → Returns (λ r. r.world.sched.active ≡ count_up w.sched.active) r
          → Returns
              (λ r. (r.world.sched.active ≡ w.sched.active + 1) × (is_stop r.world.sched ≡ false))
              r
      stuck (ok r) a = (omega arith, ground arith)
      stuck (stop _) a = a

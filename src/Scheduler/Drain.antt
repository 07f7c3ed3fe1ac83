-- ===== src/Scheduler/Drain.antt =====
-- That stopping a scheduler runs all its tasks.
use learn_server_concise.Base.{
  ℕ, zero, suc, ◌+◌, ◌^◌, ◌<◌, ◌≡◌, ◌≢◌, refl, ap, ◌∙◌, true, false, List, [], ◌∷◌, ◌==◌, length,
  arith, Returns, Returns-value, Returns-weaken, Bool-cases, inl, inr,
}
use learn_server_concise.Fiber.{term, can_run}
use learn_server_concise.Scheduler.{Task, Scheduler, World, Round, run_round}
use learn_server_concise.Scheduler.Ending.{run_loop}
use learn_server_concise.Scheduler.Starts.{
  fiber_of, is_named, AllCanStart, others-AllCanStart, Started, start-Started,
}
use learn_server_concise.Scheduler.FirstTask.{runs_to_end, Ran, round-Ran}
use learn_server_concise.Scheduler.IdleEnds.{Idled, idle-ends, loop-ends}

module _ (idle_fiber tid : ℕ) where
  -- What is left when the loop ends.
  pub record Drained (w w' : World) (new : ℕ) (ts : List Task) : Type 0 where
    pub sched : w'.sched ≡ record w.sched { tasks = [] }
    pub ended : (q : ℕ) → is_named q ts ≡ true → w'.state q ≡ term
    pub others : (q : ℕ) → is_named q ts ≡ false → q < new → q ≢ idle_fiber → w'.state q ≡ w.state q

  -- Before the loop: a stop was requested, and the idle fiber may run.
  pub record Draining (w : World) (new : ℕ) (ts : List Task) : Type 0 where
    pub tasks : w.sched.tasks ≡ ts
    pub starts : AllCanStart w.state new tid ts
    pub apart : is_named idle_fiber ts ≡ false
    pub older : idle_fiber < new
    pub idle_ready : can_run (w.state idle_fiber) ≡ true
    pub asked : w.sched.auto_stop ≡ true
    pub none_active : w.sched.active ≡ 0
    pub idle_small : w.sched.idle + 1 < 2 ^ 64

  after-Draining :
      (new : ℕ) (w : World) (t : Task) (ts : List Task) (r : Round)
      → Draining w new (t ∷ ts)
      → Started idle_fiber tid new t ts
      → Ran idle_fiber tid new w t ts r
      → Draining r.world (new + 1) ts
  after-Draining new w t ts r d s h = record {
    tasks = ap (λ x. x.tasks) h.1;
    starts =
        others-AllCanStart w.state r.world.state (fiber_of new t) new (new + 1) tid ts (omega arith)
          (λ q e. h.2 q ∙ rw e refl) s.not_later d.starts.2;
    apart = ground (arith, d.apart);
    older = omega (arith, d.older);
    idle_ready = rw (h.2 idle_fiber, s.own idle_fiber d.apart d.older) d.idle_ready;
    asked = ap (λ x. x.auto_stop) h.1 ∙ d.asked;
    none_active = ap (λ x. x.active) h.1 ∙ d.none_active;
    idle_small = rw h.1 d.idle_small;
  }

  then-Drained :
      (new : ℕ) (w w' : World) (t : Task) (ts : List Task) (r : Round)
      → Draining w new (t ∷ ts)
      → Started idle_fiber tid new t ts
      → Ran idle_fiber tid new w t ts r
      → Drained r.world w' (new + 1) ts
      → Drained w w' new (t ∷ ts)
  then-Drained new w w' t ts r d s h e = record {
    sched = e.sched ∙ ap {A = Scheduler} (λ x. record x { tasks = [] }) h.1;
    ended = λ q m. elim (Bool-cases (is_named q ts)) [
      | inl k ↦ e.ended q k
      | inr k ↦
          (let eq : fiber_of new t ≡ q = s.named q m k in
            let same : (fiber_of new t == q) ≡ true = ground arith in
            e.others q k (omega (arith, eq, s.young)) (λ x. s.not_idle (eq ∙ x))
            ∙ h.2 q
            ∙ rw same refl)
    ];
    others = λ q m l n.
        e.others q (ground (arith, m)) (omega (arith, l)) n ∙ h.2 q ∙ rw (s.own q m l) refl;
  }

  -- Where a stop was requested and every fiber runs to its end, the loop of Scheduler::run ends within two
  -- rounds more than there are tasks: no task is left, every fiber that a task named has ended, and the
  -- idle one too, and apart from the list of tasks the scheduler is as before.
  pub run_loop-Drained :
      (new : ℕ) (w : World) (ts : List Task)
      → Draining w new ts
      → Returns
          (λ w'. Drained w w' new ts × (w'.state idle_fiber ≡ term))
          (run_loop (suc (suc (length ts))) (runs_to_end idle_fiber) tid idle_fiber new w)
  unfolding run_loop
  run_loop-Drained new w [] d =
      let step =
        Returns-value (Idled idle_fiber tid w)
          (run_round (runs_to_end idle_fiber) tid idle_fiber new w)
          (idle-ends idle_fiber tid new w d.tasks d.asked d.none_active d.idle_small
            d.idle_ready) in
      rw
        (
          step.1,
          step.2.0,
          loop-ends idle_fiber tid zero (new + 1) step.0.world (ap (λ x. x.tasks) step.2.1)
              step.2.2,
        )
        (
          record { sched = step.2.1; ended = λ q m. absurd (cc); others = λ q m l n. step.2.3 q n },
          step.2.2,
        )
  run_loop-Drained new w (t ∷ ts) d =
      let s = start-Started idle_fiber tid w.state new t ts d.starts.1 d.starts.2 d.apart d.older in
      let step =
        Returns-value (Ran idle_fiber tid new w t ts)
          (run_round (runs_to_end idle_fiber) tid idle_fiber new w)
          (round-Ran idle_fiber tid new w t ts d.starts.0 d.starts.1 d.tasks s.not_idle
            (omega (arith, d.none_active))) in
      rw (step.1, step.2.0)
        (Returns-weaken (λ w'. Drained step.0.world w' (new + 1) ts × (w'.state idle_fiber ≡ term))
          _
          (run_loop (suc (suc (length ts))) (runs_to_end idle_fiber) tid idle_fiber (new + 1)
            step.0.world)
          (run_loop-Drained (new + 1) step.0.world ts (after-Draining new w t ts step.0 d s step.2))
          (λ w' e. (then-Drained new w w' t ts step.0 d s step.2 e.0, e.1)))

-- ===== src/Scheduler/Stop.antt =====
-- Scheduler::stop on the thread that constructed the scheduler.
use learn_server_concise.Base.{
  ℕ, suc, ◌==◌, ◌≡◌, refl, sym, ◌∙◌, Bool, true, false, not, ◌||◌, List, [], ◌∷◌, Option, none,
  some, if◌then◌else◌, length, arith, Returns, Returns-bind, Outcome, ok, stop, assertion, ◌>>=◌,
  Bool-cases, inl, inr,
}
use learn_server_concise.Fiber.{State, term, can_run}
use learn_server_concise.Scheduler.{Task, World, is_empty, is_stop, put_state}
use learn_server_concise.Scheduler.Ending.{
  runs_alone, run_loop, stop_requested, call_root, stop_scheduler, destroy_scheduler,
}
use learn_server_concise.Scheduler.Starts.{is_named, others-AllCanStart}
use learn_server_concise.Scheduler.FirstTask.{runs_to_end}
use learn_server_concise.Scheduler.Drain.{Draining, Drained, run_loop-Drained}

-- What is left of a scheduler that was stopped.
pub record Stopped (ts : List Task) (w' : World) : Type 0 where
  pub tasks : w'.sched.tasks ≡ []
  pub stops : is_stop w'.sched ≡ true
  pub threads : w'.sched.thread_list ≡ []
  pub ended : (q : ℕ) → is_named q ts ≡ true → w'.state q ≡ term
  pub destroyed : destroy_scheduler w' ≡ ok tt

abbrev unthreaded : World → World
unthreaded v = record v { sched = record v.sched { thread_list = [] } }

module _ (idle_fiber tid new : ℕ) (ts : List Task) where
  -- `run`, as the root fiber's code
  abbrev pub call_run : World → Outcome World
  call_run v = run_loop (suc (suc (length ts))) (runs_to_end idle_fiber) tid idle_fiber new v

  -- `isStop` means that there was no task.
  stop_requested-Stopped :
      (w : World) (threads : List ℕ)
      → threads ≡ []
      → Draining idle_fiber tid (stop_requested w) new ts
      → is_stop (stop_requested w).sched ≡ true
      → Stopped ts (record (stop_requested w) {
        sched = record (stop_requested w).sched { thread_list = threads };
      })
  unfolding destroy_scheduler
  stop_requested-Stopped w threads t d s = record {
    tasks = none_left;
    stops = s;
    threads = t;
    ended = λ q m. absurd (unnamed q m (sym d.tasks ∙ none_left));
    destroyed = refl;
  }
    where
      none_left : w.sched.tasks ≡ []
      none_left = by_cases w.sched.tasks (ground (arith, s))
        where
          by_cases : (us : List Task) → is_empty us ≡ true → us ≡ []
          by_cases [] h = refl
          by_cases (u ∷ us) h = absurd (cc)

      unnamed : (q : ℕ) → is_named q ts ≡ true → ts ≡ [] → ⊥
      unnamed q m e = let no : is_named q ts ≡ false = rw e refl in absurd (cc)

  Drained-Stopped :
      (root : ℕ) (w w' : World)
      → Draining idle_fiber tid w new ts
      → Drained idle_fiber tid w w' new ts
      → Stopped ts (unthreaded (put_state root State.term w'))
  unfolding destroy_scheduler
  Drained-Stopped root w w' d e = record {
    tasks = rw e.sched refl;
    stops = rw (e.sched, d.none_active, d.asked) refl;
    threads = refl;
    ended = λ q m. elim (Bool-cases (root == q)) [ inl h ↦ rw h refl | inr h ↦ rw h (e.ended q m) ];
    destroyed = rw (e.sched, d.asked) refl;
  }

  -- What the root fiber's code starts from, where no task names the root fiber.
  entered-Draining :
      (root : ℕ) (w : World)
      → (root == idle_fiber) ≡ false
      → is_named root ts ≡ false
      → Draining idle_fiber tid w new ts
      → Draining idle_fiber tid (put_state root State.exec w) new ts
  entered-Draining root w i n d = record {
    tasks = d.tasks;
    starts =
        others-AllCanStart w.state (put_state root State.exec w).state root new new tid ts
          (omega arith) (λ q e. rw e refl) n d.starts;
    apart = d.apart;
    older = d.older;
    idle_ready = rw i d.idle_ready;
    asked = d.asked;
    none_active = d.none_active;
    idle_small = d.idle_small;
  }

  chosen :
      (asked : World) (o : Option ℕ) (b : Bool) (root : ℕ)
      → o ≡ some root
      → b ≡ false
      → ((elim o [
        | none ↦ ok asked
        | some p ↦ if not b then call_root call_run p asked else ok asked
      ])
          >>= λ v. ok (unthreaded v))
        ≡ (call_root call_run root asked >>= λ v. ok (unthreaded v))
  chosen asked none b root r e = absurd (cc)
  chosen asked (some p) true root r e = absurd (cc)
  chosen asked (some p) false root r e = let same : p ≡ root = cc in rw same refl

  waits :
      (root : ℕ) (w : World)
      → w.sched.root_fiber ≡ some root
      → is_stop (stop_requested w).sched ≡ false
      → stop_scheduler call_run (λ v. v) w
        ≡ (call_root call_run root (stop_requested w) >>= λ v. ok (unthreaded v))
  unfolding stop_scheduler
  waits root w r s = elim (Bool-cases (runs_alone w)) [
    | inl alone ↦
        rw (alone, s, stop_scheduler) (chosen (stop_requested w) w.sched.root_fiber _ root r s)
    | inr others ↦
        rw (others, stop_scheduler) (chosen (stop_requested w) w.sched.root_fiber _ root r s)
  ]

  called :
      (root : ℕ) (w : World)
      → can_run (w.state root) ≡ true
      → (root == idle_fiber) ≡ false
      → is_named root ts ≡ false
      → Draining idle_fiber tid w new ts
      → Returns (λ v. Stopped ts (unthreaded v)) (call_root call_run root w)
  unfolding call_root
  called root w c i n d = rw c (
      Returns-bind ends (λ v. Stopped ts (unthreaded v)) (call_run entered) _
        (run_loop-Drained idle_fiber tid new entered ts started)
        (λ w' e. Drained-Stopped root entered w' started e.0))
    where
      entered : World
      entered = put_state root State.exec w

      ends : World → Type 0
      ends w' = Drained idle_fiber tid entered w' new ts × (w'.state idle_fiber ≡ term)

      started : Draining idle_fiber tid entered new ts
      started = entered-Draining root w i n d

  -- A `stop` where tasks are left and the root fiber has ended, or runs.
  root-asserts :
      (root : ℕ) (w : World)
      → w.sched.root_fiber ≡ some root
      → can_run (w.state root) ≡ false
      → is_stop (stop_requested w).sched ≡ false
      → stop_scheduler call_run (λ v. v) w ≡ stop assertion
  unfolding call_root
  root-asserts root w r c s = waits root w r s ∙ rw (call_root, c) refl

  -- How `stop` ends, where the Boolean says whether it calls the root fiber only if that may run.
  abbrev pub Ends : Bool → Outcome World → Type 0
  Ends callable r = if callable then Returns (Stopped ts) r else r ≡ stop assertion

  tasks_left :
      (root : ℕ) (w : World)
      → w.sched.root_fiber ≡ some root
      → (root == idle_fiber) ≡ false
      → is_named root ts ≡ false
      → Draining idle_fiber tid (stop_requested w) new ts
      → is_stop (stop_requested w).sched ≡ false
      → Ends (can_run (w.state root)) (stop_scheduler call_run (λ v. v) w)
  tasks_left root w r i n d s = elim (Bool-cases (can_run (w.state root))) [
    | inl c ↦
        rw (c, waits root w r s)
          (Returns-bind (λ v. Stopped ts (unthreaded v)) (Stopped ts)
            (call_root call_run root (stop_requested w)) _ (called root (stop_requested w) c i n d)
            (λ v e. e))
    | inr c ↦ rw c (root-asserts root w r c s)
  ]

  nothing_left :
      (root : ℕ) (w : World)
      → w.sched.root_fiber ≡ some root
      → w.sched.thread_list ≡ []
      → Draining idle_fiber tid (stop_requested w) new ts
      → is_stop (stop_requested w).sched ≡ true
      → Returns (Stopped ts) (stop_scheduler call_run (λ v. v) w)
  unfolding stop_scheduler
  nothing_left root w r t d s = elim (Bool-cases (runs_alone w)) [
    | inl alone ↦ rw (alone, s, stop_scheduler) (stop_requested-Stopped w w.sched.thread_list t d s)
    | inr others ↦ rw (others, r, s, stop_scheduler) (stop_requested-Stopped w [] refl d s)
  ]

  -- On a scheduler that serves its tasks on the thread that constructed it, with no other threads, whose
  -- root fiber is named by no task, and where every fiber runs to its end: if no task is left or the
  -- root fiber may be called, `stop` returns, no task is left, every fiber that a task named has ended,
  -- `isStop` holds, and the destructor's assertion holds. Otherwise, as on a second `stop` after new
  -- tasks, `stop` fails an assertion.
  pub stop_scheduler-Stopped :
      (root : ℕ) (w : World)
      → w.sched.root_fiber ≡ some root
      → w.sched.thread_list ≡ []
      → (root == idle_fiber) ≡ false
      → is_named root ts ≡ false
      → Draining idle_fiber tid (stop_requested w) new ts
      → Ends
          (is_stop (stop_requested w).sched || can_run (w.state root))
          (stop_scheduler call_run (λ v. v) w)
  stop_scheduler-Stopped root w r t i n d = elim (Bool-cases (is_stop (stop_requested w).sched)) [
    | inl s ↦ rw s (nothing_left root w r t d s)
    | inr s ↦ rw s (tasks_left root w r i n d s)
  ]

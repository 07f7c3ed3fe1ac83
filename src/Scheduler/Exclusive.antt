-- ===== src/Scheduler/Exclusive.antt =====
-- That no two threads run the same fiber.
use learn_server_concise.Base.{
  ℕ, ◌≡◌, ◌≢◌, refl, sym, ap, ◌∙◌, Bool, true, false, ◌||◌, List, [], ◌∷◌, ◌++◌, Option, some, ◌==◌,
  ==_iff, Bool-cases, Option-cases, inl, inr, arith,
}
use mathlib.Core.Path.{subst}
use learn_server_concise.Fiber.{State, initial, hold, exec, term, is_exec}
use learn_server_concise.Scheduler.{
  Task, Executable, a_fiber, a_callback, make_task, has_work, World, schedule, schedule_non_block,
  settle, put_state,
}
use learn_server_concise.Scheduler.Starts.{is_named}
use learn_server_concise.Scheduler.Tasks.{schedule-order}
use learn_server_concise.Scheduler.Taken.{NoTwice, scan-Took}
use learn_server_concise.Scheduler.Threads.{
  looking, failed, holding, running, left, fiber_at, Threads, count_out, IsFree, Step, schedules,
  takes, makes, drops, enters, fails, suspends, ends, throws, settles, Reachable, begins, goes_on,
}
use learn_server_concise.Scheduler.Sound.{is_ready, Sound, goes-Sound, stays-Sound}

-- Only a fiber that nobody has is scheduled.
abbrev pub OnlyFree : Threads → Executable → Type 0
OnlyFree s e = (p : ℕ) → e ≡ a_fiber (some p) → IsFree p s

settle_lem :
    (p : ℕ) (bound : Option ℕ) (w : World)
    → is_ready (w.state p) ≡ false
    → ((settle p bound w).0.sched ≡ w.sched)
      × ((q : ℕ) → (p == q) ≡ false → (settle p bound w).0.state q ≡ w.state q)
unfolding settle
settle_lem p bound w h = by_state (w.state p) refl h
  where
    by_state :
        (x : State)
        → w.state p ≡ x
        → is_ready x ≡ false
        → ((settle p bound w).0.sched ≡ w.sched)
          × ((q : ℕ) → (p == q) ≡ false → (settle p bound w).0.state q ≡ w.state q)
    by_state State.ready e h = absurd (cc)
    by_state State.initial e h = (rw (e, settle) refl, λ q d. rw (e, d, settle) refl)
    by_state State.hold e h = (rw (e, settle) refl, λ q d. rw (e, d, settle) refl)
    by_state State.exec e h = (rw (e, settle) refl, λ q d. rw (e, d, settle) refl)
    by_state State.term e h = (rw (e, settle) refl, λ q d. rw (e, settle) refl)
    by_state State.exception e h = (rw (e, settle) refl, λ q d. rw (e, settle) refl)

not_named : (t : Task) (p : ℕ) → t.fiber ≢ some p → is_named p (t ∷ []) ≡ false
not_named t p n = elim (Option-cases t.fiber) [
  | inl e ↦ rw e refl
  | inr (q, e) ↦ elim (Bool-cases (q == p)) [
    | inl h ↦ absurd (n (e ∙ ap some ((==_iff q p).0 h)))
    | inr h ↦ rw (e, h) refl
  ]
]

named_by : (t : Task) (p : ℕ) (ts : List Task) → t.fiber ≡ some p → is_named p (t ∷ ts) ≡ true
named_by t p ts e = let self : (p == p) ≡ true = ground arith in rw (e, self) refl

-- One more task at the end.
is_named-append :
    (q : ℕ) (ts : List Task) (t : Task)
    → is_named q (ts ++ t ∷ []) ≡ (is_named q ts || is_named q (t ∷ []))
is_named-append q [] t = ground arith
is_named-append q (u ∷ us) t = ground (arith, is_named-append q us t)

NoTwice-append :
    (ts : List Task) (t : Task)
    → NoTwice ts
    → ((p : ℕ) → t.fiber ≡ some p → is_named p ts ≡ false)
    → NoTwice (ts ++ t ∷ [])
unfolding NoTwice
NoTwice-append [] t n f = (λ p e. refl, tt)
NoTwice-append (u ∷ us) t n f = (
  λ p e.
      is_named-append p us t
      ∙ ground
          (arith, n.0 p e, not_named t p (λ g. absurd (ground (arith, f p g, named_by u p us e)))),
  NoTwice-append us t n.1 (λ p e. ground (arith, f p e)),
)

scheduled-Sound :
    (s : Threads) (e : Executable) (bound : Option ℕ) (instant : Bool)
    → OnlyFree s e
    → Sound s
    → Sound
        (record s { world = record s.world { sched = (schedule e bound instant s.world.sched).0 } })
unfolding schedule schedule_non_block
scheduled-Sound s e bound instant free v = record {
  once = elim (Bool-cases (has_work task)) [
    | inl h ↦
        subst NoTwice (sym (schedule-order e bound instant s.world.sched h).0)
          (NoTwice-append s.world.sched.tasks task v.once (λ p g. (free p (fiber_of_task e p g)).0))
    | inr h ↦ subst NoTwice (sym (unchanged h)) v.once
  ];
  apart = λ tid p g. elim (Bool-cases (has_work task)) [
    | inl h ↦
        ap (is_named p) (schedule-order e bound instant s.world.sched h).0
        ∙ is_named-append p s.world.sched.tasks task
        ∙ ground
            (arith, v.apart tid p g, not_named task p (λ k. (free p (fiber_of_task e p k)).1 tid g))
    | inr h ↦ ap (is_named p) (unchanged h) ∙ v.apart tid p g
  ];
  alone = v.alone;
  calm = v.calm;
}
  where
    task : Task
    task = make_task e bound

    fiber_of_task :
        (e : Executable) (p : ℕ) → (make_task e bound).fiber ≡ some p → e ≡ a_fiber (some p)
    fiber_of_task (a_fiber f) p g = ap a_fiber g
    fiber_of_task (a_callback c) p g = absurd (cc)

    unchanged :
        has_work task ≡ false
        → (schedule e bound instant s.world.sched).0.tasks ≡ s.world.sched.tasks
    unchanged h = rw (h, schedule, schedule_non_block) refl

step-Sound : (s s' : Threads) → Step OnlyFree s s' → Sound s → Sound s'
step-Sound s _ (schedules e bound instant free) v = scheduled-Sound s e bound instant free v
step-Sound s _ (takes tid found t at_place e f) v =
    let k = scan-Took s.world.state tid s.world.sched.tasks found t e f in
    goes-Sound s tid _ (holding t) v record {
      once = k.once v.once;
      fewer = k.fewer;
      own_apart = k.gone v.once;
      own_alone = λ q other e n f. absurd (ground (arith, k.was q e, v.apart other q f));
      others = λ q other n f. refl;
      own_calm = k.calm;
    }
step-Sound s _ (makes tid new c t at_place e free) v =
    goes-Sound s tid (put_state new initial s.world) _ v record {
      once = v.once;
      fewer = λ q n. n;
      own_apart = λ q e.
          let eq : new ≡ q = cc in subst (λ x. is_named x s.world.sched.tasks ≡ false) eq free.0;
      own_alone = λ q other e n f. let eq : new ≡ q = cc in free.1 other (f ∙ ap some (sym eq));
      others = λ q other n f. elim (Bool-cases (new == q)) [
        | inl h ↦ absurd (free.1 other (f ∙ ap some (sym ((==_iff new q).0 h))))
        | inr h ↦ rw h refl
      ];
      own_calm = λ p e. let eq : (new == p) ≡ true = ground arith in rw eq refl;
    }
step-Sound s _ (drops tid p t at_place e f h) v =
    stays-Sound s tid s.world looking p v (rw at_place f) refl (λ q e. absurd (cc)) (λ q d. refl) tt
step-Sound s _ (enters tid p t at_place e f h) v =
    stays-Sound s tid (put_state p exec s.world) (running p t.thread_id) p v (rw at_place f) refl
      (λ q e. cc) (λ q d. rw d refl) tt
step-Sound s _ (fails tid p t at_place e f h k) v =
    let calm : is_exec (s.world.state p) ≡ false = (rw at_place at (v.calm tid)) p f in
    absurd (ground arith)
step-Sound s _ (suspends tid p bound at_place) v =
    stays-Sound s tid (put_state p hold s.world) (left p bound) p v (rw at_place refl) refl
      (λ q e. cc) (λ q d. rw d refl) (let self : (p == p) ≡ true = ground arith in rw self refl)
step-Sound s _ (ends tid p bound at_place) v =
    stays-Sound s tid (put_state p term s.world) (left p bound) p v (rw at_place refl) refl
      (λ q e. cc) (λ q d. rw d refl) (let self : (p == p) ≡ true = ground arith in rw self refl)
step-Sound s _ (throws tid p bound at_place) v =
    stays-Sound s tid (put_state p exec s.world) (left p bound) p v (rw at_place refl) refl
      (λ q e. cc) (λ q d. rw d refl) (let self : (p == p) ≡ true = ground arith in rw self refl)
step-Sound s _ (settles tid p bound at_place) v =
    let k = settle_lem p bound (count_out s.world) (rw at_place at (v.calm tid)) in
    stays-Sound s tid (settle p bound (count_out s.world)).0 looking p v (rw at_place refl)
      (ap (λ x. x.tasks) k.0) (λ q e. absurd (cc)) k.1 tt

reachable-Sound : (s : Threads) → Reachable OnlyFree s → Sound s
unfolding NoTwice
reachable-Sound _ (begins w e) = record {
  once = subst NoTwice (sym e) tt;
  apart = λ tid p e. absurd (cc);
  alone = λ tid other p e f. absurd (cc);
  calm = λ tid. tt;
}
reachable-Sound s (goes_on r t) = step-Sound _ s t (reachable-Sound _ r)

-- Where a fiber is only scheduled while no task names it and no thread has it, then however the threads'
-- steps interleave, no two threads ever have the same fiber, no two tasks name the same one, and
-- the assertion of swapIn on the fiber's state never fails.
pub reachable-Exclusive :
    (s : Threads)
    → Reachable OnlyFree s
    → ((tid other p : ℕ)
        → fiber_at (s.place tid) ≡ some p
        → fiber_at (s.place other) ≡ some p
        → tid ≡ other)
      × NoTwice s.world.sched.tasks
      × ((tid : ℕ) → s.place tid ≢ failed)
reachable-Exclusive s r =
    let v = reachable-Sound s r in (v.alone, v.once, λ tid e. rw e at (v.calm tid))

-- ===== src/Scheduler/FirstTask.antt =====
-- A round of Scheduler::run on a thread whose first task it can run.
use learn_server_concise.Base.{
  ℕ, ◌+◌, ◌^◌, ◌<◌, ◌≡◌, ◌≢◌, refl, ap, ◌∙◌, true, false, List, ◌∷◌, Option, none, some, ◌==◌,
  if◌then◌else◌, arith, Returns, ok, Bool-cases, Option-cases, inl, inr,
}
use learn_server_concise.Fiber.{State, initial, term, is_exec, finish, can_run}
use learn_server_concise.Scheduler.Loop.{count_up_down, dispatch-fiber}
use learn_server_concise.Scheduler.{
  Task, Scheduler, World, Round, Found, is_foreign, has_work, scan, resume, settle, run_fiber,
  dispatch, run_round, count_up, count_down, put_state, set_active,
}
use learn_server_concise.Scheduler.Ending.{on_idle}
use learn_server_concise.Scheduler.Starts.{fiber_of, is_named, CanStart}

-- Every fiber but the idle one runs to its end; the idle one is the class's own.
unfoldable pub runs_to_end : ℕ → ℕ → World → World
runs_to_end idle_fiber p w = if p == idle_fiber then on_idle idle_fiber w else put_state p term w

runs_to_end-other :
    (idle_fiber p : ℕ) (v : World)
    → p ≢ idle_fiber
    → runs_to_end idle_fiber p v ≡ put_state p term v
unfolding runs_to_end
runs_to_end-other idle_fiber p v n =
    let other : (p == idle_fiber) ≡ false = ground arith in rw other refl

pub can_run-cases : (s : State) → can_run s ≡ true → (is_exec s ≡ false) × (finish s ≡ false)
can_run-cases s c = ground arith

-- A fiber whose code ends is neither scheduled again nor put on hold.
settle-term : (p : ℕ) (tid : Option ℕ) (v : World) → v.state p ≡ term → settle p tid v ≡ (v, false)
unfolding settle
settle-term p tid v e = rw (e, settle) refl

run_fiber-term :
    (body : ℕ → World → World) (p : ℕ) (tid : Option ℕ) (v : World)
    → can_run (v.state p) ≡ true
    → (body p (put_state p State.exec v)).state p ≡ term
    → let after = body p (put_state p State.exec v) in
      run_fiber body p tid false v
      ≡ ok (record {
        world = set_active (count_down after.sched.active) after;
        goes_on = true;
        tickled = false;
      })
unfolding run_fiber resume
run_fiber-term body p tid v c e =
    let after = body p (put_state p State.exec v) in
    rw (c, settle-term p tid (set_active (count_down after.sched.active) after) e) refl

module _ (idle_fiber tid new : ℕ) (w : World) (t : Task) (ts : List Task) where
  -- What a round does that runs the first task.
  abbrev pub Ran : Round → Type 0
  Ran r =
      (r.goes_on ≡ true)
      × (r.world.sched ≡ record w.sched { tasks = ts })
      × ((q : ℕ) → r.world.state q ≡ (if fiber_of new t == q then term else w.state q))

  abbrev first_found : Found
  first_found = record { task = some t; rest = ts; tickle_me = false }

  abbrev taken_world : World
  taken_world = record w { sched = record w.sched { tasks = ts; active = count_up w.sched.active } }

  first_lem :
      is_foreign tid t ≡ false
      → has_work t ≡ true
      → (elim t.fiber [ none ↦ false | some f ↦ is_exec (w.state f) ]) ≡ false
      → w.sched.tasks ≡ t ∷ ts
      → run_round (runs_to_end idle_fiber) tid idle_fiber new w
        ≡ dispatch (runs_to_end idle_fiber) idle_fiber new false (some t) taken_world
  unfolding run_round scan
  first_lem f h x e = rw (e, f, h, x) refl

  run_fiber-Ran :
      (p : ℕ) (v : World)
      → fiber_of new t ≡ p
      → p ≢ idle_fiber
      → can_run (v.state p) ≡ true
      → v.sched ≡ taken_world.sched
      → ((q : ℕ) → (p == q) ≡ false → v.state q ≡ w.state q)
      → w.sched.active + 1 < 2 ^ 64
      → Returns Ran (run_fiber (runs_to_end idle_fiber) p t.thread_id false v)
  run_fiber-Ran p v k n c s same small =
      let self : (p == p) ≡ true = ground arith in
      let end : (runs_to_end idle_fiber p (put_state p State.exec v)).state p ≡ term =
        rw (runs_to_end-other idle_fiber p (put_state p State.exec v) n, self) refl in
      rw
        (
          run_fiber-term (runs_to_end idle_fiber) p t.thread_id v c end,
          runs_to_end-other idle_fiber p (put_state p State.exec v) n,
        )
        (
          refl,
          ap {A = Scheduler} (λ x. record x { active = count_down x.active }) s
              ∙ ap restored (count_up_down w.sched.active small),
          λ q. elim (Bool-cases (p == q)) [ inl e ↦ rw (k, e) refl | inr e ↦ rw (k, e) (same q e) ],
        )
    where
      restored : ℕ → Scheduler
      restored a = record w.sched { tasks = ts; active = a }

  dispatch-callback :
      (c : ℕ) (v : World)
      → t.callback ≡ some c
      → dispatch (runs_to_end idle_fiber) idle_fiber new false (some t) v
        ≡ run_fiber (runs_to_end idle_fiber) new t.thread_id false (put_state new initial v)
  unfolding dispatch
  dispatch-callback c v k = rw (k, dispatch) refl

  callback-Ran :
      (c : ℕ)
      → is_foreign tid t ≡ false
      → t.fiber ≡ none
      → t.callback ≡ some c
      → w.sched.tasks ≡ t ∷ ts
      → new ≢ idle_fiber
      → w.sched.active + 1 < 2 ^ 64
      → Returns Ran (run_round (runs_to_end idle_fiber) tid idle_fiber new w)
  callback-Ran c f h k e n small =
      let self : (new == new) ≡ true = ground arith in
      rw (first_lem f (rw (h, k) refl) (rw h refl) e, dispatch-callback c taken_world k)
        (run_fiber-Ran new (put_state new initial taken_world) (rw k refl) n (rw self refl) refl
          (λ q d. rw d refl) small)

  fiber-Ran :
      (p : ℕ)
      → is_foreign tid t ≡ false
      → t.fiber ≡ some p
      → t.callback ≡ none
      → can_run (w.state p) ≡ true
      → w.sched.tasks ≡ t ∷ ts
      → p ≢ idle_fiber
      → w.sched.active + 1 < 2 ^ 64
      → Returns Ran (run_round (runs_to_end idle_fiber) tid idle_fiber new w)
  fiber-Ran p f h k c e n small =
      let ready = can_run-cases (w.state p) c in
      rw
        (
          first_lem f (rw h refl) (rw (h, ready.0) refl) e,
          dispatch-fiber (runs_to_end idle_fiber) tid idle_fiber new p w first_found t taken_world k
              h ready.1,
        )
        (run_fiber-Ran p taken_world (rw (h, k) refl) n c refl (λ q d. refl) small)

module _ (idle_fiber tid : ℕ) where
  pub round-Ran :
      (new : ℕ) (w : World) (t : Task) (ts : List Task)
      → is_foreign tid t ≡ false
      → CanStart w.state new ts t
      → w.sched.tasks ≡ t ∷ ts
      → fiber_of new t ≢ idle_fiber
      → w.sched.active + 1 < 2 ^ 64
      → Returns
          (Ran idle_fiber tid new w t ts)
          (run_round (runs_to_end idle_fiber) tid idle_fiber new w)
  round-Ran new w t ts f s e n small = elim (Option-cases t.fiber) [
    | inl h ↦ elim (Option-cases t.callback) [
      | inl k ↦ absurd (ground (arith, k, rw (h, CanStart) at s))
      | inr (c, k) ↦ callback-Ran idle_fiber tid new w t ts c f h k e (λ x. n (rw k x)) small
    ]
    | inr (p, h) ↦
        let start : (t.callback ≡ none)
            × (can_run (w.state p) ≡ true)
            × (is_named p ts ≡ false)
            × (p < new) =
          rw (h, CanStart) at s in
        fiber-Ran idle_fiber tid new w t ts p f h start.0 start.1 e (λ x. n (rw (h, start.0) x))
          small
  ]

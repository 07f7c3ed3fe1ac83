-- ===== src/Scheduler/Leaks.antt =====
-- How the count of active tasks grows with the rounds of Scheduler::run.
use learn_server_concise.Base.{
  ℕ, ◌+◌, ◌^◌, ◌<◌, ◌≤◌, ◌≡◌, refl, sym, ◌∙◌, ap, Bool, true, false, Option, none, some,
  if◌then◌else◌, arith, Returns, Returns-weaken, Outcome, ok, stop, Bool-cases, Option-cases, inl,
  inr, ◌⊎◌, ◌>>=◌,
}
use learn_server_concise.Fiber.{State, initial, finish, can_run, is_some}
use learn_server_concise.Scheduler.{
  Task, World, Round, Found, scan, resume, run_fiber, run_idle, dispatch, run_round, count_up,
  count_down, put_state, is_stop,
}
use learn_server_concise.Scheduler.Loop.{
  KeepsActive, settle-active, hold_idle-active, run_round-over,
}

-- A claim on the value of code that may also stop.
abbrev IfReturns : {A : Type 0} → (A → Type 0) → Outcome A → Type 0
IfReturns P (ok a) = P a
IfReturns P (stop e) = Unit

IfReturns-weaken :
    {A : Type 0} (P Q : A → Type 0) (r : Outcome A)
    → IfReturns P r
    → ((a : A) → P a → Q a)
    → IfReturns Q r
IfReturns-weaken P Q (ok a) p h = h a p
IfReturns-weaken P Q (stop e) p h = tt

IfReturns-bind :
    {A B : Type 0} (P : A → Type 0) (Q : B → Type 0) (r : Outcome A) (f : A → Outcome B)
    → IfReturns P r
    → ((a : A) → P a → IfReturns Q (f a))
    → IfReturns Q (r >>= f)
IfReturns-bind P Q (ok a) f p h = h a p
IfReturns-bind P Q (stop e) f p h = tt

IfReturns-value :
    {A : Type 0} (P : A → Type 0) (r : Outcome A) (a : A) → IfReturns P r → r ≡ ok a → P a
IfReturns-value P (ok b) a p e = let same : b ≡ a = cc in rw (sym same) p
IfReturns-value P (stop x) a p e = absurd (cc)

module _ (body : ℕ → World → World) (keeps : (p : ℕ) → KeepsActive body p) where
  -- The worlds after `n` more rounds, one after the other, of whatever threads.
  pub data Later (w : World) : ℕ → World → Type 0 where
    at_once : (n : ℕ) (v : World) → n ≡ 0 → v ≡ w → Later w n v
    after_round :
        (n : ℕ) (v : World) (tid idle_fiber new : ℕ) (r : Round) (m : ℕ) (u : World)
        → Later w n v
        → run_round body tid idle_fiber new v ≡ ok r
        → m ≡ n + 1
        → u ≡ r.world
        → Later w m u

  resume-active :
      (p : ℕ) (v : World) → IfReturns (λ w. w.sched.active ≡ v.sched.active) (resume body p v)
  unfolding resume
  resume-active p v = elim (Bool-cases (can_run (v.state p))) [
    | inl c ↦ rw c (keeps p (put_state p State.exec v))
    | inr c ↦ rw c tt
  ]

  fiber-active :
      (p : ℕ) (tid : Option ℕ) (b : Bool) (v : World)
      → IfReturns (λ r. r.world.sched.active ≡ count_down v.sched.active) (run_fiber body p tid b v)
  unfolding run_fiber
  fiber-active p tid b v =
      IfReturns-bind (λ w. w.sched.active ≡ v.sched.active) _ (resume body p v) _
        (resume-active p v) (λ w e. settle-active p tid _ ∙ ap count_down e)

  idle-active :
      (p : ℕ) (b : Bool) (v : World)
      → IfReturns (λ r. r.world.sched.active ≡ v.sched.active) (run_idle body p b v)
  unfolding run_idle
  idle-active p b v = elim (Bool-cases (finish (v.state p))) [
    | inl f ↦ rw f refl
    | inr f ↦ rw f (
        IfReturns-bind (λ w. w.sched.active ≡ v.sched.active) _ (resume body p _) _
          (resume-active p _) (λ w e. hold_idle-active _ p _ ∙ e))
  ]

  abbrev Counted : World → Round → Type 0
  Counted v r =
      (r.world.sched.active ≡ v.sched.active) ⊎ (r.world.sched.active ≡ count_down v.sched.active)

  task-active :
      (idle_fiber new : ℕ) (b : Bool) (t : Task) (v : World)
      → IfReturns (Counted v) (dispatch body idle_fiber new b (some t) v)
  unfolding dispatch
  task-active idle_fiber new b t v = elim (Option-cases t.callback) [
    | inr (c, k) ↦ rw k (
        IfReturns-weaken _ (Counted v) _ (fiber-active new t.thread_id b (put_state new initial v))
          (λ r e. inr e))
    | inl k ↦ elim (Option-cases t.fiber) [
      | inl f ↦
          rw (k, f) (IfReturns-weaken _ (Counted v) _ (idle-active idle_fiber b v) (λ r e. inl e))
      | inr (p, f) ↦ elim (Bool-cases (finish (v.state p))) [
        | inl h ↦
            rw (k, f, h)
              (IfReturns-weaken _ (Counted v) _ (idle-active idle_fiber b v) (λ r e. inl e))
        | inr h ↦
            rw (k, f, h)
              (IfReturns-weaken _ (Counted v) _ (fiber-active p t.thread_id b v) (λ r e. inr e))
      ]
    ]
  ]

  -- A round leaves the count as it is or one higher.
  abbrev Within : World → Round → Type 0
  Within v r = (v.sched.active ≤ r.world.sched.active) × (r.world.sched.active ≤ v.sched.active + 1)

  found-active :
      (idle_fiber new : ℕ) (b : Bool) (o : Option Task) (v left taken : World)
      → v.sched.active + 1 < 2 ^ 64
      → left.sched.active ≡ v.sched.active
      → taken.sched.active ≡ count_up v.sched.active
      → IfReturns (Within v) (dispatch body idle_fiber new b o (if is_some o then taken else left))
  unfolding dispatch
  found-active idle_fiber new b none v left taken s l t =
      IfReturns-weaken _ (Within v) _ (idle-active idle_fiber b left)
        (λ r e. (omega (arith, e, l), omega (arith, e, l)))
  found-active idle_fiber new b (some task) v left taken s l t =
      IfReturns-weaken (Counted taken) (Within v) _ (task-active idle_fiber new b task taken)
        (λ r e. elim e [
          | inl x ↦ (omega (arith, x, t, s), omega (arith, x, t, s))
          | inr x ↦ (omega (arith, x, t, s), omega (arith, x, t, s))
        ])

  round-active :
      (tid idle_fiber new : ℕ) (v : World)
      → v.sched.active + 1 < 2 ^ 64
      → IfReturns (Within v) (run_round body tid idle_fiber new v)
  unfolding run_round
  round-active tid idle_fiber new v s =
      IfReturns-bind (λ found. Unit) (Within v) (scan v.state tid v.sched.tasks) _ (anything _)
        (λ found x. found-active idle_fiber new found.tickle_me found.task v _ _ s refl refl)
    where
      anything : (r : Outcome Found) → IfReturns (λ found. Unit) r
      anything (ok found) = tt
      anything (stop e) = tt

  Later-active :
      (w : World) (n : ℕ) (v : World)
      → Later w n v
      → w.sched.active + n < 2 ^ 64
      → (w.sched.active ≤ v.sched.active) × (v.sched.active ≤ w.sched.active + n)
  Later-active w n v (at_once _ _ z e) s =
      let same : v.sched.active ≡ w.sched.active = ap (λ x. x.sched.active) e in
      (omega (arith, same), omega (arith, same))
  Later-active w m u (after_round n v tid idle_fiber new r _ _ l e z q) s =
      let before = Later-active w n v l (omega (arith, s, z)) in
      let step =
        IfReturns-value (Within v) (run_round body tid idle_fiber new v) r
          (round-active tid idle_fiber new v (omega (arith, s, z, before.1))) e in
      let same : u.sched.active ≡ r.world.sched.active = ap (λ x. x.sched.active) q in
      (omega (arith, same, step.0, before.0), omega (arith, same, step.1, before.1, z))

  is_stop-busy : (w : World) → 0 < w.sched.active → is_stop w.sched ≡ false
  is_stop-busy w h = ground (arith, h)

  -- If the search finds the task of a fiber that has already finished, the idle fiber may run, and no
  -- fiber's code writes to the count of active tasks, then the round returns with the count one higher
  -- than before, and however many rounds of whatever threads follow, as long as the count cannot
  -- reach 2^64, `isStop` is false.
  pub run_round-leaks :
      (tid idle_fiber new p : ℕ) (w : World) (found : Found) (t : Task)
      → scan w.state tid w.sched.tasks ≡ ok found
      → found.task ≡ some t
      → t.callback ≡ none
      → t.fiber ≡ some p
      → finish (w.state p) ≡ true
      → can_run (w.state idle_fiber) ≡ true
      → w.sched.active + 1 < 2 ^ 64
      → Returns
          (λ r.
            (r.world.sched.active ≡ w.sched.active + 1)
            × ((n : ℕ) (v : World)
                → Later r.world n v
                → w.sched.active + 1 + n < 2 ^ 64
                → is_stop v.sched ≡ false))
          (run_round body tid idle_fiber new w)
  run_round-leaks tid idle_fiber new p w found t e k c f h x small =
      Returns-weaken _ _ (run_round body tid idle_fiber new w)
        (run_round-over body tid idle_fiber new p w found t e k c f h x (keeps idle_fiber) small)
        (λ r a. (
          a.0,
          λ n v l s.
              let grown = Later-active r.world n v l (omega (arith, a.0, s)) in
              is_stop-busy v (omega (arith, grown.0, a.0)),
        ))

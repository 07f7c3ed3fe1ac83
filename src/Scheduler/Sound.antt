-- ===== src/Scheduler/Sound.antt =====
-- What holds of several threads of the scheduler that have a fiber each.
use learn_server_concise.Base.{
  ℕ, ◌≡◌, ◌≢◌, refl, sym, ap, ◌∙◌, Bool, true, false, some, ◌==◌, ==_iff, Bool-cases, inl, inr,
  arith,
}
use mathlib.Core.Path.{subst}
use learn_server_concise.Fiber.{State, is_exec}
use learn_server_concise.Scheduler.{World}
use learn_server_concise.Scheduler.Starts.{is_named}
use learn_server_concise.Scheduler.Taken.{NoTwice}
use learn_server_concise.Scheduler.Threads.{
  Place, looking, failed, holding, running, left, fiber_at, Threads, goes,
}

abbrev pub is_ready : State → Bool
is_ready State.ready = true
is_ready _ = false

-- What a thread knows of the state of its fiber.
abbrev pub IsCalm : (ℕ → State) → Place → Type 0
IsCalm state looking = Unit
IsCalm state failed = ⊥
IsCalm state (holding t) = (p : ℕ) → t.fiber ≡ some p → is_exec (state p) ≡ false
IsCalm state (running p bound) = Unit
IsCalm state (left p bound) = is_ready (state p) ≡ false

pub record Sound (s : Threads) : Type 0 where
  pub once : NoTwice s.world.sched.tasks
  pub apart : (tid p : ℕ) → fiber_at (s.place tid) ≡ some p → is_named p s.world.sched.tasks ≡ false
  pub alone :
      (tid other p : ℕ)
      → fiber_at (s.place tid) ≡ some p
      → fiber_at (s.place other) ≡ some p
      → tid ≡ other
  pub calm : (tid : ℕ) → IsCalm s.world.state (s.place tid)

IsCalm-same :
    (state state' : ℕ → State) (x : Place)
    → ((q : ℕ) → fiber_at x ≡ some q → state' q ≡ state q)
    → IsCalm state x
    → IsCalm state' x
IsCalm-same state state' looking h c = tt
IsCalm-same state state' failed h c = c
IsCalm-same state state' (holding t) h c = λ p e. rw (h p e) (c p e)
IsCalm-same state state' (running p bound) h c = tt
IsCalm-same state state' (left p bound) h c = rw (h p refl) c

-- A thread goes from one place to another, and names no new task.
module _ (s : Threads) (tid : ℕ) (w : World) (x : Place) where
  pub record Goes : Type 0 where
    pub once : NoTwice w.sched.tasks
    pub fewer : (q : ℕ) → is_named q s.world.sched.tasks ≡ false → is_named q w.sched.tasks ≡ false
    pub own_apart : (q : ℕ) → fiber_at x ≡ some q → is_named q w.sched.tasks ≡ false
    pub own_alone :
        (q other : ℕ) → fiber_at x ≡ some q → tid ≢ other → fiber_at (s.place other) ≢ some q
    pub others :
        (q other : ℕ)
        → tid ≢ other
        → fiber_at (s.place other) ≡ some q
        → w.state q ≡ s.world.state q
    pub own_calm : IsCalm w.state x

  pub goes-Sound : Sound s → Goes → Sound (goes tid w x s)
  goes-Sound v g = record {
    once = g.once;
    apart = λ a p e. elim (Bool-cases (tid == a)) [
      | inl h ↦ g.own_apart p (rw h at e)
      | inr h ↦ g.fewer p (v.apart a p (rw h at e))
    ];
    alone = λ a b p e f. elim (Bool-cases (tid == a)) [
      | inl h ↦ elim (Bool-cases (tid == b)) [
        | inl k ↦ ground (arith, h, k)
        | inr k ↦ absurd (g.own_alone p b (rw h at e) (λ z. ground (arith, z, k)) (rw k at f))
      ]
      | inr h ↦ elim (Bool-cases (tid == b)) [
        | inl k ↦ absurd (g.own_alone p a (rw k at f) (λ z. ground (arith, z, h)) (rw h at e))
        | inr k ↦ v.alone a b p (rw h at e) (rw k at f)
      ]
    ];
    calm = λ a. elim (Bool-cases (tid == a)) [
      | inl h ↦ rw h g.own_calm
      | inr h ↦ rw h (
          IsCalm-same s.world.state w.state (s.place a)
            (λ q e. g.others q a (λ z. ground (arith, z, h)) e) (v.calm a))
    ];
  }

-- The thread keeps its fiber or drops it, and writes to no other's state.
pub stays-Sound :
    (s : Threads) (tid : ℕ) (w : World) (x : Place) (p : ℕ)
    → Sound s
    → fiber_at (s.place tid) ≡ some p
    → w.sched.tasks ≡ s.world.sched.tasks
    → ((q : ℕ) → fiber_at x ≡ some q → p ≡ q)
    → ((q : ℕ) → (p == q) ≡ false → w.state q ≡ s.world.state q)
    → IsCalm w.state x
    → Sound (goes tid w x s)
stays-Sound s tid w x p v has same keeps elsewhere c = goes-Sound s tid w x v record {
  once = subst NoTwice (sym same) v.once;
  fewer = λ q n. rw same n;
  own_apart = λ q e. rw (same, sym (keeps q e)) (v.apart tid p has);
  own_alone = λ q other e n f. n (v.alone tid other p has (f ∙ ap some (sym (keeps q e))));
  others = λ q other n f. elsewhere q (elim (Bool-cases (p == q)) [
    | inl h ↦ absurd (n (v.alone tid other p has (f ∙ ap some (sym ((==_iff p q).0 h)))))
    | inr h ↦ h
  ]);
  own_calm = c;
}

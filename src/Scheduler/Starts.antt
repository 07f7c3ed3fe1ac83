-- ===== src/Scheduler/Starts.antt =====
-- Tasks that a scheduling thread can run one after the other, and the fibers that run them.
use learn_server_concise.Base.{
  ℕ, ◌+◌, ◌<◌, ◌≤◌, ◌≡◌, ◌≢◌, refl, ◌∙◌, Bool, true, false, ◌||◌, List, [], ◌∷◌, none, some, ◌==◌,
  arith, Option-cases, inl, inr,
}
use learn_server_concise.Fiber.{State, can_run, is_some}
use learn_server_concise.Scheduler.{Task, is_foreign}

-- The fiber that runs a task: its own, or for a function the next new one.
abbrev pub fiber_of : ℕ → Task → ℕ
fiber_of new t = elim t.callback [ some c ↦ new | none ↦ elim t.fiber [ none ↦ new | some p ↦ p ] ]

-- A fiber that is named by one of the tasks.
abbrev pub is_named : ℕ → List Task → Bool
is_named p [] = false
is_named p (t ∷ ts) = (elim t.fiber [ none ↦ false | some q ↦ q == p ]) || is_named p ts

-- The fiber of a task may run, is not that of a later task, and is older than `new`; a function
-- comes without a fiber.
abbrev pub CanStart : (ℕ → State) → ℕ → List Task → Task → Type 0
CanStart state new ts t = elim t.fiber [
  | none ↦ is_some t.callback ≡ true
  | some p ↦ (t.callback ≡ none) × (can_run (state p) ≡ true) × (is_named p ts ≡ false) × (p < new)
]

-- Tasks that the thread `tid` can run.
abbrev pub AllCanStart : (ℕ → State) → ℕ → ℕ → List Task → Type 0
AllCanStart state new tid [] = Unit
AllCanStart state new tid (t ∷ ts) =
    (is_foreign tid t ≡ false) × CanStart state new ts t × AllCanStart state new tid ts

-- A fiber as old as the next new one is named by no task.
new-not_named :
    (state : ℕ → State) (new tid : ℕ) (ts : List Task)
    → AllCanStart state new tid ts
    → is_named new ts ≡ false
new-not_named state new tid [] a = refl
new-not_named state new tid (t ∷ ts) a = elim (Option-cases t.fiber) [
  | inl h ↦ rw h (new-not_named state new tid ts a.2)
  | inr (p, h) ↦
      let young : p < new = (rw (h, CanStart) at a.1).3 in
      let other : (p == new) ≡ false = ground arith in
      rw (h, other) (new-not_named state new tid ts a.2)
]

-- Running a fiber that is named by none of the tasks leaves them all able to start.
pub others-AllCanStart :
    (state state' : ℕ → State) (x new later tid : ℕ) (ts : List Task)
    → new ≤ later
    → ((q : ℕ) → (x == q) ≡ false → state' q ≡ state q)
    → is_named x ts ≡ false
    → AllCanStart state new tid ts
    → AllCanStart state' later tid ts
others-AllCanStart state state' x new later tid [] l same n a = tt
others-AllCanStart state state' x new later tid (t ∷ ts) l same n a = elim (Option-cases t.fiber) [
  | inl h ↦ (
    a.0,
    rw (h, CanStart) (rw (h, CanStart) at a.1),
    others-AllCanStart state state' x new later tid ts l same (rw h at n) a.2,
  )
  | inr (p, h) ↦
      let unnamed : (p == x || is_named x ts) ≡ false = rw h at n in
      let apart : (x == p) ≡ false = ground arith in
      let start : (t.callback ≡ none)
          × (can_run (state p) ≡ true)
          × (is_named p ts ≡ false)
          × (p < new) =
        rw (h, CanStart) at a.1 in
      (
        a.0,
        rw (h, CanStart) (start.0, rw (same p apart) start.1, start.2, omega (arith, l, start.3)),
        others-AllCanStart state state' x new later tid ts l same (ground (arith, unnamed)) a.2,
      )
]

module _ (idle_fiber tid : ℕ) where
  -- The fiber that runs a task is not the idle one nor a later task's; it is the task's own, or new.
  pub record Started (new : ℕ) (t : Task) (ts : List Task) : Type 0 where
    pub not_idle : fiber_of new t ≢ idle_fiber
    pub not_later : is_named (fiber_of new t) ts ≡ false
    pub young : fiber_of new t < new + 1
    pub own : (q : ℕ) → is_named q (t ∷ ts) ≡ false → q < new → (fiber_of new t == q) ≡ false
    pub named : (q : ℕ) → is_named q (t ∷ ts) ≡ true → is_named q ts ≡ false → fiber_of new t ≡ q

  pub start-Started :
      (state : ℕ → State) (new : ℕ) (t : Task) (ts : List Task)
      → CanStart state new ts t
      → AllCanStart state new tid ts
      → is_named idle_fiber (t ∷ ts) ≡ false
      → idle_fiber < new
      → Started new t ts
  start-Started state new t ts s a n i = elim (Option-cases t.fiber) [
    | inl h ↦ record {
      not_idle = λ e. let new_eq : fiber_of new t ≡ new = by_callback h in omega (arith, e, new_eq);
      not_later = rw (by_callback h) (new-not_named state new tid ts a);
      young = let new_eq : fiber_of new t ≡ new = by_callback h in omega (arith, new_eq);
      own = λ q m l. rw (by_callback h) (ground arith);
      named = λ q m l. absurd (ground (arith, l, rw h at m));
    }
    | inr (p, h) ↦
        (let start : (t.callback ≡ none)
              × (can_run (state p) ≡ true)
              × (is_named p ts ≡ false)
              × (p < new) =
            rw (h, CanStart) at s in
          let own_eq : fiber_of new t ≡ p = rw (h, start.0) refl in
          let apart : (p == idle_fiber || is_named idle_fiber ts) ≡ false = rw h at n in
          record {
            not_idle = λ e. ground (arith, own_eq, apart, e);
            not_later = rw own_eq start.2;
            young = omega (arith, own_eq, start.3);
            own = λ q m l.
                let m' : (p == q || is_named q ts) ≡ false = rw h at m in
                rw own_eq (ground (arith, m'));
            named = λ q m l.
                let m' : (p == q || is_named q ts) ≡ true = rw h at m in
                own_eq ∙ ground (arith, m', l);
          })
  ]
    where
      by_callback : t.fiber ≡ none → fiber_of new t ≡ new
      by_callback h = elim (Option-cases t.callback) [
        | inl k ↦ rw (h, k) refl
        | inr (c, k) ↦ rw (h, k) refl
      ]

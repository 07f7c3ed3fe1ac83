-- ===== src/Scheduler/Taken.antt =====
-- What the search of Scheduler::run takes, for fibers that are named once.
use learn_server_concise.Base.{
  ℕ, ◌≡◌, refl, sym, ap, ◌∙◌, Bool, true, false, ◌||◌, List, [], ◌∷◌, none, some, ◌==◌, ==_iff,
  if◌then◌else◌, Outcome, ok, stop, Bool-cases, Option-cases, inl, inr, arith,
}
use mathlib.Core.Path.{subst}
use learn_server_concise.Fiber.{State, is_exec}
use learn_server_concise.Scheduler.{Task, has_work, Found, skip, scan, is_foreign}
use learn_server_concise.Scheduler.Starts.{is_named}

-- No fiber is named by two tasks.
unfoldable pub NoTwice : List Task → Type 0
NoTwice [] = Unit
NoTwice (t ∷ ts) = ((p : ℕ) → t.fiber ≡ some p → is_named p ts ≡ false) × NoTwice ts

pub record Took (state : ℕ → State) (ts : List Task) (found : Found) (t : Task) : Type 0 where
  pub calm : (p : ℕ) → t.fiber ≡ some p → is_exec (state p) ≡ false
  pub fewer : (q : ℕ) → is_named q ts ≡ false → is_named q found.rest ≡ false
  pub was : (p : ℕ) → t.fiber ≡ some p → is_named p ts ≡ true
  pub once : NoTwice ts → NoTwice found.rest
  pub gone : NoTwice ts → (p : ℕ) → t.fiber ≡ some p → is_named p found.rest ≡ false

skip_ok :
    (t : Task) (b : Bool) (later : Outcome Found) (found : Found)
    → skip t b later ≡ ok found
    → (r : Found) × (later ≡ ok r)
      × (found ≡ record { task = r.task; rest = t ∷ r.rest; tickle_me = b || r.tickle_me })
skip_ok t b (ok r) found e = (r, refl, cc)
skip_ok t b (stop f) found e = absurd (cc)

-- The name of a task is none of the others'.
head_apart :
    (head t : Task) (p : ℕ) (ts : List Task)
    → ((q : ℕ) → head.fiber ≡ some q → is_named q ts ≡ false)
    → is_named p ts ≡ true
    → is_named p (head ∷ []) ≡ false
head_apart head t p ts n h = elim (Option-cases head.fiber) [
  | inl e ↦ rw e refl
  | inr (q, e) ↦ elim (Bool-cases (q == p)) [
    | inr k ↦ rw (e, k) refl
    | inl k ↦
        let clear : is_named p ts ≡ false = n p (e ∙ ap some ((==_iff q p).0 k)) in absurd (cc)
  ]
]

Took-skip :
    (state : ℕ → State) (head : Task) (ts : List Task) (r : Found) (b : Bool) (t : Task)
    → Took state ts r t
    → Took state (head ∷ ts) (record { task = r.task; rest = head ∷ r.rest; tickle_me = b }) t
unfolding NoTwice
Took-skip state head ts r b t k = record {
  calm = k.calm;
  fewer = λ q n. ground (arith, k.fewer q, n);
  was = λ p e. ground (arith, k.was p e);
  once = λ n. ((λ p e. k.fewer p (n.0 p e)), k.once n.1);
  gone = λ n p e. ground (arith, head_apart head t p ts n.0 (k.was p e), k.gone n.1 p e);
}

pub scan-Took :
    (state : ℕ → State) (tid : ℕ) (ts : List Task) (found : Found) (t : Task)
    → scan state tid ts ≡ ok found
    → found.task ≡ some t
    → Took state ts found t
unfolding scan NoTwice
scan-Took state tid [] found t e f = absurd (cc)
scan-Took state tid (head ∷ ts) found t e f = elim (Bool-cases (is_foreign tid head)) [
  | inl h ↦ skipped (λ r e f. scan-Took state tid ts r t e f) true (rw h at e)
  | inr h ↦ elim (Bool-cases (has_work head)) [
    | inr k ↦ absurd (ground (arith, rw (h, k) at e))
    | inl k ↦ searched (λ r e f. scan-Took state tid ts r t e f) h k
  ]
]
  where
    skipped :
        ((r : Found) → scan state tid ts ≡ ok r → r.task ≡ some t → Took state ts r t)
        → (b : Bool) → skip head b (scan state tid ts) ≡ ok found
        → Took state (head ∷ ts) found t
    skipped ih b e =
        let r = skip_ok head b (scan state tid ts) found e in
        subst (λ x. Took state (head ∷ ts) x t) (sym r.2)
          (Took-skip state head ts r.0 (b || r.0.tickle_me) t
            (ih r.0 r.1 (sym (ap (λ x. x.task) r.2) ∙ f)))

    first : Found
    first = record { task = some head; rest = ts; tickle_me = false }

    taken :
        ((p : ℕ) → head.fiber ≡ some p → is_exec (state p) ≡ false)
        → Outcome.ok first ≡ ok found
        → Took state (head ∷ ts) found t
    taken calm e =
        let same : first ≡ found = cc in
        let own : head ≡ t = cc in
        subst (λ x. Took state (head ∷ ts) x t) same
          (subst (Took state (head ∷ ts) first) own record {
            calm = calm;
            fewer = λ q n. ground (arith, n);
            was = λ p e. let self : (p == p) ≡ true = ground arith in rw (e, self) refl;
            once = λ n. n.1;
            gone = λ n p e. n.0 p e;
          })

    searched :
        ((r : Found) → scan state tid ts ≡ ok r → r.task ≡ some t → Took state ts r t)
        → is_foreign tid head ≡ false
        → has_work head ≡ true
        → Took state (head ∷ ts) found t
    searched ih h k =
        by_state (elim head.fiber [ none ↦ false | some p ↦ is_exec (state p) ]) refl
          (rw (h, k) at e)
      where
        by_state :
            (b : Bool)
            → (elim head.fiber [ none ↦ false | some p ↦ is_exec (state p) ]) ≡ b
            → (if b then skip head false (scan state tid ts) else ok first) ≡ ok found
            → Took state (head ∷ ts) found t
        by_state true x e = skipped ih false e
        by_state false x e = taken (λ p g. rw g at x) e

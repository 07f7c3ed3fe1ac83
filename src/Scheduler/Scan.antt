-- ===== src/Scheduler/Scan.antt =====
-- Which task the search of Scheduler::run takes.
use learn_server_concise.Base.{
  ℕ, ◌≡◌, refl, ap, Bool, true, false, not, ◌&&◌, ◌||◌, List, [], ◌∷◌, ◌++◌, none, some, All, arith,
  Bool-cases, inl, inr, Returns, Outcome, ok, stop,
}
use learn_server_concise.Fiber.{State}
use learn_server_concise.Scheduler.{Task, is_foreign, is_executing, Found, skip, scan}
use learn_server_concise.Scheduler.Tasks.{HasWork}

-- A task that the thread `tid` may take.
abbrev pub is_takeable : (ℕ → State) → ℕ → Task → Bool
is_takeable state tid t = not (is_foreign tid t) && not (is_executing state t)

abbrev pub any_foreign : ℕ → List Task → Bool
any_foreign tid [] = false
any_foreign tid (t ∷ ts) = is_foreign tid t || any_foreign tid ts

-- The result of the search: nothing, or the first task that may be taken, out of the list.
pub data Scans (state : ℕ → State) (tid : ℕ) (ts : List Task) (r : Found) : Type 0 where
  none_takeable :
      All (λ t. is_takeable state tid t ≡ false) ts
      → r.task ≡ none
      → r.rest ≡ ts
      → r.tickle_me ≡ any_foreign tid ts
      → Scans state tid ts r
  first_takeable :
      (pre : List Task) (t : Task) (post : List Task)
      → ts ≡ pre ++ t ∷ post
      → All (λ u. is_takeable state tid u ≡ false) pre
      → is_takeable state tid t ≡ true
      → r.task ≡ some t
      → r.rest ≡ pre ++ post
      → r.tickle_me ≡ any_foreign tid pre
      → Scans state tid ts r

skip-Scans :
    (state : ℕ → State) (tid : ℕ) (t : Task) (ts : List Task) (r : Outcome Found)
    → is_takeable state tid t ≡ false
    → Returns (Scans state tid ts) r
    → Returns (Scans state tid (t ∷ ts)) (skip t (is_foreign tid t) r)
skip-Scans state tid t ts (ok r) h (none_takeable a e l k) =
    none_takeable (h, a) e (ap (◌∷◌ t) l) (ap (◌||◌ (is_foreign tid t)) k)
skip-Scans state tid t ts (ok r) h (first_takeable pre u post s a b e l k) =
    first_takeable (t ∷ pre) u post (ap (◌∷◌ t) s) (h, a) b e (ap (◌∷◌ t) l)
      (ap (◌||◌ (is_foreign tid t)) k)
skip-Scans state tid t ts (stop e) h s = absurd s

-- On a list of tasks that all have something to run, the search returns; it takes the first task
-- that is not bound to another thread and whose fiber is not executing, leaves the others in their
-- order, and asks for a `tickle` exactly if it passed a task of another thread.
pub scan-Scans :
    (state : ℕ → State) (tid : ℕ) (ts : List Task)
    → HasWork ts
    → Returns (Scans state tid ts) (scan state tid ts)
unfolding scan
scan-Scans state tid [] w = none_takeable tt refl refl refl
scan-Scans state tid (t ∷ ts) w = elim (Bool-cases (is_foreign tid t)) [
  | inl f ↦ rw f (passed (scan-Scans state tid ts w.1) true f (ground arith))
  | inr f ↦
      rw (f, w.0)
        (elim (Bool-cases (is_executing state t)) [
          | inl x ↦ rw x (passed (scan-Scans state tid ts w.1) false f (ground arith))
          | inr x ↦ rw x (first_takeable [] t ts refl tt (ground arith) refl refl refl)
        ])
]
  where
    passed :
        Returns (Scans state tid ts) (scan state tid ts)
        → (f : Bool) → is_foreign tid t ≡ f
        → is_takeable state tid t ≡ false
        → Returns (Scans state tid (t ∷ ts)) (skip t f (scan state tid ts))
    passed ih f e h = rw e at (skip-Scans state tid t ts (scan state tid ts) h ih)

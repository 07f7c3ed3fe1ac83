-- ===== src/Timer/Firing.antt =====
-- What the loop over the expired timers leaves in the timer objects, the queue and the list.
use mathlib.Core.List.{append-nil, append_assoc}
use learn_server_concise.Base.{
  ℕ, ◌+◌, ◌≡◌, refl, false, ◌||◌, ◌&&◌, List, [], ◌∷◌, ◌++◌, ◌==◌, if◌then◌else◌, contains, map,
  arith, Option, none, Bool-cases, inl, inr, ◌∙◌, sym,
}
use learn_server_concise.OrderedSet.Laws.{contains-insert}
use learn_server_concise.Timer.{Timer, TimerManager, comparator, fire, fire_all, u64}
use learn_server_concise.Timer.Order.{comparator-IsOrder}
use learn_server_concise.Timer.Invariant.{Distinct, Pending, IsValid}
use learn_server_concise.Timer.Methods.{fire-Pending}

-- A timer object after it fired.
abbrev pub fired : ℕ → Timer → Timer
fired now t = if t.cyclic then record t { next = u64 (now + t.ms) } else record t { fn = none }

module _ (now : ℕ) where
  fire_heap :
      (p q : ℕ) (m : TimerManager)
      → (fire now p m).heap q ≡ (if p == q then fired now (m.heap q) else m.heap q)
  unfolding fire
  fire_heap p q m = ground arith

  fire_queue :
      (p q : ℕ) (m : TimerManager)
      → contains q (fire now p m).timers ≡ ((m.heap p).cyclic && p == q || contains q m.timers)
  unfolding fire
  fire_queue p q m = elim (Bool-cases (m.heap p).cyclic) [
    | inl e ↦ rw e (contains-insert (comparator _) (comparator-IsOrder _) p q m.timers)
    | inr e ↦ rw e
  ]

  fire_time : (p : ℕ) (m : TimerManager) → (fire now p m).previous_time ≡ m.previous_time
  unfolding fire
  fire_time p m = ground arith

  fire_callbacks :
      (p : ℕ) (ps : List ℕ) (m : TimerManager)
      → contains p ps ≡ false
      → map (λ q. ((fire now p m).heap q).fn) ps ≡ map (λ q. (m.heap q).fn) ps
  fire_callbacks p [] m c = refl
  fire_callbacks p (q ∷ ps) m c = ground (arith, fire_heap p q m, fire_callbacks p ps m)

  pub fire_all_heap :
      (ps : List ℕ) (m : TimerManager) (fns : List (Option ℕ)) (q : ℕ)
      → Distinct ps
      → (fire_all now ps m fns).0.heap q
        ≡ (if contains q ps then fired now (m.heap q) else m.heap q)
  unfolding fire_all
  fire_all_heap [] m fns q d = refl
  fire_all_heap (p ∷ ps) m fns q d =
      ground
        (arith, fire_all_heap ps (fire now p m) (fns ++ (m.heap p).fn ∷ []) q d.1, fire_heap p q m)

  pub fire_all_queue :
      (ps : List ℕ) (m : TimerManager) (fns : List (Option ℕ)) (q : ℕ)
      → Distinct ps
      → contains q (fire_all now ps m fns).0.timers
        ≡ (contains q ps && (m.heap q).cyclic || contains q m.timers)
  unfolding fire_all
  fire_all_queue [] m fns q d = refl
  fire_all_queue (p ∷ ps) m fns q d = ground (
    arith,
    fire_all_queue ps (fire now p m) (fns ++ (m.heap p).fn ∷ []) q d.1,
    fire_heap p q m,
    fire_queue p q m,
  )

  pub fire_all_callbacks :
      (ps : List ℕ) (m : TimerManager) (fns : List (Option ℕ))
      → Distinct ps
      → (fire_all now ps m fns).1 ≡ fns ++ map (λ q. (m.heap q).fn) ps
  unfolding fire_all
  fire_all_callbacks [] m fns d = sym (append-nil fns)
  fire_all_callbacks (p ∷ ps) m fns d =
      fire_all_callbacks ps (fire now p m) (fns ++ (m.heap p).fn ∷ []) d.1
      ∙ rw (fire_callbacks p ps m d.0) (append_assoc fns _ _)

  pub fire_all_time :
      (ps : List ℕ) (m : TimerManager) (fns : List (Option ℕ))
      → (fire_all now ps m fns).0.previous_time ≡ m.previous_time
  unfolding fire_all
  fire_all_time [] m fns = refl
  fire_all_time (p ∷ ps) m fns = fire_all_time ps (fire now p m) _ ∙ fire_time p m

  pub fire_all-Pending :
      (ps : List ℕ) (m : TimerManager) (fns : List (Option ℕ))
      → Pending ps m
      → IsValid (fire_all now ps m fns).0
  unfolding fire_all
  fire_all-Pending [] m fns v = v
  fire_all-Pending (p ∷ ps) m fns v =
      fire_all-Pending ps (fire now p m) _ (fire-Pending now p ps m v)

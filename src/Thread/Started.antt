-- ===== src/Thread/Started.antt =====
-- Starting a thread: what holds at every moment, and that it comes to an end.
use learn_server_concise.Base.{
  ℕ, suc, ◌+◌, ◌<◌, ◌≤◌, ◌≡◌, ◌≢◌, refl, Bool, Bool-cases, true, false, List, some, ◌⊎◌, inl, inr,
  arith,
}
use learn_server_concise.Thread.Start.{
  Creator, creating, waiting, checking, constructed, threw, interrupted, failed, Created, absent,
  begun, id_written, notified, in_callback, returned, aborted, terminated, is_gone, StartState,
  named, Step, creates, fails, passes, wait_throws, notify_throws, holds, breaks, writes_id,
  notifies, sets_names, returns, throws, Reachable, at_start, then_step,
}

-- The new thread has still to write m_id, to notify.
abbrev has_written : Created → Bool
has_written absent = false
has_written begun = false
has_written _ = true

abbrev pub has_notified : Created → Bool
has_notified absent = false
has_notified begun = false
has_notified id_written = false
has_notified terminated = false
has_notified _ = true

abbrev pub has_names : Created → Bool
has_names in_callback = true
has_names returned = true
has_names aborted = true
has_names _ = false

-- The constructor has gone past the wait.
abbrev pub has_passed : Creator → Bool
has_passed checking = true
has_passed constructed = true
has_passed failed = true
has_passed _ = false

-- The constructor is before pthread_create, or that failed.
abbrev no_thread : Creator → Bool
no_thread creating = true
no_thread threw = true
no_thread _ = false

-- What the semaphore is at.
abbrev left_over : Bool → Bool → ℕ
left_over true false = 1
left_over _ _ = 0

module _ (tid : ℕ) (name : List ℕ) where
  abbrev pub Sound : StartState → Type 0
  Sound s =
      (no_thread s.creator ≡ true → s.child ≡ absent)
      × (has_written s.child ≡ true → s.id ≡ some tid)
      × (s.count ≡ left_over (has_notified s.child) (has_passed s.creator))
      × (has_passed s.creator ≡ true → has_notified s.child ≡ true)
      × (has_names s.child ≡ true → s.locals ≡ named tid name)
      × (s.creator ≢ failed)
      × (no_thread s.creator ≡ false → s.child ≢ absent)

  step-Sound : (s s' : StartState) → 0 < tid → Step tid name s s' → Sound s → Sound s'
  step-Sound s s' h (creates e) v = ground arith
  step-Sound s s' h (fails e) v = ground arith
  step-Sound s s' h (passes n e a c) v = ground arith
  step-Sound s s' h (holds e a p) v = ground arith
  step-Sound s s' h (breaks e a p) v = ground arith
  step-Sound s s' h (wait_throws e a) v = ground arith
  step-Sound s s' h (writes_id e g) v = ground arith
  step-Sound s s' h (notifies e g) v = ground arith
  step-Sound s s' h (notify_throws e g) v = ground arith
  step-Sound s s' h (sets_names e) v = ground arith
  step-Sound s s' h (returns e) v = ground arith
  step-Sound s s' h (throws e) v = ground arith

  reachable-Sound : (s : StartState) → 0 < tid → Reachable tid name s → Sound s
  reachable-Sound s h at_start = ground arith
  reachable-Sound s h (then_step r x) = step-Sound _ s h x (reachable-Sound _ h r)

  -- A bound on the steps that are left.
  creator_left : Creator → ℕ
  creator_left creating = 9
  creator_left waiting = 2
  creator_left checking = 1
  creator_left _ = 0

  child_left : Created → ℕ
  child_left begun = 5
  child_left id_written = 4
  child_left notified = 3
  child_left in_callback = 2
  child_left _ = 0

  steps_left : StartState → ℕ
  unfolding creator_left child_left
  steps_left s = creator_left s.creator + child_left s.child

  pub steps : {s : StartState} → Reachable tid name s → ℕ
  steps at_start = 0
  steps (then_step r x) = suc (steps r)

  step-steps_left : (s s' : StartState) → Step tid name s s' → steps_left s' < steps_left s
  unfolding steps_left creator_left child_left
  step-steps_left s s' (creates e) = ground arith
  step-steps_left s s' (fails e) = ground arith
  step-steps_left s s' (passes n e a c) = ground arith
  step-steps_left s s' (holds e a p) = ground arith
  step-steps_left s s' (breaks e a p) = ground arith
  step-steps_left s s' (wait_throws e a) = ground arith
  step-steps_left s s' (writes_id e g) = ground arith
  step-steps_left s s' (notifies e g) = ground arith
  step-steps_left s s' (notify_throws e g) = ground arith
  step-steps_left s s' (sets_names e) = ground arith
  step-steps_left s s' (returns e) = ground arith
  step-steps_left s s' (throws e) = ground arith

  steps-bounded : {s : StartState} (r : Reachable tid name s) → steps r + steps_left s ≤ 9
  unfolding steps steps_left creator_left child_left
  steps-bounded at_start = omega arith
  steps-bounded (then_step r x) = omega (arith, steps-bounded r, step-steps_left _ _ x)

  -- Nothing is left to do: the constructor returned or threw, or the process was aborted.
  abbrev pub IsOver : StartState → Type 0
  IsOver s =
      ((s.creator ≡ constructed) × (s.child ≡ returned) × (s.id ≡ some tid))
      ⊎ (s.creator ≡ threw)
      ⊎ (s.child ≡ aborted)
      ⊎ (s.creator ≡ interrupted)
      ⊎ (s.child ≡ terminated)

  gone : (k : Creator) → is_gone k ≡ true → k ≡ interrupted
  gone k g = ground arith

  next_or_IsOver :
      (s : StartState) → 0 < tid → Sound s → IsOver s ⊎ ((s' : StartState) × Step tid name s s')
  next_or_IsOver s h v = by_child s.child refl s.creator refl
    where
      by_creator :
          (k : Creator)
          → s.creator ≡ k
          → s.child ≡ returned
          → IsOver s ⊎ ((s' : StartState) × Step tid name s s')
      by_creator creating k c = inr (_, creates k)
      by_creator waiting k c = inr (_, passes 0 k (rw c refl) (ground arith))
      by_creator checking k c = inr (_, holds k (rw c refl) (ground arith))
      by_creator constructed k c = inl (inl (k, c, v.1 (ground arith)))
      by_creator threw k c = inl (inr (inl k))
      by_creator interrupted k c = inl (inr (inr (inr (inl k))))
      by_creator failed k c = absurd (v.5 k)

      by_child :
          (c : Created)
          → s.child ≡ c
          → (k : Creator) → s.creator ≡ k
          → IsOver s ⊎ ((s' : StartState) × Step tid name s s')
      by_child absent c creating k = inr (_, creates k)
      by_child absent c threw k = inl (inr (inl k))
      by_child absent c waiting k = absurd (v.6 (ground arith) c)
      by_child absent c checking k = absurd (v.6 (ground arith) c)
      by_child absent c constructed k = absurd (v.6 (ground arith) c)
      by_child absent c interrupted k = absurd (v.6 (ground arith) c)
      by_child absent c failed k = absurd (v.5 k)
      by_child begun c _ k = elim (Bool-cases (is_gone s.creator)) [
        | inl g ↦ inl (inr (inr (inr (inl (gone s.creator g)))))
        | inr g ↦ inr (_, writes_id c g)
      ]
      by_child id_written c _ k = elim (Bool-cases (is_gone s.creator)) [
        | inl g ↦ inl (inr (inr (inr (inl (gone s.creator g)))))
        | inr g ↦ inr (_, notifies c g)
      ]
      by_child notified c _ k = inr (_, sets_names c)
      by_child in_callback c _ k = inr (_, returns c)
      by_child returned c _ k = by_creator s.creator refl c
      by_child aborted c _ k = inl (inr (inr (inl c)))
      by_child terminated c _ k = inl (inr (inr (inr (inr c))))

-- However the two threads are interleaved, the assertion in the constructor never fails; behind the
-- wait the new thread has written m_id and does not use the object's members any more, so that the
-- object may be destroyed; and while the callback runs, GetThisId agrees with getId.
pub start-IsSafe :
    (tid : ℕ) (name : List ℕ) (s : StartState)
    → 0 < tid
    → Reachable tid name s
    → (s.creator ≢ failed)
      × (has_passed s.creator ≡ true → (s.id ≡ some tid) × (has_notified s.child ≡ true))
      × (has_names s.child ≡ true → s.id ≡ some s.locals.tid)
start-IsSafe tid name s h r =
    let v = reachable-Sound tid name s h r in
    (v.5, (λ k. (ground (arith, v), v.3 k)), (λ k. ground (arith, v)))

-- Starting a thread comes to an end: no order of the two threads has more than nine steps, and in
-- every state that is reached there is a next step, unless the constructor and the callback have both
-- returned and getId is the id of the new thread, or pthread_create or sem_wait failed and the
-- constructor threw, or the callback threw, or sem_post failed, and the process was aborted.
pub start-Ends :
    (tid : ℕ) (name : List ℕ) (s : StartState)
    → 0 < tid
    → (r : Reachable tid name s)
    → (steps tid name r ≤ 9) × (IsOver tid name s ⊎ ((s' : StartState) × Step tid name s s'))
start-Ends tid name s h r =
    let bound = steps-bounded tid name r in
    (omega (arith, bound), next_or_IsOver tid name s h (reachable-Sound tid name s h r))

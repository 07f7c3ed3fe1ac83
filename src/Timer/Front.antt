-- ===== src/Timer/Front.antt =====
-- When addTimer calls onTimerInsertedAtFirst.
use learn_server_concise.Base.{
  ℕ, ◌+◌, ◌<◌, ◌≤◌, ◌≡◌, ◌≢◌, Bool, true, false, List, [], ◌∷◌, All, contains, arith, Option,
}
use learn_server_concise.OrderedSet.{IsSorted, insert}
use learn_server_concise.Timer.{
  Timer, TimerManager, comparator, update, u64, add_timer, new_timer, insert_timer, at_front,
}
use learn_server_concise.Timer.Order.{All-next-le, IsSorted-update, next-le}
use learn_server_concise.Timer.Invariant.{IsValid}

-- An earlier due time comes first.
comparator_of_lt :
    (heap : ℕ → Timer) (p q : ℕ)
    → p ≢ 0
    → q ≢ 0
    → (heap p).next < (heap q).next
    → comparator heap p q ≡ true
unfolding comparator
comparator_of_lt heap p q n k h = ground arith

All-le_trans :
    (heap : ℕ → Timer) (p q : ℕ) (qs : List ℕ)
    → (heap p).next ≤ (heap q).next
    → All (λ x. (heap q).next ≤ (heap x).next) qs
    → All (λ x. (heap p).next ≤ (heap x).next) qs
All-le_trans heap p q [] h a = tt
All-le_trans heap p q (x ∷ xs) h a = (omega arith, All-le_trans heap p q xs h a.1)

front-Above :
    (heap : ℕ → Timer) (p : ℕ) (ps : List ℕ)
    → p ≢ 0
    → contains p ps ≡ false
    → IsSorted (comparator heap) ps
    → contains 0 ps ≡ false
    → (at_front p (insert (comparator heap) p ps) ≡ true
        → All (λ q. (heap p).next ≤ (heap q).next) ps)
      × (All (λ q. (heap p).next < (heap q).next) ps
          → at_front p (insert (comparator heap) p ps) ≡ true)
unfolding at_front insert
front-Above heap p [] n c s z = (λ h. tt, λ h. ground arith)
front-Above heap p (q ∷ qs) n c s z = (
  λ h.
      let first = precedes h in
      (
        next-le heap p q n first,
        All-le_trans heap p q qs (next-le heap p q n first)
            (All-next-le heap q qs (ground arith) s.0),
      ),
  λ a. rw (comparator_of_lt heap p q n (ground arith) a.0) (ground arith),
)
  where
    precedes : at_front p (insert (comparator heap) p (q ∷ qs)) ≡ true → comparator heap p q ≡ true
    precedes h = ground arith

All-le-update :
    (heap : ℕ → Timer) (p : ℕ) (t : Timer) (qs : List ℕ)
    → contains p qs ≡ false
    → All (λ q. t.next ≤ (update heap p t q).next) qs
    → All (λ q. t.next ≤ (heap q).next) qs
All-le-update heap p t [] c a = tt
All-le-update heap p t (q ∷ qs) c a = ground (arith, All-le-update heap p t qs)

All-lt-update :
    (heap : ℕ → Timer) (p : ℕ) (t : Timer) (qs : List ℕ)
    → contains p qs ≡ false
    → All (λ q. t.next < (heap q).next) qs
    → All (λ q. t.next < (update heap p t q).next) qs
All-lt-update heap p t [] c a = tt
All-lt-update heap p t (q ∷ qs) c a = ground (arith, All-lt-update heap p t qs)

-- `addTimer` calls onTimerInsertedAtFirst only if the new timer is due no later than any queued
-- one, and always if it is due before all of them.
pub add_timer-front :
    (p ms : ℕ) (fn : Option ℕ) (cyclic : Bool) (now : ℕ) (m : TimerManager)
    → IsValid m
    → p ≢ 0
    → contains p m.timers ≡ false
    → ((add_timer p ms fn cyclic now m).1 ≡ true
        → All (λ q. u64 (now + ms) ≤ (m.heap q).next) m.timers)
      × (All (λ q. u64 (now + ms) < (m.heap q).next) m.timers
          → (add_timer p ms fn cyclic now m).1 ≡ true)
unfolding add_timer insert_timer
add_timer-front p ms fn cyclic now m v n c = (
  λ h. All-le-update m.heap p t m.timers c (rw here at (both.0 h)),
  λ a. both.1 (rw here (All-lt-update m.heap p t m.timers c a)),
)
  where
    t : Timer
    t = new_timer ms fn cyclic now

    here : update m.heap p t p ≡ t
    here = ground arith

    both :
        (at_front p (insert (comparator (update m.heap p t)) p m.timers) ≡ true
          → All (λ q. (update m.heap p t p).next ≤ (update m.heap p t q).next) m.timers)
        × (All (λ q. (update m.heap p t p).next < (update m.heap p t q).next) m.timers
            → at_front p (insert (comparator (update m.heap p t)) p m.timers) ≡ true)
    both =
        front-Above (update m.heap p t) p m.timers n c
          (IsSorted-update m.heap p t m.timers c v.ordered) v.nonnull

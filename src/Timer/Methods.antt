-- ===== src/Timer/Methods.antt =====
-- Each method of src/timer.cc keeps the queue valid, and none erases at `end()`.
use learn_server_concise.Base.{
  ℕ, ◌≡◌, ◌≢◌, refl, Bool, true, false, ◌&&◌, not, List, [], ◌∷◌, ◌==◌, contains, arith, Option,
  none, Returns, Option-cases, Bool-cases, ◌∙◌, inl, inr, Option,
}
use learn_server_concise.OrderedSet.{IsSorted, erase, find}
use learn_server_concise.OrderedSet.Laws.{erase-IsSorted, contains-erase, find-contains}
use learn_server_concise.Timer.{
  Timer, TimerManager, comparator, update, add_timer, cancel, rearm, reset, refresh, new_timer,
  fire,
}
use learn_server_concise.Timer.Order.{comparator-IsOrder, IsSorted-update_same}
use learn_server_concise.Timer.Invariant.{
  is_set, Pending, IsValid, queue-Pending, disarm-Pending, erase-Pending, fresh-Pending,
}

-- The local timer's search and the queue's own order agree on what `find` sees.
pub find-queued :
    (m : TimerManager) (p : ℕ)
    → IsValid m
    → find (comparator m.heap) p m.timers ≡ contains p m.timers
find-queued m p v =
    find-contains (comparator m.heap) (comparator-IsOrder m.heap) p m.timers v.ordered

pub add_timer-IsValid :
    (p ms : ℕ) (fn : Option ℕ) (cyclic : Bool) (now : ℕ) (m : TimerManager)
    → IsValid m
    → p ≢ 0
    → contains p m.timers ≡ false
    → IsValid (add_timer p ms fn cyclic now m).0
unfolding add_timer
add_timer-IsValid p ms fn cyclic now m v n c =
    queue-Pending m p (new_timer ms fn cyclic now) [] (fresh-Pending m p v n c)

-- Dropping the callback first does not disturb the search for the timer.
pub disarmed-find :
    (m : TimerManager) (p : ℕ) (t : Timer)
    → IsValid m
    → t.next ≡ (m.heap p).next
    → is_set (m.heap p).fn ≡ true
    → find (comparator (update m.heap p t)) p m.timers ≡ true
disarmed-find m p t v e h =
    find-contains (comparator heap) (comparator-IsOrder heap) p m.timers
      (IsSorted-update_same m.heap p t m.timers e v.ordered)
    ∙ v.armed p h
  where
    heap : ℕ → Timer
    heap = update m.heap p t

-- A timer with no callback can leave the queue.
pub disarmed-IsValid :
    (m : TimerManager) (p : ℕ) (t : Timer)
    → IsValid m
    → t.next ≡ (m.heap p).next
    → t.fn ≡ none
    → IsValid (record m {
      heap = update m.heap p t;
      timers = erase (comparator (update m.heap p t)) p m.timers;
    })
disarmed-IsValid m p t v e f = record {
  ordered = erase-IsSorted (comparator heap) (comparator-IsOrder heap) p m.timers sorted;
  nonnull = ground (arith, left 0, v.nonnull);
  armed = λ q h. ground (arith, left q, v.armed q);
  apart = λ q h. ground arith;
  distinct = tt;
  ps_nonnull = refl;
}
  where
    heap : ℕ → Timer
    heap = update m.heap p t

    sorted : IsSorted (comparator heap) m.timers
    sorted = IsSorted-update_same m.heap p t m.timers e v.ordered

    left :
        (q : ℕ)
        → contains q (erase (comparator heap) p m.timers) ≡ (not (p == q) && contains q m.timers)
    left q = contains-erase (comparator heap) (comparator-IsOrder heap) p q m.timers sorted

-- `cancel` never erases at `end()`, and keeps the queue valid.
pub cancel-IsValid :
    (p : ℕ) (m : TimerManager) → IsValid m → Returns (λ r. IsValid r.0) (cancel p m)
unfolding cancel
cancel-IsValid p m v = elim (Option-cases (m.heap p).fn) [
  | inl e ↦ rw (e, cancel) v
  | inr (f, e) ↦
      let t : Timer = record (m.heap p) { fn = none } in
      rw (e, cancel, disarmed-find m p t v refl (rw e)) (disarmed-IsValid m p t v refl refl)
]

rearm-IsValid :
    (p ms : ℕ) (from_now : Bool) (now : ℕ) (m : TimerManager)
    → IsValid m
    → p ≢ 0
    → IsValid (rearm p ms from_now now m).0
unfolding rearm
rearm-IsValid p ms from_now now m v n =
    queue-Pending (record m { timers = erase (comparator m.heap) p m.timers }) p _ []
      (erase-Pending m p v n)

pub reset-IsValid :
    (p ms : ℕ) (from_now : Bool) (now : ℕ) (m : TimerManager)
    → IsValid m
    → p ≢ 0
    → IsValid (reset p ms from_now now m).manager
unfolding reset
reset-IsValid p ms from_now now m v n = elim (Bool-cases (ms == (m.heap p).ms && not from_now)) [
  | inl e ↦ rw e v
  | inr e ↦ rw e (elim (Option-cases (m.heap p).fn) [
    | inl f ↦ rw (f, reset) v
    | inr (g, f) ↦
        rw (f, reset)
          (elim (Bool-cases (find (comparator m.heap) p m.timers)) [
            | inl found ↦ rw found (rearm-IsValid p ms from_now now m v n)
            | inr lost ↦ rw lost v
          ])
  ])
]

pub refresh-IsValid :
    (p now : ℕ) (m : TimerManager) → IsValid m → p ≢ 0 → IsValid (refresh p now m).0
unfolding refresh
refresh-IsValid p now m v n = elim (Option-cases (m.heap p).fn) [
  | inl f ↦ rw (f, refresh) v
  | inr (g, f) ↦
      rw (f, refresh)
        (elim (Bool-cases (find (comparator m.heap) p m.timers)) [
          | inl found ↦ rw found (
              queue-Pending (record m { timers = erase (comparator m.heap) p m.timers }) p _ []
                (erase-Pending m p v n))
          | inr lost ↦ rw lost v
        ])
]

pub fire-Pending :
    (now p : ℕ) (ps : List ℕ) (m : TimerManager) → Pending (p ∷ ps) m → Pending ps (fire now p m)
unfolding fire
fire-Pending now p ps m v = elim (Bool-cases (m.heap p).cyclic) [
  | inl e ↦ rw e (queue-Pending m p _ ps v)
  | inr e ↦ rw e (disarm-Pending m p _ ps v refl)
]

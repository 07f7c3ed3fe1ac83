-- ===== src/Timer/Invariant.antt =====
-- What holds of the queue between two calls, and that each method of src/timer.cc keeps it.
use learn_server_concise.Base.{
  ℕ, ◌≡◌, ◌≢◌, refl, Bool, true, false, ◌||◌, ◌&&◌, not, List, [], ◌∷◌, ◌==◌, contains, arith,
  Option, none, some, Option,
}
use learn_server_concise.OrderedSet.{IsSorted, insert, erase}
use learn_server_concise.OrderedSet.Laws.{
  insert-IsSorted, erase-IsSorted, contains-insert, contains-erase,
}
use learn_server_concise.Timer.{Timer, TimerManager, comparator, update}
use learn_server_concise.Timer.Order.{comparator-IsOrder, IsSorted-update}

-- `if (m_fn)`
abbrev pub is_set : Option ℕ → Bool
is_set none = false
is_set (some f) = true

abbrev pub Distinct : List ℕ → Type 0
Distinct [] = Unit
Distinct (p ∷ ps) = (contains p ps ≡ false) × Distinct ps

-- The queue is in order, holds no null pointer, and holds every timer that has a callback, but for
-- the timers `ps` that were taken out and are being handled.
pub record Pending (ps : List ℕ) (m : TimerManager) : Type 0 where
  pub ordered : IsSorted (comparator m.heap) m.timers
  pub nonnull : contains 0 m.timers ≡ false
  pub armed : (p : ℕ) → is_set (m.heap p).fn ≡ true → (contains p ps || contains p m.timers) ≡ true
  pub apart : (p : ℕ) → contains p ps ≡ true → contains p m.timers ≡ false
  pub distinct : Distinct ps
  pub ps_nonnull : contains 0 ps ≡ false

abbrev pub IsValid : TimerManager → Type 0
IsValid m = Pending [] m

module _ (m : TimerManager) (p : ℕ) (t : Timer) where
  abbrev heap' : ℕ → Timer
  heap' = update m.heap p t

  -- A timer that is not queued is written and queued.
  pub queue-Pending :
      (ps : List ℕ)
      → Pending (p ∷ ps) m
      → Pending ps (record m { heap = heap'; timers = insert (comparator heap') p m.timers })
  queue-Pending ps v = record {
    ordered =
        insert-IsSorted (comparator heap') (comparator-IsOrder heap') p m.timers
          (IsSorted-update m.heap p t m.timers (v.apart p (ground arith)) v.ordered);
    nonnull = ground (arith, joined 0, v.nonnull, v.ps_nonnull);
    armed = λ q h. ground (arith, joined q, v.armed q);
    apart = λ q h. ground (arith, joined q, v.apart q, v.distinct);
    distinct = v.distinct.1;
    ps_nonnull = ground (arith, v.ps_nonnull);
  }
    where
      joined :
          (q : ℕ)
          → contains q (insert (comparator heap') p m.timers) ≡ (p == q || contains q m.timers)
      joined q = contains-insert (comparator heap') (comparator-IsOrder heap') p q m.timers

  -- A timer that is not queued loses its callback.
  pub disarm-Pending :
      (ps : List ℕ) → Pending (p ∷ ps) m → t.fn ≡ none → Pending ps (record m { heap = heap' })
  disarm-Pending ps v e = record {
    ordered = IsSorted-update m.heap p t m.timers (v.apart p (ground arith)) v.ordered;
    nonnull = v.nonnull;
    armed = λ q h. ground (arith, v.armed q);
    apart = λ q h. ground (arith, v.apart q);
    distinct = v.distinct.1;
    ps_nonnull = ground (arith, v.ps_nonnull);
  }

-- A timer taken out of the queue.
pub erase-Pending :
    (m : TimerManager) (p : ℕ)
    → IsValid m
    → p ≢ 0
    → Pending (p ∷ []) (record m { timers = erase (comparator m.heap) p m.timers })
erase-Pending m p v n = record {
  ordered = erase-IsSorted (comparator m.heap) (comparator-IsOrder m.heap) p m.timers v.ordered;
  nonnull = ground (arith, left 0, v.nonnull);
  armed = λ q h. ground (arith, left q, v.armed q);
  apart = λ q h. ground (arith, left q);
  distinct = (refl, tt);
  ps_nonnull = ground arith;
}
  where
    left :
        (q : ℕ)
        → contains q (erase (comparator m.heap) p m.timers) ≡ (not (p == q) && contains q m.timers)
    left q = contains-erase (comparator m.heap) (comparator-IsOrder m.heap) p q m.timers v.ordered

-- An address that is not queued, ready to be queued.
pub fresh-Pending :
    (m : TimerManager) (p : ℕ)
    → IsValid m
    → p ≢ 0
    → contains p m.timers ≡ false
    → Pending (p ∷ []) m
fresh-Pending m p v n c = record {
  ordered = v.ordered;
  nonnull = v.nonnull;
  armed = λ q h. ground (arith, v.armed q);
  apart = λ q h. ground arith;
  distinct = (refl, tt);
  ps_nonnull = ground arith;
}

-- ===== src/Timer/Expiry.antt =====
-- Which timers listExpiredCallback takes, and what it makes of them.
use learn_server_concise.Base.{
  ℕ, ◌<◌, ◌≤◌, ◌≡◌, ◌≢◌, refl, Bool, true, false, not, List, [], ◌∷◌, ◌++◌, All, contains, select,
  arith, ◌⊎◌, inl, inr, leb,
}
use learn_server_concise.OrderedSet.{IsSorted, before, lower_bound}
use learn_server_concise.Timer.{Timer, comparator, update, probe_timer, same_time, skip_same_time}
use learn_server_concise.Timer.Order.{All-next-le}

module _ (heap : ℕ → Timer) (now : ℕ) where
  abbrev is_due : ℕ → Bool
  is_due p = leb (heap p).next now

  abbrev is_later : ℕ → Bool
  is_later p = not (leb (heap p).next now)

  later_only :
      (ps : List ℕ)
      → All (λ p. now < (heap p).next) ps
      → (select is_due ps ≡ []) × (select is_later ps ≡ ps)
  later_only [] a = (refl, refl)
  later_only (p ∷ ps) a = ground (arith, later_only ps a.1)

  All-lt_of_le :
      (x : ℕ) (ps : List ℕ)
      → now < (heap x).next
      → All (λ p. (heap x).next ≤ (heap p).next) ps
      → All (λ p. now < (heap p).next) ps
  All-lt_of_le x [] h a = tt
  All-lt_of_le x (p ∷ ps) h a = (omega arith, All-lt_of_le x ps h a.1)

  same_time-select :
      (ps : List ℕ)
      → contains 0 ps ≡ false
      → IsSorted (comparator heap) ps
      → All (λ p. now ≤ (heap p).next) ps
      → (same_time heap now ps ≡ select is_due ps)
        × (skip_same_time heap now ps ≡ select is_later ps)
  unfolding same_time skip_same_time
  same_time-select [] n s a = (refl, refl)
  same_time-select (p ∷ ps) n s a =
      ground (arith, same_time-select ps, later_only ps, All-lt_of_le p ps, All-next-le heap p ps)

  -- All of a queue that is no earlier than `now`.
  All-le_of_le :
      (x : ℕ) (ps : List ℕ)
      → now ≤ (heap x).next
      → All (λ p. (heap x).next ≤ (heap p).next) ps
      → All (λ p. now ≤ (heap p).next) ps
  All-le_of_le x [] h a = tt
  All-le_of_le x (p ∷ ps) h a = (omega arith, All-le_of_le x ps h a.1)

-- The cut by `lower_bound` and the loop over equal times is the cut by due time, wherever the local
-- timer lies.
module _ (heap : ℕ → Timer) (now probe : ℕ) (nonnull : probe ≢ 0) where
  abbrev less : ℕ → ℕ → Bool
  less = comparator (update heap probe (probe_timer now))

  less-probe :
      (p : ℕ)
      → p ≢ 0
      → p ≢ probe
      → ((less p probe ≡ true) × ((heap p).next ≤ now))
        ⊎ ((less p probe ≡ false) × (now ≤ (heap p).next))
  unfolding comparator
  less-probe p n h = ground arith

  pub cut-select :
      (ps : List ℕ)
      → contains 0 ps ≡ false
      → contains probe ps ≡ false
      → IsSorted (comparator heap) ps
      → (before less probe ps ++ same_time heap now (lower_bound less probe ps)
          ≡ select (is_due heap now) ps)
        × (skip_same_time heap now (lower_bound less probe ps) ≡ select (is_later heap now) ps)
  unfolding before lower_bound same_time skip_same_time
  cut-select [] z c s = (refl, refl)
  cut-select (p ∷ ps) z c s = elim (less-probe p (ground arith) (ground arith)) [
    | inl (e, h) ↦ rw e (ground (arith, cut-select ps (ground arith) (ground arith) s.1))
    | inr (e, h) ↦ rw e (
        same_time-select heap now (p ∷ ps) z s
          (h, All-le_of_le heap now p ps h (All-next-le heap p ps (ground arith) s.0)))
  ]

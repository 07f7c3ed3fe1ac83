-- ===== src/Timer/Expired.antt =====
-- listExpiredCallback as a whole: which callbacks it hands out and which timers stay queued.
use learn_server_concise.Base.{
  ℕ, ◌<◌, ◌≤◌, ◌≡◌, ◌≢◌, refl, ap, Bool, true, false, ◌||◌, ◌&&◌, not, List, [], ◌∷◌, All, contains,
  select, arith, Option, ok, ◌⊎◌, Bool-cases, inl, inr, leb, ltb, ◌∙◌,
}
use learn_server_concise.OrderedSet.{IsSorted}
use learn_server_concise.OrderedSet.Laws.{contains_below}
use learn_server_concise.Timer.{
  Timer, TimerManager, comparator, fire_all, cut, none_due, list_expired_locked,
  detect_clock_rollover, list_expired_callback, has_timer,
}
use learn_server_concise.Timer.Order.{comparator-IsOrder, All-next-le}
use learn_server_concise.Timer.Invariant.{Distinct, Pending, IsValid}
use learn_server_concise.Timer.Expiry.{cut-select}

-- The clock went back by more than an hour since the last call.
abbrev pub rolled_over : ℕ → TimerManager → Bool
rolled_over now m = (detect_clock_rollover now m).1

-- The timers that a call at `now` takes: those that are due, and all if the clock went back.
abbrev pub is_expired : ℕ → TimerManager → ℕ → Bool
is_expired now m p = rolled_over now m || leb (m.heap p).next now

abbrev pub is_waiting : ℕ → TimerManager → ℕ → Bool
is_waiting now m p = not (is_expired now m p)

-- What the call takes, and what it leaves queued.
abbrev pub taken : ℕ → TimerManager → List ℕ
taken now m = select (is_expired now m) m.timers

abbrev pub remaining : ℕ → TimerManager → TimerManager
remaining now m = record m { previous_time = now; timers = select (is_waiting now m) m.timers }

-- Selecting from a queue.
pub contains-select :
    (t : ℕ → Bool) (q : ℕ) (ps : List ℕ) → contains q (select t ps) ≡ (t q && contains q ps)
contains-select t q [] = ground arith
contains-select t q (p ∷ ps) = ground (arith, contains-select t q ps)

All-select : (P : ℕ → Type 0) (t : ℕ → Bool) (ps : List ℕ) → All P ps → All P (select t ps)
All-select P t [] a = tt
All-select P t (p ∷ ps) a = elim (Bool-cases (t p)) [
  | inl e ↦ rw e (a.0, All-select P t ps a.1)
  | inr e ↦ rw e (All-select P t ps a.1)
]

IsSorted-select :
    (less : ℕ → ℕ → Bool) (t : ℕ → Bool) (ps : List ℕ)
    → IsSorted less ps
    → IsSorted less (select t ps)
IsSorted-select less t [] s = tt
IsSorted-select less t (p ∷ ps) s = elim (Bool-cases (t p)) [
  | inl e ↦ rw e (All-select _ t ps s.0, IsSorted-select less t ps s.1)
  | inr e ↦ rw e (IsSorted-select less t ps s.1)
]

pub Distinct-IsSorted :
    (heap : ℕ → Timer) (ps : List ℕ) → IsSorted (comparator heap) ps → Distinct ps
Distinct-IsSorted heap [] s = tt
Distinct-IsSorted heap (p ∷ ps) s = (
  contains_below (comparator heap) (comparator-IsOrder heap) p ps s.0,
  Distinct-IsSorted heap ps s.1,
)

-- Taking out of a valid queue what passes a test.
pub split-Pending :
    (t : ℕ → Bool) (m : TimerManager) (time : ℕ)
    → IsValid m
    → Pending
        (select t m.timers)
        (record m { timers = select (λ p. not (t p)) m.timers; previous_time = time })
split-Pending t m time v = record {
  ordered = IsSorted-select (comparator m.heap) (λ p. not (t p)) m.timers v.ordered;
  nonnull = ground (arith, contains-select (λ p. not (t p)) 0 m.timers, v.nonnull);
  armed = λ q h.
      ground (
        arith,
        contains-select (λ p. not (t p)) q m.timers,
        contains-select t q m.timers,
        v.armed q,
      );
  apart = λ q h.
      ground (arith, contains-select (λ p. not (t p)) q m.timers, contains-select t q m.timers);
  distinct = Distinct-IsSorted m.heap _ (IsSorted-select (comparator m.heap) t m.timers v.ordered);
  ps_nonnull = ground (arith, contains-select t 0 m.timers, v.nonnull);
}

select_all : (ps : List ℕ) → (select (λ p. true) ps ≡ ps) × (select (λ p. false) ps ≡ [])
select_all [] = (refl, refl)
select_all (p ∷ ps) = (ap (◌∷◌ p) (select_all ps).0, (select_all ps).1)

pub List-cases : (ps : List ℕ) → (ps ≡ []) ⊎ ((q : ℕ) × (qs : List ℕ) × (ps ≡ q ∷ qs))
List-cases [] = inl refl
List-cases (q ∷ qs) = inr (q, qs, refl)

All-lt :
    (heap : ℕ → Timer) (now x : ℕ) (ps : List ℕ)
    → now < (heap x).next
    → All (λ p. (heap x).next ≤ (heap p).next) ps
    → All (λ p. now < (heap p).next) ps
All-lt heap now x [] h a = tt
All-lt heap now x (p ∷ ps) h a = (omega arith, All-lt heap now x ps h a.1)

module _ (probe now : ℕ) (m : TimerManager) (v : IsValid m) (n : probe ≢ 0)
    (fresh : contains probe m.timers ≡ false) where
  cut_lem :
      cut probe (rolled_over now m) now (record m { previous_time = now })
      ≡ (select (is_expired now m) m.timers, select (is_waiting now m) m.timers)
  unfolding cut
  cut_lem = elim (Bool-cases (rolled_over now m)) [
    | inl e ↦ rw e (ground (arith, select_all m.timers))
    | inr e ↦
        rw e (ground (arith, cut-select m.heap now probe n m.timers v.nonnull fresh v.ordered))
  ]

  -- Nothing is due where the head is not.
  idle_lem :
      (heap : ℕ → Timer) (ps : List ℕ)
      → All (λ p. now < (heap p).next) ps
      → (select (λ p. leb (heap p).next now) ps ≡ [])
        × (select (λ p. not (leb (heap p).next now)) ps ≡ ps)
  idle_lem heap [] a = (refl, refl)
  idle_lem heap (p ∷ ps) a = ground (arith, idle_lem heap ps a.1)

  detect-manager : (detect_clock_rollover now m).0 ≡ record m { previous_time = now }
  unfolding detect_clock_rollover
  detect-manager = refl

  head_nonnull : (p : ℕ) (ps : List ℕ) → m.timers ≡ p ∷ ps → p ≢ 0
  head_nonnull p ps e = ground (arith, v.nonnull)

  nothing_due :
      (p : ℕ) (ps : List ℕ)
      → m.timers ≡ p ∷ ps
      → rolled_over now m ≡ false
      → now < (m.heap p).next
      → (taken now m ≡ []) × (remaining now m ≡ record m { previous_time = now })
  nothing_due p ps e r h = (
    ap (λ (b : Bool). select (λ q. b || leb (m.heap q).next now) m.timers) r
        ∙ (idle_lem m.heap m.timers later).0,
    ap remaining_of (
        ap (λ (b : Bool). select (λ q. not (b || leb (m.heap q).next now)) m.timers) r
        ∙ (idle_lem m.heap m.timers later).1),
  )
    where
      remaining_of : List ℕ → TimerManager
      remaining_of ps = record m { previous_time = now; timers = ps }

      sorted : IsSorted (comparator m.heap) (p ∷ ps)
      sorted = rw e at v.ordered

      rest_later : All (λ q. now < (m.heap q).next) ps
      rest_later = All-lt m.heap now p ps h (All-next-le m.heap p ps (head_nonnull p ps e) sorted.0)

      later : All (λ q. now < (m.heap q).next) m.timers
      later = rw e (h, rest_later)

  head_due :
      (p : ℕ) (ps : List ℕ)
      → m.timers ≡ p ∷ ps
      → none_due false now (record m { previous_time = now }) ≡ ok (ltb now (m.heap p).next)
  unfolding none_due
  head_due p ps e = rw (e, none_due)

  locked-eq :
      (p : ℕ) (ps : List ℕ) (fns : List (Option ℕ))
      → m.timers ≡ p ∷ ps
      → list_expired_locked probe now m fns ≡ ok (fire_all now (taken now m) (remaining now m) fns)
  unfolding list_expired_locked none_due fire_all
  locked-eq p ps fns e =
      rw (detect-manager, cut_lem)
        (elim (Bool-cases (rolled_over now m)) [
          | inl r ↦ rw r
          | inr r ↦
              rw (r, head_due p ps e)
                (elim (Bool-cases (ltb now (m.heap p).next)) [
                  | inl later ↦ rw later (ground (arith, nothing_due p ps e r))
                  | inr due ↦ rw due
                ])
        ])

  pub list_expired-eq :
      (fns : List (Option ℕ))
      → has_timer m ≡ true
      → list_expired_callback probe now m fns
        ≡ ok (fire_all now (taken now m) (remaining now m) fns)
  unfolding list_expired_callback has_timer
  list_expired-eq fns h =
      rw h (elim (List-cases m.timers) [
        | inl e ↦ ground arith
        | inr (p, ps, e) ↦ locked-eq p ps fns e
      ])

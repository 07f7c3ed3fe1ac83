-- ===== src/Timer.antt =====
-- include/timer.h and src/timer.cc: the timers, and the manager that queues them by due time.
-- A `Timer*` is an address, 0 the null pointer; the manager's `heap` holds the timer objects, which
-- the queue orders by a field that the methods write. `now` is what `GetCurrentMS` returns.
pub mod Order
pub mod Invariant
pub mod Methods
pub mod Added
pub mod Expiry
pub mod Firing
pub mod Expired
pub mod Contract
pub mod Cancel
pub mod Rearm
pub mod History
pub mod Front
pub mod Clock
pub mod Table
pub mod Same
pub mod Wakes
pub mod Promises
pub mod Refine
mod Tests
use learn_server_concise.Base.{
  ℕ, ◌+◌, ◌-◌, ◌*◌, ◌%◌, ◌^◌, Bool, true, false, not, ◌&&◌, List, [], ◌∷◌, ◌++◌, Option, none, some,
  ltb, leb, ◌==◌, if◌then◌else◌, Outcome, ok, stop, undefined, ◌>>=◌,
}
use learn_server_concise.OrderedSet.{insert, find, erase, before, lower_bound}

-- A callback is a name; a `std::function` that holds none is `none`.
pub record Timer : Type 0 where
  pub cyclic : Bool
  pub ms : ℕ
  pub next : ℕ
  pub fn : Option ℕ

pub record TimerManager : Type 0 where
  pub heap : ℕ → Timer
  pub timers : List ℕ
  pub previous_time : ℕ

-- uint64_t
abbrev pub u64 : ℕ → ℕ
u64 n = n % 2 ^ 64

-- ~0ull
abbrev pub no_timeout : ℕ
no_timeout = 2 ^ 64 - 1

abbrev pub update : (ℕ → Timer) → ℕ → Timer → ℕ → Timer
update heap p t q = if p == q then t else heap q

-- Timer::Comparator::operator()
unfoldable pub comparator : (ℕ → Timer) → ℕ → ℕ → Bool
comparator heap lhs rhs =
    if lhs == 0 && rhs == 0
    then false
    else if lhs == 0
    then true
    else if rhs == 0
    then false
    else if ltb (heap lhs).next (heap rhs).next
    then true
    else if ltb (heap rhs).next (heap lhs).next
    then false
    else ltb lhs rhs

-- What a method leaves: the manager, its result, and whether it called onTimerInsertedAtFirst.
pub record Effect : Type 0 where
  pub manager : TimerManager
  pub returned : Bool
  pub notified : Bool

at_front : ℕ → List ℕ → Bool
at_front p [] = false
at_front p (q ∷ qs) = q == p

-- TimerManager::addTimer(Timer::ptr, WriteScopedLock&): `p` points to a timer of the heap.
pub insert_timer : ℕ → TimerManager → TimerManager × Bool
unfolding at_front
insert_timer p m =
    let queue = insert (comparator m.heap) p m.timers in
    (record m { timers = queue }, at_front p queue)

-- Timer::Timer(uint64_t, std::function<void()>, bool, TimerManager*)
abbrev pub new_timer : ℕ → Option ℕ → Bool → ℕ → Timer
new_timer ms fn cyclic now = record { cyclic = cyclic; ms = ms; next = u64 (now + ms); fn = fn }

-- Timer::Timer(uint64_t next)
abbrev pub probe_timer : ℕ → Timer
probe_timer next = record { cyclic = false; ms = 0; next = next; fn = none }

-- TimerManager::addTimer(uint64_t, std::function<void()>, bool): `p` is what `new` returns, and
-- the method's result.
pub add_timer : ℕ → ℕ → Option ℕ → Bool → ℕ → TimerManager → TimerManager × Bool
unfolding insert_timer
add_timer p ms fn cyclic now m =
    insert_timer p (record m { heap = update m.heap p (new_timer ms fn cyclic now) })

-- Timer::cancel: erasing at `end()` is undefined.
pub cancel : ℕ → TimerManager → Outcome (TimerManager × Bool)
cancel p m = elim (m.heap p).fn [
  | none ↦ ok (m, false)
  | some f ↦
      let heap = update m.heap p (record (m.heap p) { fn = none }) in
      if find (comparator heap) p m.timers
      then ok (record m { heap = heap; timers = erase (comparator heap) p m.timers }, true)
      else stop undefined
]

-- The part of Timer::reset behind the search of the queue.
rearm : ℕ → ℕ → Bool → ℕ → TimerManager → TimerManager × Bool
unfolding insert_timer
rearm p ms from_now now m =
    let t = m.heap p in
    let start = if from_now then now else u64 (t.next + 2 ^ 64 - t.ms) in
    insert_timer p (record m {
      heap = update m.heap p (record t { ms = ms; next = u64 (start + ms) });
      timers = erase (comparator m.heap) p m.timers;
    })

-- Timer::reset
pub reset : ℕ → ℕ → Bool → ℕ → TimerManager → Effect
unfolding rearm
reset p ms from_now now m =
    if ms == (m.heap p).ms && not from_now
    then record { manager = m; returned = true; notified = false }
    else elim (m.heap p).fn [
      | none ↦ record { manager = m; returned = false; notified = false }
      | some f ↦
          if find (comparator m.heap) p m.timers
          then record {
            manager = (rearm p ms from_now now m).0;
            returned = true;
            notified = (rearm p ms from_now now m).1;
          }
          else record { manager = m; returned = false; notified = false }
    ]

-- Timer::refresh
pub refresh : ℕ → ℕ → TimerManager → TimerManager × Bool
refresh p now m = elim (m.heap p).fn [
  | none ↦ (m, false)
  | some f ↦
      let t = m.heap p in
      let heap = update m.heap p (record t { next = u64 (now + t.ms) }) in
      let queue = erase (comparator m.heap) p m.timers in
      if find (comparator m.heap) p m.timers
      then (record m { heap = heap; timers = insert (comparator heap) p queue }, true)
      else (m, false)
]

-- TimerManager::hasTimer
pub has_timer : TimerManager → Bool
has_timer m = elim m.timers [ [] ↦ false | p ∷ ps ↦ true ]

-- TimerManager::getNextTimer
pub get_next_timer : ℕ → TimerManager → ℕ
get_next_timer now m = elim m.timers [
  | [] ↦ no_timeout
  | p ∷ ps ↦ if leb (m.heap p).next now then 0 else (m.heap p).next - now
]

-- TimerManager::detectClockRollover: the subtraction wraps.
pub detect_clock_rollover : ℕ → TimerManager → TimerManager × Bool
detect_clock_rollover now m =
    let hour_before = u64 (m.previous_time + 2 ^ 64 - 60 * 60 * 1000) in
    (record m { previous_time = now }, ltb now m.previous_time && ltb now hour_before)

-- `while (it != end() && (*it)->m_next == now)`: what the loop steps over, and what it leaves
pub same_time : (ℕ → Timer) → ℕ → List ℕ → List ℕ
same_time heap now [] = []
same_time heap now (p ∷ ps) =
    let rest = same_time heap now ps in if (heap p).next == now then p ∷ rest else []

pub skip_same_time : (ℕ → Timer) → ℕ → List ℕ → List ℕ
skip_same_time heap now [] = []
skip_same_time heap now (p ∷ ps) =
    let rest = skip_same_time heap now ps in if (heap p).next == now then rest else p ∷ ps

-- The queue cut at `it`; `probe` is the address of the local timer `now_timer`.
pub cut : ℕ → Bool → ℕ → TimerManager → List ℕ × List ℕ
unfolding same_time skip_same_time
cut probe true now m = (m.timers, [])
cut probe false now m =
    let less = comparator (update m.heap probe (probe_timer now)) in
    let from = lower_bound less probe m.timers in
    (before less probe m.timers ++ same_time m.heap now from, skip_same_time m.heap now from)

-- One round of the loop over the expired timers.
pub fire : ℕ → ℕ → TimerManager → TimerManager
fire now p m =
    let t = m.heap p in
    let again = update m.heap p (record t { next = u64 (now + t.ms) }) in
    if t.cyclic
    then record m { heap = again; timers = insert (comparator again) p m.timers }
    else record m { heap = update m.heap p (record t { fn = none }) }

pub fire_all : ℕ → List ℕ → TimerManager → List (Option ℕ) → TimerManager × List (Option ℕ)
unfolding fire
fire_all now [] m fns = (m, fns)
fire_all now (p ∷ ps) m fns = fire_all now ps (fire now p m) (fns ++ (m.heap p).fn ∷ [])

-- `!rollover && (*m_timers.begin())->m_next > now_ms`
pub none_due : Bool → ℕ → TimerManager → Outcome Bool
none_due true now m = ok false
none_due false now m = elim m.timers [ [] ↦ stop undefined | p ∷ ps ↦ ok (ltb now (m.heap p).next) ]

-- TimerManager::listExpiredCallback under the write lock.
pub list_expired_locked :
    ℕ → ℕ → TimerManager → List (Option ℕ) → Outcome (TimerManager × List (Option ℕ))
list_expired_locked probe now m fns = do
  let m' = (detect_clock_rollover now m).0
  let rollover = (detect_clock_rollover now m).1
  idle ← none_due rollover now m'
  let parts = cut probe rollover now m'
  if idle then ok (m', fns) else ok (fire_all now parts.0 (record m' { timers = parts.1 }) fns)

-- TimerManager::listExpiredCallback where nothing comes between its two locks.
pub list_expired_callback :
    ℕ → ℕ → TimerManager → List (Option ℕ) → Outcome (TimerManager × List (Option ℕ))
list_expired_callback probe now m fns =
    if has_timer m then list_expired_locked probe now m fns else ok (m, fns)

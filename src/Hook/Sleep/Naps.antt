-- ===== src/Hook/Sleep/Naps.antt =====
-- That a fiber sleeps as long as it asked to.
use Prim.Native.Nat.{◌/◌}
use learn_server_concise.Base.{
  ℕ, ◌+◌, ◌*◌, ◌^◌, ◌<◌, ◌≡◌, ◌≢◌, refl, sym, ◌∙◌, ap, Bool, true, false, Option, some, contains,
  Returns, Returns-bind, arith, Bool-cases, inl, inr, ◌≤◌, [], Returns-weaken,
}
use mathlib.Core.Path.{subst}
use learn_server_concise.Timer.{TimerManager, add_timer, list_expired_callback}
use learn_server_concise.Timer.Invariant as Timers
use learn_server_concise.Timer.Methods.{add_timer-IsValid}
use learn_server_concise.Timer.Added.{add_timer-object, add_timer-due, add_timer-queued}
use learn_server_concise.Timer.Expired.{rolled_over}
use learn_server_concise.Timer.Wakes.{
  Calls, list_expired_callback-fires, list_expired_callback-keeps,
}
use learn_server_concise.IoManager.{Kernel, IoManager, tickle}
use learn_server_concise.IoManager.Wakes.{tickle-keeps}
use learn_server_concise.Hook.{sleep_delay}
use learn_server_concise.Hook.Sleep.{Nap, sleeps, usleeps, nanosleeps, nap_delay, nap}

-- The milliseconds that the call asks for, rounded down.
abbrev pub asked : Nap → ℕ
asked (sleeps seconds) = seconds * 1000
asked (usleeps usec) = usec / 1000
asked (nanosleeps sec nsec) = sec * 1000 + nsec / 1000 / 1000

-- What fits the types on the way.
abbrev pub limit : Nap → ℕ
limit (sleeps seconds) = 2 ^ 32
limit (usleeps usec) = 2 ^ 32
limit (nanosleeps sec nsec) = 2 ^ 31

nap_delay-asked : (n : Nap) → asked n < limit n → nap_delay n ≡ asked n
unfolding nap_delay sleep_delay
nap_delay-asked (sleeps seconds) h = omega arith
nap_delay-asked (usleeps usec) h = refl
nap_delay-asked (nanosleeps sec nsec) h = ground (arith, h)

-- A fiber waits for its timer alone.
record Naps (p cb now : ℕ) (n : Nap) (m : IoManager) (r : Option IoManager × Bool) : Type 0 where
  pub waits : r.1 ≡ true
  pub manager : IoManager
  pub result : r.0 ≡ some manager
  pub valid : Timers.IsValid manager.timers
  pub due : (manager.timers.heap p).next ≡ now + asked n
  pub once : ((manager.timers.heap p).cyclic ≡ false) × ((manager.timers.heap p).fn ≡ some cb)
  pub queued : contains p manager.timers.timers ≡ true
  pub contexts : manager.contexts ≡ m.contexts

-- A hooked sleep leaves a timer that is due when the milliseconds asked for are over.
nap-Naps :
    (k : Kernel) (p cb now : ℕ) (n : Nap) (m : IoManager)
    → asked n < limit n
    → now + asked n < 2 ^ 64
    → Timers.IsValid m.timers
    → p ≢ 0
    → contains p m.timers.timers ≡ false
    → k.pipe_write ≡ true
    → Returns (Naps p cb now n m) (nap k p cb now true n (some m))
unfolding nap
nap-Naps k p cb now n m a l v nonnull fresh piped =
    rw (nap_delay-asked n a, nap)
      (elim (Bool-cases added.1) [
        | inl front ↦ rw front (
            Returns-bind _ (Naps p cb now n m) (tickle k timed) _ (tickle-keeps k timed piped)
              (λ m' h. naps m' h.0 h.2))
        | inr later ↦ rw later (naps timed refl refl)
      ])
  where
    added : TimerManager × Bool
    added = add_timer p (asked n) (some cb) false now m.timers

    timed : IoManager
    timed = record m { timers = added.0 }

    naps :
        (m' : IoManager)
        → m'.contexts ≡ m.contexts
        → m'.timers ≡ added.0
        → Naps p cb now n m (some m', true)
    naps m' c t = record {
      waits = refl;
      manager = m';
      result = refl;
      valid =
          subst Timers.IsValid (sym t)
            (add_timer-IsValid p (asked n) (some cb) false now m.timers v nonnull fresh);
      due = ap (λ x. (x.heap p).next) t ∙ add_timer-due p cb now (asked n) m.timers l;
      once = (
        ap (λ x. (x.heap p).cyclic) t ∙ (add_timer-object p cb now (asked n) m.timers).0,
        ap (λ x. (x.heap p).fn) t ∙ (add_timer-object p cb now (asked n) m.timers).1,
      );
      queued = ap (λ x. contains p x.timers) t ∙ add_timer-queued p cb now (asked n) m.timers;
      contexts = c;
    }

-- The fiber waits, and its call-back `cb` is called when the time is over, and not before.
pub record WakesUp (p cb now : ℕ) (n : Nap) (m : IoManager) (r : Option IoManager × Bool)
    : Type 0 where
  pub waits : r.1 ≡ true
  pub manager : IoManager
  pub result : r.0 ≡ some manager
  pub valid : Timers.IsValid manager.timers
  pub contexts : manager.contexts ≡ m.contexts
  pub over :
      (probe later : ℕ)
      → probe ≢ 0
      → contains probe manager.timers.timers ≡ false
      → now + asked n ≤ later
      → Returns (λ x. Calls cb x.1) (list_expired_callback probe later manager.timers [])
  pub early :
      (probe sooner : ℕ)
      → probe ≢ 0
      → contains probe manager.timers.timers ≡ false
      → sooner < now + asked n
      → rolled_over sooner manager.timers ≡ false
      → Returns
          (λ x. contains p x.0.timers ≡ true)
          (list_expired_callback probe sooner manager.timers [])

-- With a duration that fits the types on the way and a time that does not pass the end of the clock, and
-- on a valid manager whose pipe accepts, a hooked sleep makes its fiber wait: when the
-- milliseconds asked for are over, listExpiredCallback returns the call-back that schedules the
-- fiber; before that, unless it takes the clock to have gone back, it leaves the timer queued.
pub nap-WakesUp :
    (k : Kernel) (p cb now : ℕ) (n : Nap) (m : IoManager)
    → asked n < limit n
    → now + asked n < 2 ^ 64
    → Timers.IsValid m.timers
    → p ≢ 0
    → contains p m.timers.timers ≡ false
    → k.pipe_write ≡ true
    → Returns (WakesUp p cb now n m) (nap k p cb now true n (some m))
nap-WakesUp k p cb now n m a l v nonnull fresh piped =
    Returns-weaken (Naps p cb now n m) (WakesUp p cb now n m) (nap k p cb now true n (some m))
      (nap-Naps k p cb now n m a l v nonnull fresh piped)
      (λ r h. record {
        waits = h.waits;
        manager = h.manager;
        result = h.result;
        valid = h.valid;
        contexts = h.contexts;
        over = λ probe later z f g.
            list_expired_callback-fires probe later p h.manager.timers h.valid z f h.queued cb
              h.once.1 (omega (arith, h.due, g));
        early = λ probe sooner z f g c.
            list_expired_callback-keeps probe sooner p h.manager.timers h.valid z f h.queued
              (ground (arith, c, h.due, g));
      })

-- ===== src/Hook/Io/First.antt =====
-- The loop of doIO.
use learn_server_concise.Base.{
  ℕ, zero, suc, ◌+◌, ◌<◌, ◌≤◌, ◌≡◌, ◌≢◌, refl, sym, Bool, true, false, Option, some, ◌==◌, contains,
  ok, ◌>>=◌, arith, Returns, Returns-bind, Returns-weaken, Bool-cases, inl, inr,
}
use mathlib.Core.Path.{subst}
use learn_server_concise.Timer.{TimerManager}
use learn_server_concise.Timer.Invariant as Timers
use learn_server_concise.FdContext.{FdEventType, none_event, FdContext}
use learn_server_concise.FdManager.{FileDescriptor, TimeoutType, get_timeout, forever}
use learn_server_concise.IoManager.{Kernel, IoManager}
use learn_server_concise.IdleLoop.Round.{same-IsValid}
use learn_server_concise.Hook.Wait.{begin_wait, cancel_timer}
use learn_server_concise.Hook.Wait.Begun.{
  CanListen, Begun, begin_wait-Begun, timer_of, Disarmed, cancel_timer-Disarmed,
}
use learn_server_concise.Hook.Io.{
  CallResult, returned, failed, interrupted, try_again, IoResult, bytes, error, Surroundings,
  wait_for_event, retry, do_io,
}

-- A call after which the loop goes on.
abbrev pub is_pending : CallResult → Bool
is_pending (returned k) = false
is_pending (failed errno) = false
is_pending interrupted = true
is_pending try_again = true

-- What the loop makes of a call after which it does not go on.
abbrev pub result_of : CallResult → IoResult
result_of (returned k) = bytes k
result_of (failed errno) = error errno
result_of interrupted = error 0
result_of try_again = error 0

-- `new` returns an address at which no queued timer is.
abbrev pub IsAllocator : (TimerManager → ℕ) → Type 0
IsAllocator new_timer =
    (ts : TimerManager) → (new_timer ts ≢ 0) × (contains (new_timer ts) ts.timers ≡ false)

-- A state from which the fiber may wait for the event.
pub record IsReady (k : Kernel) (fd : ℕ) (event : FdEventType) (m : IoManager) : Type 0 where
  pub context : FdContext
  pub listens : CanListen k fd event m context
  pub timers_valid : Timers.IsValid m.timers

module _ (around : Surroundings) (timeout fd : ℕ) (event : FdEventType) (this_fiber : ℕ)
    (some_event : event ≢ none_event) (fresh : IsAllocator around.new_timer) where
  -- The state `m'` in which wait `j` that started in `m` leaves the fiber.
  abbrev pub IsWaiting : ℕ → IoManager → FdContext → IoManager → Type 0
  IsWaiting j m c m' =
      Begun around.kernel (around.new_timer m.timers) around.cb (around.now j) timeout fd event
        this_fiber m c (m', timer_of (around.new_timer m.timers) timeout, true)

  -- Whatever waits, the event comes: the fiber goes on, not cancelled, and may wait again.
  abbrev pub EventComes : Type 0
  EventComes =
      (j : ℕ) (m : IoManager) (c : FdContext) (m' : IoManager)
      → IsWaiting j m c m'
      → Returns (λ r. (r.1 ≡ false) × IsReady around.kernel fd event r.0) (around.swapped_out j m')

  -- Cancelling the timer leaves the fiber ready.
  Disarmed-IsReady :
      (p : ℕ) (m m' : IoManager)
      → IsReady around.kernel fd event m
      → Disarmed p m m'
      → IsReady around.kernel fd event m'
  Disarmed-IsReady p m m' r d = record {
    context = r.context;
    listens = record {
      valid = same-IsValid m m' d.contexts d.pending r.listens.valid;
      context = rw d.contexts r.listens.context;
      small = rw d.contexts r.listens.small;
      free = r.listens.free;
      accepted = r.listens.accepted;
      piped = r.listens.piped;
    };
    timers_valid = d.timers_valid;
  }

  cancel_timer-IsReady :
      (p : ℕ) (m : IoManager)
      → IsReady around.kernel fd event m
      → Returns (IsReady around.kernel fd event) (cancel_timer (timer_of p timeout) m)
  unfolding cancel_timer
  cancel_timer-IsReady p m r = elim (Bool-cases (timeout == forever)) [
    | inl e ↦ rw (e, cancel_timer) r
    | inr e ↦ rw e (
        Returns-weaken (Disarmed p m) (IsReady around.kernel fd event) (cancel_timer (some p) m)
          (cancel_timer-Disarmed p m r.timers_valid) (λ m' d. Disarmed-IsReady p m m' r d))
  ]

  -- What a wait that ends with the event gives.
  abbrev Woken : IoManager × Bool × Bool → Type 0
  Woken r = (r.1 ≡ true) × (r.2 ≡ false) × IsReady around.kernel fd event r.0

  wait_lem :
      EventComes
      → (j : ℕ) (m : IoManager) → IsReady around.kernel fd event m
      → Returns Woken (wait_for_event around timeout fd event this_fiber j m)
  unfolding wait_for_event
  wait_lem comes j m r =
      Returns-bind
        (Begun around.kernel p around.cb (around.now j) timeout fd event this_fiber m r.context)
        Woken (begin_wait around.kernel p around.cb (around.now j) timeout fd event this_fiber m) _
        (begin_wait-Begun around.kernel p around.cb (around.now j) timeout fd event this_fiber m
          r.context
          (record {
            listens = r.listens;
            timers_valid = r.timers_valid;
            nonnull = (fresh m.timers).0;
            fresh = (fresh m.timers).1;
          })
          some_event)
        (λ b h. rw (h.listened, h.timer) (after b.0 (waiting b h)))
    where
      p : ℕ
      p = around.new_timer m.timers

      waiting :
          (b : IoManager × Option ℕ × Bool)
          → Begun around.kernel p around.cb (around.now j) timeout fd event this_fiber m r.context b
          → IsWaiting j m r.context b.0
      waiting b h = record {
        timer = refl;
        listened = refl;
        timed = h.timed;
        valid = h.valid;
        timers_valid = h.timers_valid;
        context = h.context;
        pending = h.pending;
      }

      after :
          (m' : IoManager)
          → IsWaiting j m r.context m'
          → Returns Woken (do
            back ← around.swapped_out j m'
            m'' ← cancel_timer (timer_of p timeout) back.0
            ok (m'', true, back.1))
      after m' w =
          Returns-bind (λ b. (b.1 ≡ false) × IsReady around.kernel fd event b.0) Woken
            (around.swapped_out j m') _ (comes j m r.context m' w)
            (λ b g.
              Returns-bind (IsReady around.kernel fd event) Woken
                (cancel_timer (timer_of p timeout) b.0) _ (cancel_timer-IsReady p b.0 g.1)
                (λ m'' q. (refl, g.0, q)))

  -- What is left of doIO, and of its loop, when it returns `r`.
  abbrev pub Gives : IoResult → IoManager × IoResult → Type 0
  Gives r a = (a.1 ≡ r) × IsReady around.kernel fd event a.0

  -- A call after which the loop does not go on.
  retry-stops :
      (n i j : ℕ) (m : IoManager) (call : CallResult)
      → around.calls i ≡ call
      → is_pending call ≡ false
      → IsReady around.kernel fd event m
      → Returns (Gives (result_of call)) (retry around timeout fd event this_fiber (suc n) i j m)
  unfolding retry
  retry-stops n i j m (returned k) e h r = rw (e, retry) (refl, r)
  retry-stops n i j m (failed errno) e h r = rw (e, retry) (refl, r)
  retry-stops n i j m interrupted e h r = absurd (cc)
  retry-stops n i j m try_again e h r = absurd (cc)

  -- A call after which it does, where its further rounds give `result` from any ready state.
  retry-goes :
      EventComes
      → (n i j : ℕ) (m : IoManager) (call : CallResult) (result : IoResult) → around.calls i ≡ call
      → is_pending call ≡ true
      → ((j' : ℕ) (m' : IoManager)
          → IsReady around.kernel fd event m'
          → Returns (Gives result) (retry around timeout fd event this_fiber n (i + 1) j' m'))
      → IsReady around.kernel fd event m
      → Returns (Gives result) (retry around timeout fd event this_fiber (suc n) i j m)
  unfolding retry
  retry-goes comes n i j m (returned k) result e h later r = absurd (cc)
  retry-goes comes n i j m (failed errno) result e h later r = absurd (cc)
  retry-goes comes n i j m interrupted result e h later r = rw (e, retry) (later j m r)
  retry-goes comes n i j m try_again result e h later r =
      rw (e, retry)
        (Returns-bind Woken (Gives result) (wait_for_event around timeout fd event this_fiber j m) _
          (wait_lem comes j m r) (λ w g. rw (g.0, g.1) (later (j + 1) w.0 g.2)))

  retry_lem :
      EventComes
      → (k n i j t : ℕ) (m : IoManager) → i + k ≡ t
      → k < n
      → ((x : ℕ) → i ≤ x → x < t → is_pending (around.calls x) ≡ true)
      → is_pending (around.calls t) ≡ false
      → IsReady around.kernel fd event m
      → Returns
          (Gives (result_of (around.calls t)))
          (retry around timeout fd event this_fiber n i j m)
  retry_lem comes k zero i j t m e h p q r = absurd (omega arith)
  retry_lem comes zero (suc n) i j t m e h p q r =
      let at_end : i ≡ t = omega arith in
      subst
        (λ x.
          Returns (Gives (result_of (around.calls x)))
            (retry around timeout fd event this_fiber (suc n) i j m))
        at_end
        (retry-stops n i j m (around.calls i) refl
          (subst (λ x. is_pending (around.calls x) ≡ false) (sym at_end) q) r)
  retry_lem comes (suc k) (suc n) i j t m e h p q r =
      retry-goes comes n i j m (around.calls i) (result_of (around.calls t)) refl
        (p i (omega arith) (omega arith))
        (λ j' m' r'.
          retry_lem comes k n (i + 1) j' t m' (omega arith) (omega arith)
            (λ x a b. p x (omega arith) b) q r')
        r

  -- On a blocking socket, and from a state in which the fiber may wait for the event, doIO returns, with
  -- the result of the first call that is neither interrupted nor told to try again, however many
  -- come before it: as many rounds are enough. The conditions are that `new` returns addresses that
  -- are not queued, and that the event of every wait comes before its time-out: from any state in
  -- which the fiber waits, with its listener and its timer, it goes on, not cancelled, in a state
  -- in which it may wait again.
  pub do_io-first :
      (k n : ℕ) (f : FileDescriptor) (type : TimeoutType) (m : IoManager)
      → EventComes
      → IsReady around.kernel fd event m
      → get_timeout type f ≡ timeout
      → f.is_closed ≡ false
      → f.is_socket ≡ true
      → f.user_non_block ≡ false
      → k < n
      → ((x : ℕ) → x < k → is_pending (around.calls x) ≡ true)
      → is_pending (around.calls k) ≡ false
      → Returns
          (Gives (result_of (around.calls k)))
          (do_io around n true (some f) fd event type this_fiber m)
  unfolding do_io
  do_io-first k n f type m comes r t c s u h p q =
      rw (t, c, s, u) (retry_lem comes k n 0 0 k m (omega arith) h (λ x a b. p x b) q r)

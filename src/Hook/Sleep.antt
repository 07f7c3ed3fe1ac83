-- ===== src/Hook/Sleep.antt =====
-- sleep, usleep and nanosleep of src/hook.cc, up to where the fiber gives up control.
pub mod Naps
mod Tests
use Prim.Native.Nat.{◌/◌}
use learn_server_concise.Base.{
  ℕ, ◌+◌, ◌-◌, ◌*◌, ◌%◌, ◌^◌, Bool, true, false, not, ltb, Option, none, some, if◌then◌else◌,
  Outcome, ok, stop, assertion, ◌>>=◌,
}
use learn_server_concise.Timer.{add_timer}
use learn_server_concise.IoManager.{Kernel, IoManager, tickle}
use learn_server_concise.Hook.{sleep_delay}

-- A call with its argument; nanosleep's are tv_sec and tv_nsec, which are not negative.
pub data Nap : Type 0 where
  sleeps usleeps : ℕ → Nap
  nanosleeps : ℕ → ℕ → Nap

-- An int that is given for a uint64_t: the sum was computed in 64 bits and cut to 32.
abbrev pub through_int : ℕ → ℕ
through_int n = let i = n % 2 ^ 32 in if ltb i (2 ^ 31) then i else 2 ^ 64 - 2 ^ 32 + i

-- The delay that the call gives to addTimer.
unfoldable pub nap_delay : Nap → ℕ
unfolding sleep_delay
nap_delay (sleeps seconds) = sleep_delay seconds
nap_delay (usleeps usec) = usec / 1000
nap_delay (nanosleeps sec nsec) = through_int ((sec * 1000 + nsec / 1000 / 1000) % 2 ^ 64)

-- The call on a thread of the manager `iom`, or of none, at the time `now`: `p` is what `new` returns, and
-- `cb` the call-back, which schedules the fiber. The fiber waits if the result is true, and
-- otherwise the real call is made.
pub nap :
    Kernel → (p cb now : ℕ) → Bool → Nap → Option IoManager → Outcome (Option IoManager × Bool)
unfolding nap_delay
nap k p cb now enabled n iom = if not enabled then ok (iom, false) else elim iom [
  | none ↦ stop assertion
  | some m ↦
      let added = add_timer p (nap_delay n) (some cb) false now m.timers in
      let m' = record m { timers = added.0 } in
      if added.1 then (do m'' ← tickle k m'; ok (some m'', true)) else ok (some m', true)
]

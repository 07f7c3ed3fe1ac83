-- ===== src/Hook/Sleep/Tests.antt =====
-- nanosleep of src/hook.cc on a concrete manager.
use learn_server_concise.Base.{◌≡◌, refl, true, some, Returns, arith}
use learn_server_concise.IoManager.Samples.{willing, busy, no_timers-IsValid}
use learn_server_concise.Hook.Sleep.{nanosleeps, sleeps, nap, nap_delay}
use learn_server_concise.Hook.Sleep.Naps.{WakesUp, nap-WakesUp}

-- One second and a half, at the time 1000.
nap-WakesUp_example :
    Returns
      (WakesUp 5 7 1000 (nanosleeps 1 500000000) busy)
      (nap willing 5 7 1000 true (nanosleeps 1 500000000) (some busy))
nap-WakesUp_example =
    nap-WakesUp willing 5 7 1000 (nanosleeps 1 500000000) busy (omega arith) (omega arith)
      no_timers-IsValid (λ e. absurd (omega (arith, e))) refl refl

-- After 24 days nanosleep asks for a time-out of more than 500 million years, and sleep after 49 days for one
-- that is too short.
limits_test :
    (nap_delay (nanosleeps 2147484 0) ≡ 18446744071562068320) × (nap_delay (sleeps 4294968) ≡ 704)
unfolding nap_delay
limits_test = (refl, refl)

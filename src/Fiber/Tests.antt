-- ===== src/Fiber/Tests.antt =====
-- The fibers of include/fiber.h and src/fiber.cc on a concrete thread.
use learn_server_concise.Base.{
  ℕ, ◌≡◌, ◌≢◌, refl, Bool, true, false, List, [], ◌∷◌, some, none, if◌then◌else◌, ◌==◌, Outcome, ok,
  stop, assertion, Returns, arith,
}
use learn_server_concise.Fiber.{
  State, initial, hold, exec, Fiber, Machine, set_state, finish, new_fiber, destroy, swap_in,
  swap_out, yield_to_hold, main_func_end, get_this,
}
use learn_server_concise.Fiber.Bounds.{Bounded, Keeps}
use learn_server_concise.Fiber.States.{
  Op, creates, swaps_in, yields_to_hold, ends, destroys, perform, run, run-Bounded,
}
use learn_server_concise.Fiber.Switches.{IsCurrent, swap_in-yield_to_hold, main_func_end-destroy}

abbrev a_fiber_in : State → Fiber
a_fiber_in s = record { id = 1; stack_size = 4096; state = s; stack = true; callback = some 7 }

abbrev master_fiber : ℕ
master_fiber = 5

abbrev scheduler_fiber : ℕ
scheduler_fiber = 6

-- Fiber 5 is the thread's master fiber and fiber 6 the scheduler's; all others are in the state `s`.
abbrev machine : State → Machine
machine s = record {
  fibers = λ p.
      if p == 5
      then record { id = 0; stack_size = 0; state = exec; stack = false; callback = none }
      else a_fiber_in s;
  t_fiber = some 5;
  t_master = some 5;
  main = some 6;
  cpu = 5;
  last_id = 1;
  count = 2;
}

machine-Bounded : Bounded (machine initial)
machine-Bounded = record {
  not_ready = λ q. ground arith;
  not_exception = λ q. ground arith;
  numbered = λ q. ground arith;
}

abbrev some_ops : List Op
some_ops =
    creates true 4096 8 9 0
    ∷ swaps_in true 8
    ∷ yields_to_hold true 0
    ∷ swaps_in true 8
    ∷ ends true false true 8
    ∷ destroys 8
    ∷ []

run-Bounded_example : Keeps Bounded (run (machine initial) some_ops)
run-Bounded_example = run-Bounded (machine initial) some_ops machine-Bounded

swap_in-yield_to_hold_example :
    Returns
      (λ m'.
        IsCurrent m'
        × (m'.cpu ≡ 1)
        × Returns
            (λ m''.
              (m''.cpu ≡ 6)
              × ((m''.fibers 1).state ≡ hold)
              × ((q : ℕ) → q ≢ 1 → m''.fibers q ≡ (machine hold).fibers q))
            (yield_to_hold true 0 m'))
      (swap_in true 1 (machine hold))
swap_in-yield_to_hold_example = swap_in-yield_to_hold 1 6 0 (machine hold) refl refl refl

main_func_end-destroy_example :
    Returns
      (λ m'.
        (finish (m'.fibers 1).state ≡ false) × (destroy 1 (set_state m' 1 hold) ≡ stop assertion))
      (main_func_end true true true 1 (machine exec))
main_func_end-destroy_example =
    main_func_end-destroy true true 1 6 5 (machine exec) refl refl refl refl

-- A new fiber runs, suspends itself, goes on and ends; then it can be destroyed.
returns : Outcome Machine → Bool
returns (ok m) = true
returns (stop e) = false

lifecycle_test : returns (run (machine initial) some_ops) ≡ true
unfolding returns run perform new_fiber swap_in yield_to_hold get_this swap_out main_func_end
    destroy
lifecycle_test = refl

-- ===== src/Fiber/Switches.antt =====
-- Who runs after a switch, what the current-fiber variable says of it, and how a fiber ends.
use learn_server_concise.Base.{
  ℕ, ◌+◌, ◌%◌, ◌^◌, ◌≡◌, ◌≢◌, refl, Bool, true, false, some, if◌then◌else◌, ok, stop, assertion,
  Returns, arith, ◌↔◌,
}
use learn_server_concise.Fiber.{
  hold, exec, Machine, set_state, can_run, finish, new_fiber, get_this, destroy, swap_in, swap_out,
  call, back, yield, yield_to_hold, main_func_end,
}

-- The current-fiber variable names the fiber that runs.
abbrev pub IsCurrent : Machine → Type 0
IsCurrent m = m.t_fiber ≡ some m.cpu

-- A fiber that may run, switched in with `swapIn()`, runs and is the current one; when it then
-- suspends itself with `YieldToHold`, the scheduler's fiber runs again and the fiber is on HOLD,
-- so that it may run once more. No other fiber is touched.
pub swap_in-yield_to_hold :
    (p r fresh : ℕ) (m : Machine)
    → m.main ≡ some r
    → (m.fibers p).stack ≡ true
    → can_run (m.fibers p).state ≡ true
    → Returns
        (λ m'.
          IsCurrent m'
          × (m'.cpu ≡ p)
          × Returns
              (λ m''.
                (m''.cpu ≡ r)
                × ((m''.fibers p).state ≡ hold)
                × ((q : ℕ) → q ≢ p → m''.fibers q ≡ m.fibers q))
              (yield_to_hold true fresh m'))
        (swap_in true p m)
unfolding swap_in yield_to_hold get_this swap_out
swap_in-yield_to_hold p r fresh m h s c = ground arith

-- A fiber that may run, switched in with `call` on a thread with a master fiber, runs and is the current
-- one; when it then suspends itself with `Yield`, the master fiber runs, is the current one, and the
-- fiber is on HOLD.
pub call-yield :
    (p r fresh : ℕ) (m : Machine)
    → m.t_master ≡ some r
    → (m.fibers p).stack ≡ true
    → can_run (m.fibers p).state ≡ true
    → Returns
        (λ m'.
          IsCurrent m'
          × (m'.cpu ≡ p)
          × Returns
              (λ m''. IsCurrent m'' × (m''.cpu ≡ r) × ((m''.fibers p).state ≡ hold))
              (yield true fresh m'))
        (call true p m)
unfolding call yield get_this back
call-yield p r fresh m h s c = ground arith

-- After `swapOut()` on a fiber with a stack, on a thread that has a scheduler's fiber and a master fiber,
-- the scheduler's fiber runs, and the current-fiber variable names it exactly if it is the master fiber.
pub swap_out-IsCurrent :
    (p r s : ℕ) (m : Machine)
    → m.main ≡ some r
    → m.t_master ≡ some s
    → (m.fibers p).stack ≡ true
    → Returns (λ m'. (m'.cpu ≡ r) × (IsCurrent m' ↔ (r ≡ s))) (swap_out true p m)
unfolding swap_out
swap_out-IsCurrent p r s m h k t = rw (h, k, t) (refl, (λ e. cc, λ e. cc))

-- A fiber whose callback returned counts as finished and can be destroyed. One whose callback threw
-- does not count as finished when another fiber gets control back, and once the scheduler has put it on
-- HOLD destroying it fails the destructor's assertion.
pub main_func_end-destroy :
    (threw on_root : Bool) (p r s : ℕ) (m : Machine)
    → m.main ≡ some r
    → m.t_master ≡ some s
    → (m.fibers p).stack ≡ true
    → (m.fibers p).state ≡ exec
    → Returns
        (λ m'.
          if threw
          then (finish (m'.fibers p).state ≡ false)
            × (destroy p (set_state m' p hold) ≡ stop assertion)
          else (finish (m'.fibers p).state ≡ true) × (destroy p m' ≡ ok m'))
        (main_func_end true threw on_root p m)
unfolding main_func_end destroy swap_out back
main_func_end-destroy true true p r s m h k t e = ground arith
main_func_end-destroy true false p r s m h k t e = ground arith
main_func_end-destroy false true p r s m h k t e = ground arith
main_func_end-destroy false false p r s m h k t e = ground arith

-- `TotalFiber` counts the fibers that were ever made: the destructor does not count down.
pub new_fiber-destroy-count :
    (d p c size : ℕ) (m : Machine)
    → Returns
        (λ m'.
          (m'.count ≡ (m.count + 1) % 2 ^ 64)
          × Returns (λ m''. m''.count ≡ (m.count + 1) % 2 ^ 64) (destroy p m'))
        (new_fiber true d p c size m)
unfolding new_fiber destroy
new_fiber-destroy-count d p c size m = ground arith

-- ===== src/Fiber/States.antt =====
-- The states that a fiber goes through, over every history of calls.
use learn_server_concise.Base.{ℕ, Bool, Outcome, ok, stop, ◌>>=◌, List, [], ◌∷◌}
use learn_server_concise.Fiber.{
  hold, Machine, set_state, new_fiber, get_this, destroy, reset, swap_in, swap_out, call, back,
  swap_in_from, swap_out_to, yield, yield_to_hold, main_func_end,
}
use learn_server_concise.Fiber.Bounds.{
  Bounded, Keeps, set_state-Bounded, swap_in-Bounded, swap_out-Bounded, call-Bounded, back-Bounded,
  swap_in_from-Bounded, swap_out_to-Bounded, new_fiber-Bounded, reset-Bounded, get_this-Bounded,
  destroy-Bounded, end-Bounded,
}

-- A call on one thread: the methods of Fiber, and the write `m_state = HOLD` in Scheduler::run.
pub data Op : Type 0 where
  creates : (works : Bool) (default_size p callback stack_size : ℕ) → Op
  gets : (works : Bool) (p : ℕ) → Op
  resets : (works : Bool) (p callback : ℕ) → Op
  destroys : (p : ℕ) → Op
  swaps_in swaps_out calls backs swaps_in_from : (works : Bool) (p : ℕ) → Op
  swaps_out_to : (works : Bool) (to p : ℕ) → Op
  yields yields_to_hold : (works : Bool) (fresh : ℕ) → Op
  ends : (works threw on_root : Bool) (p : ℕ) → Op
  holds : (p : ℕ) → Op

unfoldable pub perform : Machine → Op → Outcome Machine
perform m (creates works d p c s) = new_fiber works d p c s m
perform m (gets works p) = get_this works p m >>= λ r. ok r.1
perform m (resets works p c) = reset works p c m
perform m (destroys p) = destroy p m
perform m (swaps_in works p) = swap_in works p m
perform m (swaps_out works p) = swap_out works p m
perform m (calls works p) = call works p m
perform m (backs works p) = back works p m
perform m (swaps_in_from works p) = swap_in_from works p m
perform m (swaps_out_to works to p) = swap_out_to works to p m
perform m (yields works fresh) = yield works fresh m
perform m (yields_to_hold works fresh) = yield_to_hold works fresh m
perform m (ends works threw on_root p) = main_func_end works threw on_root p m
perform m (holds p) = ok (set_state m p hold)

-- Every call keeps the bounds.
unfoldable pub perform-Bounded : (m : Machine) (op : Op) → Bounded m → Keeps Bounded (perform m op)
unfolding perform yield yield_to_hold
perform-Bounded m (creates works d p c s) b = new_fiber-Bounded works d p c s m b
perform-Bounded m (gets works p) b = get_this-Bounded works p m (λ q m'. ok m') (λ q m' k. k) b
perform-Bounded m (resets works p c) b = reset-Bounded works p c m b
perform-Bounded m (destroys p) b = destroy-Bounded p m b
perform-Bounded m (swaps_in works p) b = swap_in-Bounded works p m b
perform-Bounded m (swaps_out works p) b = swap_out-Bounded works p m b
perform-Bounded m (calls works p) b = call-Bounded works p m b
perform-Bounded m (backs works p) b = back-Bounded works p m b
perform-Bounded m (swaps_in_from works p) b = swap_in_from-Bounded works p m b
perform-Bounded m (swaps_out_to works to p) b = swap_out_to-Bounded works to p m b
perform-Bounded m (yields works fresh) b =
    get_this-Bounded works fresh m (λ p m'. back works p (set_state m' p hold))
      (λ p m' k. back-Bounded works p _ (set_state-Bounded m' p hold (λ e. cc) (λ e. cc) k)) b
perform-Bounded m (yields_to_hold works fresh) b =
    get_this-Bounded works fresh m (λ p m'. swap_out works p (set_state m' p hold))
      (λ p m' k. swap_out-Bounded works p _ (set_state-Bounded m' p hold (λ e. cc) (λ e. cc) k)) b
perform-Bounded m (ends works threw on_root p) b = end-Bounded works threw on_root p m b
perform-Bounded m (holds p) b = set_state-Bounded m p hold (λ e. cc) (λ e. cc) b

-- A history of calls, up to the first that stops.
unfoldable pub run : Machine → List Op → Outcome Machine
run m [] = ok m
run m (op ∷ ops) = perform m op >>= λ m'. run m' ops

-- In no history of calls of the fiber methods and of the scheduler's write does a fiber become
-- READY or EXCEPTION, though the scheduler branches on both states and `Yield` is documented to
-- leave the fiber READY; and every fiber's number fits 64 bits.
pub run-Bounded : (m : Machine) (ops : List Op) → Bounded m → Keeps Bounded (run m ops)
unfolding run
run-Bounded m [] b = b
run-Bounded m (op ∷ ops) b =
    next (perform m op) (perform-Bounded m op b) λ m' k. run-Bounded m' ops k
  where
    next :
        (r : Outcome Machine)
        → Keeps Bounded r
        → ((m' : Machine) → Bounded m' → Keeps Bounded (run m' ops))
        → Keeps Bounded (r >>= λ m'. run m' ops)
    next (ok m') k ih = ih m' k
    next (stop e) k ih = tt

-- ===== src/Fiber.antt =====
-- include/fiber.h and src/fiber.cc: fibers, and the switches between them on one thread.
-- A fiber is an address in `fibers`; `cpu` is the fiber whose context the processor runs, which
-- `swapcontext` changes. That call and `getcontext` belong to the C library: whether one succeeds
-- is an argument.
pub mod Bounds
pub mod States
pub mod Switches
mod Tests
use learn_server_concise.Base.{
  ℕ, ◌+◌, ◌%◌, ◌^◌, Bool, true, false, not, ◌&&◌, ◌||◌, Option, none, some, ◌==◌, if◌then◌else◌,
  Outcome, ok, stop, assertion, thrown, undefined, ◌>>=◌, ◌>>◌, assert, ensure,
}

-- Fiber::State
pub data State : Type 0 where
  initial ready hold exec term exception : State

pub record Fiber : Type 0 where
  pub id : ℕ
  pub stack_size : ℕ
  pub state : State
  -- m_stack is not null
  pub stack : Bool
  pub callback : Option ℕ

-- The thread-local variables of one thread (`main` is Scheduler::GetMainFiber()), and the counters
-- of namespace FiberInfo.
pub record Machine : Type 0 where
  pub fibers : ℕ → Fiber
  pub t_fiber : Option ℕ
  pub t_master : Option ℕ
  pub main : Option ℕ
  pub cpu : ℕ
  pub last_id : ℕ
  pub count : ℕ

abbrev pub write_fiber : Machine → ℕ → Fiber → Machine
write_fiber m p f = record m { fibers = λ q. if p == q then f else m.fibers q }

abbrev pub set_state : Machine → ℕ → State → Machine
set_state m p s = write_fiber m p (record (m.fibers p) { state = s })

-- m_state == INIT || m_state == READY || m_state == HOLD
abbrev pub can_run : State → Bool
can_run initial = true
can_run ready = true
can_run hold = true
can_run exec = false
can_run term = false
can_run exception = false

-- m_state == INIT || m_state == TERM || m_state == EXCEPTION
abbrev pub is_over : State → Bool
is_over initial = true
is_over term = true
is_over exception = true
is_over ready = false
is_over hold = false
is_over exec = false

abbrev pub is_exec : State → Bool
is_exec exec = true
is_exec initial = false
is_exec ready = false
is_exec hold = false
is_exec term = false
is_exec exception = false

abbrev pub is_initial : State → Bool
is_initial initial = true
is_initial ready = false
is_initial hold = false
is_initial exec = false
is_initial term = false
is_initial exception = false

-- Fiber::finish
abbrev pub finish : State → Bool
finish term = true
finish exception = true
finish initial = false
finish ready = false
finish hold = false
finish exec = false

-- `swapcontext(…, &to->m_ctx)`, which fails by throwing.
abbrev pub switch_to : Bool → Option ℕ → Machine → Outcome Machine
switch_to works none m = stop undefined
switch_to works (some p) m = if works then ok (record m { cpu = p }) else stop thrown

abbrev pub is_some {ℓ} : {A : Type ℓ} → Option A → Bool
is_some none = false
is_some (some a) = true

-- Fiber::Fiber(FiberFunc, size_t): `p` is the address of the object, `default_size` the value of
-- the setting "fiber.stack_size".
pub new_fiber : Bool → ℕ → ℕ → ℕ → ℕ → Machine → Outcome Machine
new_fiber works default_size p callback stack_size m =
    let f : Fiber = record {
      id = (m.last_id + 1) % 2 ^ 64;
      stack_size = if stack_size == 0 then default_size else stack_size;
      state = initial;
      stack = true;
      callback = some callback;
    } in
    let counted = record m { last_id = (m.last_id + 1) % 2 ^ 64 } in
    if works
    then ok (record (write_fiber counted p f) { count = (m.count + 1) % 2 ^ 64 })
    else stop thrown

-- Fiber::Fiber(), for the fiber that a thread starts as.
pub new_master : Bool → ℕ → Machine → Outcome Machine
new_master works p m =
    let f : Fiber = record {
      id = 0;
      stack_size = 0;
      state = exec;
      stack = false;
      callback = none;
    } in
    if works
    then ok (record (write_fiber m p f) { t_fiber = some p; count = (m.count + 1) % 2 ^ 64 })
    else stop thrown

-- Fiber::GetThis: the current fiber, or a new master fiber at `p`.
pub get_this : Bool → ℕ → Machine → Outcome (ℕ × Machine)
unfolding new_master
get_this works p m = elim m.t_fiber [
  | some q ↦ ok (q, m)
  | none ↦ new_master works p m >>= λ m'. ok (p, record m' { t_master = some p })
]

-- Fiber::~Fiber
pub destroy : ℕ → Machine → Outcome Machine
destroy p m =
    let f = m.fibers p in
    if f.stack then (do assert (is_over f.state); ok m) else (do
      assert (not (is_some f.callback))
      assert (is_exec f.state)
      ok (elim m.t_fiber [ none ↦ m | some q ↦ if q == p then record m { t_fiber = none } else m ]))

-- Fiber::reset
pub reset : Bool → ℕ → ℕ → Machine → Outcome Machine
reset works p callback m = do
  assert (m.fibers p).stack
  assert (is_over (m.fibers p).state)
  ensure works thrown
  ok (write_fiber m p (record (m.fibers p) { callback = some callback; state = initial }))

-- Fiber::swapIn()
pub swap_in : Bool → ℕ → Machine → Outcome Machine
swap_in works p m = do
  assert (can_run (m.fibers p).state)
  let m' = set_state (record m { t_fiber = some p }) p exec
  assert (is_some m.main)
  switch_to works (some p) m'

-- Fiber::swapOut()
pub swap_out : Bool → ℕ → Machine → Outcome Machine
swap_out works p m = do
  assert (m.fibers p).stack
  let m' = record m { t_fiber = m.t_master }
  assert (is_some m.main)
  switch_to works m.main m'

-- Fiber::call
pub call : Bool → ℕ → Machine → Outcome Machine
call works p m = do
  assert (is_some m.t_master)
  assert (can_run (m.fibers p).state)
  switch_to works (some p) (set_state (record m { t_fiber = some p }) p exec)

-- Fiber::back
pub back : Bool → ℕ → Machine → Outcome Machine
back works p m = do
  assert (is_some m.t_master)
  assert (m.fibers p).stack
  switch_to works m.t_master (record m { t_fiber = m.t_master })

-- Fiber::swapIn(Fiber::ptr)
pub swap_in_from : Bool → ℕ → Machine → Outcome Machine
swap_in_from works p m = do
  assert (can_run (m.fibers p).state)
  switch_to works (some p) (set_state (record m { t_fiber = some p }) p exec)

-- Fiber::swapOut(Fiber::ptr): the assertion is that m_state is not INIT, which is 0.
pub swap_out_to : Bool → ℕ → ℕ → Machine → Outcome Machine
swap_out_to works to p m = do
  assert (not (is_initial (m.fibers p).state))
  switch_to works (some to) (record m { t_fiber = some to })

-- Fiber::Yield
pub yield : Bool → ℕ → Machine → Outcome Machine
unfolding get_this back
yield works fresh m = do (p, m') ← get_this works fresh m; back works p (set_state m' p hold)

-- Fiber::YieldToHold
pub yield_to_hold : Bool → ℕ → Machine → Outcome Machine
unfolding get_this swap_out
yield_to_hold works fresh m = do
  (p, m') ← get_this works fresh m
  swap_out works p (set_state m' p hold)

-- Fiber::GetFiberID
pub get_fiber_id : Machine → ℕ
get_fiber_id m = elim m.t_fiber [ none ↦ 0 | some p ↦ (m.fibers p).id ]

-- Fiber::MainFunc from where the callback of the current fiber `p` returned or threw: `on_root`
-- says that the thread is the scheduler's root thread and `p` is not its root fiber.
pub main_func_end : Bool → Bool → Bool → ℕ → Machine → Outcome Machine
unfolding swap_out back
main_func_end works threw on_root p m =
    let done = write_fiber m p (record (m.fibers p) { callback = none; state = term }) in
    let m' = if threw then m else done in if on_root then swap_out works p m' else back works p m'

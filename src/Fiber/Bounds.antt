-- ===== src/Fiber/Bounds.antt =====
-- Each method keeps fibers out of the states READY and EXCEPTION.
use learn_server_concise.Base.{
  ℕ, ◌+◌, ◌<◌, ◌^◌, ◌%◌, ◌≢◌, Bool, true, false, not, Option, none, some, ◌==◌, if◌then◌else◌,
  Outcome, ok, stop, thrown, ◌>>=◌, ◌>>◌, assert, arith, Bool-cases, Option-cases, inl, inr,
}
use learn_server_concise.Fiber.{
  State, ready, exec, term, exception, Fiber, Machine, write_fiber, set_state, can_run, is_over,
  is_exec, is_initial, switch_to, is_some, new_fiber, new_master, get_this, destroy, reset, swap_in,
  swap_out, call, back, swap_in_from, swap_out_to, main_func_end,
}

-- No fiber is READY or EXCEPTION, and every number fits 64 bits.
pub record Bounded (m : Machine) : Type 0 where
  pub not_ready : (q : ℕ) → (m.fibers q).state ≢ ready
  pub not_exception : (q : ℕ) → (m.fibers q).state ≢ exception
  pub numbered : (q : ℕ) → (m.fibers q).id < 2 ^ 64

-- A result that has the property, if there is one.
abbrev pub Keeps : (Machine → Type 0) → Outcome Machine → Type 0
Keeps P (ok m) = P m
Keeps P (stop e) = Unit

pub Keeps-assert :
    (P : Machine → Type 0) (b : Bool) (r : Outcome Machine) → Keeps P r → Keeps P (assert b >> r)
Keeps-assert P true r k = k
Keeps-assert P false r k = tt

pub Keeps-assert_two :
    (a b : Bool) (r : Outcome Machine)
    → Keeps Bounded r
    → Keeps Bounded (assert a >> (assert b >> r))
Keeps-assert_two a b r k = Keeps-assert Bounded a (assert b >> r) (Keeps-assert Bounded b r k)

-- What may be stored without harm.
pub record Fine (m : Machine) (f : Fiber) : Type 0 where
  pub not_ready : f.state ≢ ready
  pub not_exception : f.state ≢ exception
  pub numbered : f.id < 2 ^ 64

pub write-Bounded :
    (m : Machine) (p : ℕ) (f : Fiber) → Bounded m → Fine m f → Bounded (write_fiber m p f)
write-Bounded m p f b g = record {
  not_ready = λ q. ground (arith, b.not_ready q);
  not_exception = λ q. ground (arith, b.not_exception q);
  numbered = λ q. ground (arith, b.numbered q);
}

pub set_state-Bounded :
    (m : Machine) (p : ℕ) (s : State)
    → s ≢ ready
    → s ≢ exception
    → Bounded m
    → Bounded (set_state m p s)
set_state-Bounded m p s r e b =
    write-Bounded m p _ b (record { not_ready = r; not_exception = e; numbered = b.numbered p })

exec-Bounded : (m : Machine) (p : ℕ) → Bounded m → Bounded (set_state m p exec)
exec-Bounded m p b = set_state-Bounded m p exec (λ e. cc) (λ e. cc) b

-- Only the fibers and their counter matter.
pub move-Bounded :
    (m : Machine) (fiber master main : Option ℕ) (cpu count : ℕ)
    → Bounded m
    → Bounded
        (record m { t_fiber = fiber; t_master = master; main = main; cpu = cpu; count = count })
move-Bounded m fiber master main cpu count b = record {
  not_ready = b.not_ready;
  not_exception = b.not_exception;
  numbered = b.numbered;
}

switch_to-Bounded :
    (works : Bool) (to : Option ℕ) (m : Machine) → Bounded m → Keeps Bounded (switch_to works to m)
switch_to-Bounded works none m b = tt
switch_to-Bounded true (some p) m b = move-Bounded m m.t_fiber m.t_master m.main p m.count b
switch_to-Bounded false (some p) m b = tt

new_master-Bounded :
    (works : Bool) (p : ℕ) (m : Machine) → Bounded m → Keeps Bounded (new_master works p m)
unfolding new_master
new_master-Bounded true p m b =
    move-Bounded (write_fiber m p _) (some p) m.t_master m.main m.cpu ((m.count + 1) % 2 ^ 64) (
      write-Bounded m p _ b
        (record { not_ready = λ e. cc; not_exception = λ e. cc; numbered = omega arith }))
new_master-Bounded false p m b = tt

pub swap_in-Bounded :
    (works : Bool) (p : ℕ) (m : Machine) → Bounded m → Keeps Bounded (swap_in works p m)
unfolding swap_in
swap_in-Bounded works p m b = Keeps-assert_two (can_run (m.fibers p).state) (is_some m.main) _ (
    switch_to-Bounded works (some p) _
      (exec-Bounded _ p (move-Bounded m (some p) m.t_master m.main m.cpu m.count b)))

pub swap_out-Bounded :
    (works : Bool) (p : ℕ) (m : Machine) → Bounded m → Keeps Bounded (swap_out works p m)
unfolding swap_out
swap_out-Bounded works p m b =
    Keeps-assert_two (m.fibers p).stack (is_some m.main) _ (
      switch_to-Bounded works m.main _
        (move-Bounded m m.t_master m.t_master m.main m.cpu m.count b))

pub call-Bounded : (works : Bool) (p : ℕ) (m : Machine) → Bounded m → Keeps Bounded (call works p m)
unfolding call
call-Bounded works p m b = Keeps-assert_two (is_some m.t_master) (can_run (m.fibers p).state) _ (
    switch_to-Bounded works (some p) _
      (exec-Bounded _ p (move-Bounded m (some p) m.t_master m.main m.cpu m.count b)))

pub back-Bounded : (works : Bool) (p : ℕ) (m : Machine) → Bounded m → Keeps Bounded (back works p m)
unfolding back
back-Bounded works p m b = Keeps-assert_two (is_some m.t_master) (m.fibers p).stack _ (
    switch_to-Bounded works m.t_master _
      (move-Bounded m m.t_master m.t_master m.main m.cpu m.count b))

pub swap_in_from-Bounded :
    (works : Bool) (p : ℕ) (m : Machine) → Bounded m → Keeps Bounded (swap_in_from works p m)
unfolding swap_in_from
swap_in_from-Bounded works p m b = Keeps-assert Bounded (can_run (m.fibers p).state) _ (
    switch_to-Bounded works (some p) _
      (exec-Bounded _ p (move-Bounded m (some p) m.t_master m.main m.cpu m.count b)))

pub swap_out_to-Bounded :
    (works : Bool) (to p : ℕ) (m : Machine) → Bounded m → Keeps Bounded (swap_out_to works to p m)
unfolding swap_out_to
swap_out_to-Bounded works to p m b = Keeps-assert Bounded (not (is_initial (m.fibers p).state)) _ (
    switch_to-Bounded works (some to) _
      (move-Bounded m (some to) m.t_master m.main m.cpu m.count b))

pub new_fiber-Bounded :
    (works : Bool) (d p c s : ℕ) (m : Machine)
    → Bounded m
    → Keeps Bounded (new_fiber works d p c s m)
unfolding new_fiber
new_fiber-Bounded true d p c s m b =
    move-Bounded (write_fiber counted p _) m.t_fiber m.t_master m.main m.cpu
      ((m.count + 1) % 2 ^ 64)
      (write-Bounded counted p _ later
        (record { not_ready = λ e. cc; not_exception = λ e. cc; numbered = omega arith }))
  where
    counted : Machine
    counted = record m { last_id = (m.last_id + 1) % 2 ^ 64 }

    later : Bounded counted
    later = record {
      not_ready = b.not_ready;
      not_exception = b.not_exception;
      numbered = b.numbered;
    }
new_fiber-Bounded false d p c s m b = tt

pub reset-Bounded :
    (works : Bool) (p c : ℕ) (m : Machine) → Bounded m → Keeps Bounded (reset works p c m)
unfolding reset
reset-Bounded true p c m b = Keeps-assert_two (m.fibers p).stack (is_over (m.fibers p).state) _ (
    write-Bounded m p _ b
      (record { not_ready = λ e. cc; not_exception = λ e. cc; numbered = b.numbered p }))
reset-Bounded false p c m b =
    Keeps-assert_two (m.fibers p).stack (is_over (m.fibers p).state) (stop thrown) tt

-- `GetThis` keeps the bounds, and hands the fiber on.
pub get_this-Bounded :
    (works : Bool) (fresh : ℕ) (m : Machine) (f : ℕ → Machine → Outcome Machine)
    → ((p : ℕ) (m' : Machine) → Bounded m' → Keeps Bounded (f p m'))
    → Bounded m
    → Keeps Bounded (get_this works fresh m >>= λ r. f r.0 r.1)
unfolding get_this
get_this-Bounded works fresh m f h b = elim (Option-cases m.t_fiber) [
  | inl e ↦ rw (e, get_this) (made (new_master works fresh m) (new_master-Bounded works fresh m b))
  | inr (q, e) ↦ rw (e, get_this) (h q m b)
]
  where
    made :
        (r : Outcome Machine)
        → Keeps Bounded r
        → Keeps Bounded (
            ◌>>=◌ {A = ℕ × Machine}
              (r >>= λ m'. ok (fresh, record m' { t_master = some fresh }))
              (λ a. f a.0 a.1))
    made (ok m') k =
        h fresh (record m' { t_master = some fresh })
          (move-Bounded m' m'.t_fiber (some fresh) m'.main m'.cpu m'.count k)
    made (stop e) k = tt

pub destroy-Bounded : (p : ℕ) (m : Machine) → Bounded m → Keeps Bounded (destroy p m)
unfolding destroy
destroy-Bounded p m b = elim (Bool-cases (m.fibers p).stack) [
  | inl e ↦ rw e (Keeps-assert Bounded (is_over (m.fibers p).state) (ok m) b)
  | inr e ↦ rw e (
      Keeps-assert_two (not (is_some (m.fibers p).callback)) (is_exec (m.fibers p).state) _
        (cleared m.t_fiber))
]
  where
    cleared :
        (o : Option ℕ)
        → Keeps Bounded
            (ok (elim o [ none ↦ m | some q ↦ if q == p then record m { t_fiber = none } else m ]))
    cleared none = b
    cleared (some q) = elim (Bool-cases (q == p)) [
      | inl e ↦ rw e (move-Bounded m none m.t_master m.main m.cpu m.count b)
      | inr e ↦ rw e b
    ]

pub end-Bounded :
    (works threw on_root : Bool) (p : ℕ) (m : Machine)
    → Bounded m
    → Keeps Bounded (main_func_end works threw on_root p m)
unfolding main_func_end
end-Bounded works threw on_root p m b = leave on_root (after threw)
  where
    over : Machine
    over = write_fiber m p (record (m.fibers p) { callback = none; state = term })

    after : (t : Bool) → Bounded (if t then m else over)
    after true = b
    after false =
        write-Bounded m p _ b
          (record { not_ready = λ e. cc; not_exception = λ e. cc; numbered = b.numbered p })

    leave :
        {m' : Machine} (r : Bool)
        → Bounded m'
        → Keeps Bounded (if r then swap_out works p m' else back works p m')
    leave {m'} true k = swap_out-Bounded works p m' k
    leave {m'} false k = back-Bounded works p m' k

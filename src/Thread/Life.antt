-- ===== src/Thread/Life.antt =====
-- The handle of a thread over the life of the object.
use learn_server_concise.Base.{
  ℕ, zero, suc, ◌≡◌, refl, Bool, true, false, List, [], ◌∷◌, inl, inr, Outcome, ok, stop, assertion,
  ◌>>=◌, arith, Bool-cases,
}
use learn_server_concise.Thread.{
  Thread, HandleCall, join_call, detach_call, ThreadUse, sets_name, joins, set_name, join,
  destroy_thread, use_thread, live, created,
}

-- How often the owner joins the thread.
pub times_joined : List ThreadUse → ℕ
times_joined [] = 0
times_joined (sets_name n ∷ us) = times_joined us
times_joined (joins ∷ us) = suc (times_joined us)

-- What is to happen to the handle: joined at the owner's first wish, a second one fails the
-- assertion; never joined, it is detached.
pub expected : Bool → ℕ → Outcome (List HandleCall)
expected true zero = ok []
expected true (suc n) = stop assertion
expected false zero = ok (detach_call ∷ [])
expected false (suc zero) = ok (join_call ∷ [])
expected false (suc (suc n)) = stop assertion

bind_ok : (r : Outcome (List HandleCall)) → (r >>= λ x. ok x) ≡ r
bind_ok (ok x) = refl
bind_ok (stop e) = refl

after_join : (n : ℕ) → (expected true n >>= λ rest. ok (join_call ∷ rest)) ≡ expected false (suc n)
unfolding expected
after_join zero = refl
after_join (suc n) = refl

live_lem :
    (us : List ThreadUse) (t : Thread)
    → t.started ≡ true
    → live us t ≡ expected t.joined (times_joined us)
unfolding live use_thread destroy_thread join set_name times_joined expected
live_lem [] t s = ground arith
live_lem (sets_name n ∷ us) t s = rw (live_lem us (set_name n t) s) (bind_ok _)
live_lem (joins ∷ us) t s = elim (Bool-cases t.joined) [
  | inl e ↦ rw (s, e, join) refl
  | inr e ↦
      rw (s, e, join)
        (rw (live_lem us (record t { started = true; joined = true }) refl)
          (after_join (times_joined us)))
]

-- Whatever its owner calls on a thread that was started, up to the destructor, the handle is dealt
-- with once: joined if the owner joins once, detached if not at all; a second join fails the
-- assertion.
pub live-created :
    (us : List ThreadUse) (tid : ℕ) (name : List ℕ)
    → live us (created tid name) ≡ expected false (times_joined us)
unfolding created
live-created us tid name = live_lem us (created tid name) refl

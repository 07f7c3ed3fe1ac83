-- ===== src/Thread/Tests.antt =====
-- The threads and locks of include/thread.h and src/thread.cc on concrete calls.
use learn_server_concise.Base.{
  ◌≤◌, ◌≡◌, ◌≢◌, refl, true, false, List, [], ◌∷◌, some, arith, ok, stop, assertion, ◌⊎◌,
}
use learn_server_concise.Thread.{
  locks, reads, writes, Use, lock_use, unlock_use, scoped_lock, read_scoped_lock, write_scoped_lock,
  ThreadUse, sets_name, joins, join_call, detach_call, live, created,
}
use learn_server_concise.Thread.Locks.{Alternates, scoped_locks-Alternates}
use learn_server_concise.Thread.Start.{
  checking, failed, notified, StartState, before_start, Step, creates, writes_id, notifies, passes,
  Reachable, at_start, then_step,
}
use learn_server_concise.Thread.Started.{
  has_passed, has_notified, has_names, steps, IsOver, start-IsSafe, start-Ends,
}

-- The owner unlocks early, twice, and locks again.
abbrev some_uses : List Use
some_uses = unlock_use ∷ unlock_use ∷ lock_use ∷ []

scoped_locks-Alternates_example :
    Alternates locks false (scoped_lock some_uses)
    × Alternates reads false (read_scoped_lock some_uses)
    × Alternates writes false (write_scoped_lock some_uses)
scoped_locks-Alternates_example = scoped_locks-Alternates some_uses

-- The new thread has notified, and the constructor is past the wait.
abbrev woken_state : StartState
woken_state = record before_start { creator = checking; child = notified; id = some 42; count = 0 }

woken-Reachable : Reachable 42 (116 ∷ []) woken_state
woken-Reachable =
    then_step
      (then_step (then_step (then_step at_start (creates refl)) (writes_id refl refl))
        (notifies refl refl))
      (passes 0 refl refl refl)

start-IsSafe_example :
    (woken_state.creator ≢ failed)
    × (has_passed woken_state.creator ≡ true
        → (woken_state.id ≡ some 42) × (has_notified woken_state.child ≡ true))
    × (has_names woken_state.child ≡ true → woken_state.id ≡ some woken_state.locals.tid)
start-IsSafe_example = start-IsSafe 42 (116 ∷ []) woken_state (omega arith) woken-Reachable

start-Ends_example :
    (steps 42 (116 ∷ []) woken-Reachable ≤ 9)
    × (IsOver 42 (116 ∷ []) woken_state ⊎ ((s' : StartState) × Step 42 (116 ∷ []) woken_state s'))
start-Ends_example = start-Ends 42 (116 ∷ []) woken_state (omega arith) woken-Reachable

abbrev renamed_and_joined : List ThreadUse
renamed_and_joined = sets_name (97 ∷ []) ∷ joins ∷ []

joined_test :
    (live renamed_and_joined (created 42 []) ≡ ok (join_call ∷ []))
    × (live [] (created 42 []) ≡ ok (detach_call ∷ []))
    × (live (joins ∷ joins ∷ []) (created 42 []) ≡ stop assertion)
unfolding live created
joined_test = (refl, refl, refl)

-- ===== src/Thread/Locks.antt =====
-- A scoped lock uses its mutex correctly.
use mathlib.Core.Path.{subst}
use mathlib.Core.List.{append_assoc}
use learn_server_concise.Base.{◌≡◌, refl, ap, sym, ◌∙◌, Bool, true, false, List, [], ◌∷◌, ◌++◌}
use learn_server_concise.Thread.{
  MutexCall, locks, reads, writes, unlocks, ScopedLock, Use, lock_use, unlock_use, enter, lock,
  unlock, use_once, use_all, whole_scope, scoped_lock, read_scoped_lock, write_scoped_lock,
}

-- The calls take and release the mutex by turns, and release it in the end; `held` says whether it
-- is held before them.
pub data Alternates (take : MutexCall) : Bool → List MutexCall → Type 0 where
  released : Alternates take false []
  taking :
      {calls : List MutexCall} → Alternates take true calls → Alternates take false (take ∷ calls)
  releasing :
      {calls : List MutexCall}
      → Alternates take false calls
      → Alternates take true (unlocks ∷ calls)

-- What a mutex does on each call, on a state of its own.
abbrev pub run_mutex : {S : Type 0} → (MutexCall → S → S) → List MutexCall → S → S
run_mutex mutex [] s = s
run_mutex mutex (c ∷ cs) s = run_mutex mutex cs (mutex c s)

module _ (take : MutexCall) where
  use_by_state :
      (u : Use) (b : Bool) (calls : List MutexCall)
      → Alternates take (use_once take u (record { locked = b })).0.locked calls
      → Alternates take b ((use_once take u (record { locked = b })).1 ++ calls)
  unfolding use_once lock unlock
  use_by_state lock_use true calls a = a
  use_by_state lock_use false calls a = taking a
  use_by_state unlock_use true calls a = releasing a
  use_by_state unlock_use false calls a = a

  use_once-Alternates :
      (u : Use) (l : ScopedLock) (calls : List MutexCall)
      → Alternates take (use_once take u l).0.locked calls
      → Alternates take l.locked ((use_once take u l).1 ++ calls)
  use_once-Alternates u l calls a = use_by_state u l.locked calls a

  use_all-Alternates :
      (us : List Use) (l : ScopedLock) (calls : List MutexCall)
      → Alternates take (use_all take us l).0.locked calls
      → Alternates take l.locked ((use_all take us l).1 ++ calls)
  unfolding use_all
  use_all-Alternates [] l calls a = a
  use_all-Alternates (u ∷ us) l calls a =
      subst (Alternates take l.locked)
        (sym (append_assoc (use_once take u l).1 (use_all take us (use_once take u l).0).1 calls))
        (use_once-Alternates u l _ (use_all-Alternates us (use_once take u l).0 calls a))

  destructor-Alternates : (b : Bool) → Alternates take b (unlock take (record { locked = b })).1
  unfolding unlock
  destructor-Alternates true = releasing released
  destructor-Alternates false = released

  whole_scope-Alternates : (us : List Use) → Alternates take false (whole_scope take us)
  unfolding whole_scope enter
  whole_scope-Alternates us = taking (
      use_all-Alternates us (record { locked = true }) _
        (destructor-Alternates (use_all take us (record { locked = true })).0.locked))

  module _ {S : Type 0} (mutex : MutexCall → S → S)
      (undo : (s : S) → mutex unlocks (mutex take s) ≡ s) where
    mutual
      free_restores :
          (calls : List MutexCall) (s : S)
          → Alternates take false calls
          → run_mutex mutex calls s ≡ s
      free_restores [] s a = refl
      free_restores (c ∷ cs) s (taking a) = held_restores cs s a

      held_restores :
          (calls : List MutexCall) (s : S)
          → Alternates take true calls
          → run_mutex mutex calls (mutex take s) ≡ s
      held_restores [] s a = elim a [ ]
      held_restores (c ∷ cs) s (releasing a) =
          ap (run_mutex mutex cs) (undo s) ∙ free_restores cs s a

-- Whatever its owner calls on it between the constructor and the destructor, each of the three scoped
-- locks takes and releases its mutex by turns, beginning with taking it and ending with releasing
-- it.
pub scoped_locks-Alternates :
    (us : List Use)
    → Alternates locks false (scoped_lock us)
      × Alternates reads false (read_scoped_lock us)
      × Alternates writes false (write_scoped_lock us)
unfolding scoped_lock read_scoped_lock write_scoped_lock
scoped_locks-Alternates us = (
  whole_scope-Alternates locks us,
  whole_scope-Alternates reads us,
  whole_scope-Alternates writes us,
)

-- Where `unlock` undoes each way of taking the mutex, a scope of any of the three scoped locks leaves
-- the mutex as it was before.
pub scoped_locks-restore :
    {S : Type 0} (mutex : MutexCall → S → S) (us : List Use) (s : S)
    → ((s : S) → mutex unlocks (mutex locks s) ≡ s)
    → ((s : S) → mutex unlocks (mutex reads s) ≡ s)
    → ((s : S) → mutex unlocks (mutex writes s) ≡ s)
    → (run_mutex mutex (scoped_lock us) s ≡ s)
      × (run_mutex mutex (read_scoped_lock us) s ≡ s)
      × (run_mutex mutex (write_scoped_lock us) s ≡ s)
scoped_locks-restore mutex us s l r w = (
  free_restores locks mutex l _ s (scoped_locks-Alternates us).0,
  free_restores reads mutex r _ s (scoped_locks-Alternates us).1,
  free_restores writes mutex w _ s (scoped_locks-Alternates us).2,
)

-- ===== src/Thread.antt =====
-- include/thread.h and src/thread.cc: the scoped locks, the start of a thread, and class Thread. A
-- string is the list of its bytes. The calls of pthread are recorded, or their results are
-- arguments.
pub mod Locks
pub mod Start
pub mod Started
pub mod Life
mod Tests
use learn_server_concise.Base.{
  ℕ, zero, suc, Bool, true, false, not, ◌&&◌, List, [], ◌∷◌, ◌++◌, Option, none, some,
  if◌then◌else◌, Outcome, ok, stop, ◌>>=◌, ◌>>◌, assert,
}

-- What a scoped lock calls on its mutex: Mutex::lock, RWLock::readLock, RWLock::writeLock or unlock.
pub data MutexCall : Type 0 where
  locks reads writes unlocks : MutexCall

-- The state of a scoped lock: m_locked.
pub record ScopedLock : Type 0 where
  pub locked : Bool

-- What the owner of a scoped lock calls on it.
pub data Use : Type 0 where
  lock_use unlock_use : Use

-- The members of the three classes, which differ in the call that takes the mutex.
module _ (take : MutexCall) where
  enter : ScopedLock × List MutexCall
  enter = (record { locked = true }, take ∷ [])

  lock : ScopedLock → ScopedLock × List MutexCall
  lock l = if not l.locked then (record { locked = true }, take ∷ []) else (l, [])

  unlock : ScopedLock → ScopedLock × List MutexCall
  unlock l = if l.locked then (record { locked = false }, unlocks ∷ []) else (l, [])

  use_once : Use → ScopedLock → ScopedLock × List MutexCall
  unfolding lock unlock
  use_once lock_use l = lock l
  use_once unlock_use l = unlock l

  use_all : List Use → ScopedLock → ScopedLock × List MutexCall
  unfolding use_once
  use_all [] l = (l, [])
  use_all (u ∷ us) l =
      let step = use_once u l in let rest = use_all us step.0 in (rest.0, step.1 ++ rest.1)

  -- The calls on the mutex from the constructor to the destructor, which calls `unlock`.
  whole_scope : List Use → List MutexCall
  unfolding enter use_all unlock
  whole_scope us = let used = use_all us enter.0 in enter.1 ++ used.1 ++ (unlock used.0).1

-- ScopedLockImpl, ReadScopedLockImpl and WriteScopedLockImpl
pub scoped_lock : List Use → List MutexCall
unfolding whole_scope
scoped_lock us = whole_scope locks us

pub read_scoped_lock : List Use → List MutexCall
unfolding whole_scope
read_scoped_lock us = whole_scope reads us

pub write_scoped_lock : List Use → List MutexCall
unfolding whole_scope
write_scoped_lock us = whole_scope writes us

-- The members of class Thread that its methods read and write; the id -1 is `none`.
pub record Thread : Type 0 where
  pub id : Option ℕ
  pub name : List ℕ
  pub started : Bool
  pub joined : Bool

-- What is done with the pthread_t of a Thread.
pub data HandleCall : Type 0 where
  join_call detach_call : HandleCall

-- Thread::setName
set_name : List ℕ → Thread → Thread
set_name name t = record t { name = name }

-- Thread::join
pub join : Thread → Outcome (Thread × List HandleCall)
join t = do assert t.started; assert (not t.joined); ok (record t { joined = true }, join_call ∷ [])

-- Thread::~Thread
pub destroy_thread : Thread → List HandleCall
destroy_thread t = if t.started && not t.joined then detach_call ∷ [] else []

-- What the owner of a Thread calls on it.
pub data ThreadUse : Type 0 where
  sets_name : List ℕ → ThreadUse
  joins : ThreadUse

use_thread : ThreadUse → Thread → Outcome (Thread × List HandleCall)
unfolding set_name join
use_thread (sets_name name) t = ok (set_name name t, [])
use_thread joins t = join t

-- The calls on the handle up to the destructor.
pub live : List ThreadUse → Thread → Outcome (List HandleCall)
unfolding use_thread destroy_thread
live [] t = ok (destroy_thread t)
live (u ∷ us) t = use_thread u t >>= λ step. live us step.0 >>= λ rest. ok (step.1 ++ rest)

-- Thread::Thread where pthread_create succeeds, with the id that the thread wrote.
pub created : ℕ → List ℕ → Thread
created tid name = record { id = some tid; name = name; started = true; joined = false }

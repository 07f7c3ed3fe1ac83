-- ===== src/Thread/Start.antt =====
-- Thread::Thread of src/thread.cc, ThreadData::runInThread, and the semaphore between them, as steps
-- of the two threads in any order.
use learn_server_concise.Base.{
  ℕ, zero, suc, ◌+◌, ◌≡◌, Bool, true, false, List, [], ◌∷◌, Option, none, some,
}

-- Where the thread that calls the constructor is: before pthread_create, in m_semaphore.wait(), at
-- the assertion on m_id, behind it; or pthread_create failed, or sem_wait did, and the constructor
-- threw; or the assertion failed.
pub data Creator : Type 0 where
  creating waiting checking constructed threw interrupted failed : Creator

-- Where the new thread is: not there, in `runInThread` before it writes m_id, before it notifies,
-- before it sets its names, in the callback; or it returned, or the callback threw, or sem_post failed,
-- which ends the process too, as nothing catches what `notify` throws.
pub data Created : Type 0 where
  absent begun id_written notified in_callback returned aborted terminated : Created

-- The thread-local variables t_tid and t_thread_name, and the name given to pthread.
pub record Locals : Type 0 where
  pub tid : ℕ
  pub thread_name : List ℕ
  pub kernel_name : List ℕ

pub record StartState : Type 0 where
  pub creator : Creator
  pub child : Created
  -- m_id, where -1 is `none`
  pub id : Option ℕ
  -- the value of m_semaphore
  pub count : ℕ
  pub locals : Locals

-- `m_name.substr(0, n)`
abbrev pub substr : ℕ → List ℕ → List ℕ
substr zero name = []
substr (suc n) [] = []
substr (suc n) (c ∷ cs) = c ∷ substr n cs

-- "UNKNOWN"
abbrev pub unknown_name : List ℕ
unknown_name = 85 ∷ 78 ∷ 75 ∷ 78 ∷ 79 ∷ 87 ∷ 78 ∷ []

abbrev pub shown_name : List ℕ → List ℕ
shown_name [] = unknown_name
shown_name (c ∷ cs) = c ∷ cs

-- What the new thread sets before it runs its callback.
abbrev pub named : ℕ → List ℕ → Locals
named tid name = record { tid = tid; thread_name = shown_name name; kernel_name = substr 15 name }

abbrev pub blank_locals : Locals
blank_locals = record { tid = 0; thread_name = unknown_name; kernel_name = [] }

abbrev pub before_start : StartState
before_start = record {
  creator = creating;
  child = absent;
  id = none;
  count = 0;
  locals = blank_locals;
}

-- `m_id > 0`
abbrev pub is_positive : Option ℕ → Bool
is_positive none = false
is_positive (some zero) = false
is_positive (some (suc n)) = true

-- No thread goes on after abort() or std::terminate.
abbrev pub is_dead : Created → Bool
is_dead aborted = true
is_dead terminated = true
is_dead _ = false

-- The object and its members are gone: the new thread's use of them is undefined behaviour.
abbrev pub is_gone : Creator → Bool
is_gone interrupted = true
is_gone _ = false

-- The steps, where `tid` is what GetThreadID returns in the new thread and `name` is m_name. After
-- abort() no thread goes on, and what the new thread does to an object that is gone is left out.
module _ (tid : ℕ) (name : List ℕ) where
  pub data Step : StartState → StartState → Type 0 where
    -- pthread_create
    creates :
        {s : StartState}
        → s.creator ≡ creating
        → Step s (record s { creator = waiting; child = begun })
    fails : {s : StartState} → s.creator ≡ creating → Step s (record s { creator = threw })
    -- m_semaphore.wait(), which goes on only where the value is not 0
    passes :
        {s : StartState} (n : ℕ)
        → s.creator ≡ waiting
        → is_dead s.child ≡ false
        → s.count ≡ suc n
        → Step s (record s { creator = checking; count = n })
    wait_throws :
        {s : StartState}
        → s.creator ≡ waiting
        → is_dead s.child ≡ false
        → Step s (record s { creator = interrupted })
    -- assert(m_id > 0)
    holds :
        {s : StartState}
        → s.creator ≡ checking
        → is_dead s.child ≡ false
        → is_positive s.id ≡ true
        → Step s (record s { creator = constructed })
    breaks :
        {s : StartState}
        → s.creator ≡ checking
        → is_dead s.child ≡ false
        → is_positive s.id ≡ false
        → Step s (record s { creator = failed })
    -- *m_id = GetThreadID()
    writes_id :
        {s : StartState}
        → s.child ≡ begun
        → is_gone s.creator ≡ false
        → Step s (record s { child = id_written; id = some tid })
    -- m_semaphore->notify()
    notifies :
        {s : StartState}
        → s.child ≡ id_written
        → is_gone s.creator ≡ false
        → Step s (record s { child = notified; count = s.count + 1 })
    notify_throws :
        {s : StartState}
        → s.child ≡ id_written
        → is_gone s.creator ≡ false
        → Step s (record s { child = terminated })
    sets_names :
        {s : StartState}
        → s.child ≡ notified
        → Step s (record s { child = in_callback; locals = named tid name })
    -- m_callback() returns, or throws
    returns : {s : StartState} → s.child ≡ in_callback → Step s (record s { child = returned })
    throws : {s : StartState} → s.child ≡ in_callback → Step s (record s { child = aborted })

  -- What comes of `before_start` by any number of steps.
  pub data Reachable : StartState → Type 0 where
    at_start : Reachable before_start
    then_step : {s s' : StartState} → Reachable s → Step s s' → Reachable s'
